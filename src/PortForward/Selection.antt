-- ===== src/PortForward/Selection.antt =====
-- The choice of internal/portforward/resolver.go depends on the candidates alone, not on their order.
use waycloak.Prelude.{
  In, All-In, String, string_lt, string_lt_irrefl, string_lt_total, true, false, ◌==◌, eq_iff, List,
  [], ◌∷◌, ◌≡◌, ◌≢◌, refl, sym, ◌∙◌, ap, arith, inl, inr, Option, none, some, Bool-cases,
}
use waycloak.Dataplane.{Netip}
use waycloak.PortForward.Backend.{Candidate}
use waycloak.PortForward.Resolver.{sort_candidates, first_of, find_pod, or_else, select}
use waycloak.PortForward.Choice.{Sorted, sort-Sorted, sort-In}

module _ {n : Netip} where
  -- The candidates are told apart by their Pod UIDs.
  abbrev pub Keyed : List (Candidate n) → Type 0
  Keyed xs = (a b : Candidate n) → In a xs → In b xs → a.pod_uid ≡ b.pod_uid → a ≡ b

  -- The two lists have the same members, in whatever order and however often.
  abbrev pub SameMembers : List (Candidate n) → List (Candidate n) → Type 0
  SameMembers xs ys = (c : Candidate n) → (In c xs → In c ys) × (In c ys → In c xs)

  first-same :
      (xs ys : List (Candidate n))
      → Sorted xs
      → Sorted ys
      → Keyed xs
      → SameMembers xs ys
      → first_of xs ≡ first_of ys
  first-same [] [] sx sy k m = refl
  first-same [] (y ∷ ys) sx sy k m = absurd ((m y).1 (inl refl))
  first-same (x ∷ xs) [] sx sy k m = absurd ((m x).0 (inl refl))
  first-same (x ∷ xs) (y ∷ ys) sx sy k m = ap some (
      k x y (inl refl) ((m y).1 (inl refl)) (
        string_lt_total x.pod_uid y.pod_uid
          (All-In _ (y ∷ ys) (string_lt_irrefl y.pod_uid, sy.0) x ((m x).0 (inl refl)))
          (All-In _ (x ∷ xs) (string_lt_irrefl x.pod_uid, sx.0) y ((m y).1 (inl refl)))))

  find_pod-In :
      (uid : String) (xs : List (Candidate n)) (c : Candidate n)
      → find_pod uid xs ≡ some c
      → In c xs × (c.pod_uid ≡ uid)
  unfolding find_pod
  find_pod-In uid [] c h = cc
  find_pod-In uid (x ∷ xs) c h = elim (Bool-cases (x.pod_uid == uid)) [
    | inl e ↦ found e (rw e at h)
    | inr e ↦ let m = find_pod-In uid xs c (rw e at h) in (inr m.0, m.1)
  ]
    where
      found :
          (x.pod_uid == uid) ≡ true
          → Path (Option (Candidate n)) (some x) (some c)
          → In c (x ∷ xs) × (c.pod_uid ≡ uid)
      found e q = let p : x ≡ c = cc in (inl (sym p), rw (sym p) ((eq_iff x.pod_uid uid).0 e))

  find_pod-none :
      (uid : String) (xs : List (Candidate n)) (c : Candidate n)
      → find_pod uid xs ≡ none
      → In c xs
      → c.pod_uid ≡ uid
      → ⊥
  unfolding find_pod
  find_pod-none uid [] c h m u = absurd m
  find_pod-none uid (x ∷ xs) c h m u = elim (Bool-cases (x.pod_uid == uid)) [
    | inl e ↦ taken (rw e at h)
    | inr e ↦ elim m [ inl q ↦ differs e q | inr r ↦ find_pod-none uid xs c (rw e at h) r u ]
  ]
    where
      taken : Path (Option (Candidate n)) (some x) none → ⊥
      taken q = absurd cc

      differs : (x.pod_uid == uid) ≡ false → c ≡ x → ⊥
      differs e q = ground (arith, eq_iff x.pod_uid uid, ap (λ (y : Candidate n). y.pod_uid) q)

  find-same :
      (uid : String) (xs ys : List (Candidate n)) (r s : Option (Candidate n))
      → find_pod uid xs ≡ r
      → find_pod uid ys ≡ s
      → Keyed xs
      → SameMembers xs ys
      → r ≡ s
  find-same uid xs ys none none e f k m = refl
  find-same uid xs ys none (some d) e f k m =
      let g = find_pod-In uid ys d f in absurd (find_pod-none uid xs d e ((m d).1 g.0) g.1)
  find-same uid xs ys (some c) none e f k m =
      let g = find_pod-In uid xs c e in absurd (find_pod-none uid ys c f ((m c).0 g.0) g.1)
  find-same uid xs ys (some c) (some d) e f k m =
      let g = find_pod-In uid xs c e in
      let h = find_pod-In uid ys d f in ap some (k c d g.0 ((m d).1 h.0) (g.1 ∙ sym h.1))

  sorted-same :
      (xs ys : List (Candidate n))
      → Keyed xs
      → SameMembers xs ys
      → first_of (sort_candidates xs) ≡ first_of (sort_candidates ys)
  sorted-same xs ys k m =
      first-same (sort_candidates xs) (sort_candidates ys) (sort-Sorted xs) (sort-Sorted ys)
        (λ a b p q. k a b ((sort-In xs a).0 p) ((sort-In xs b).0 q))
        (λ c. (
          (λ p. (sort-In ys c).1 ((m c).0 ((sort-In xs c).0 p))),
          (λ p. (sort-In xs c).1 ((m c).1 ((sort-In ys c).0 p))),
        ))

  -- The first of the sorted candidates, if there is one.
  first-least :
      (xs : List (Candidate n)) (c : Candidate n)
      → first_of xs ≡ some c
      → Sorted xs
      → In c xs × ((x : Candidate n) → In x xs → string_lt x.pod_uid c.pod_uid ≡ false)
  first-least [] c h s = cc
  first-least (x ∷ xs) c h s = found p
    where
      p : x ≡ c
      p = cc

      found :
          x ≡ c
          → In c (x ∷ xs)
            × ((y : Candidate n) → In y (x ∷ xs) → string_lt y.pod_uid c.pod_uid ≡ false)
      found q = rw (sym q) (inl refl, All-In _ (x ∷ xs) (string_lt_irrefl x.pod_uid, s.0))

-- Select answers alike on two lists of candidates with the same members, in whatever order and
-- however often they are listed, when no two different ones have one Pod UID. If one of them has the
-- current Pod UID, it is chosen; if none has, the choice is as without a current Pod UID: a candidate
-- whose Pod UID comes after that of no other.
pub select_order :
    {n : Netip} (xs ys : List (Candidate n))
    → Keyed xs
    → SameMembers xs ys
    → ((current : Option String) → select xs current ≡ select ys current)
      × ((c : Candidate n) → In c xs → select xs (some c.pod_uid) ≡ some c)
      × ((uid : String)
          → ((c : Candidate n) → In c xs → c.pod_uid ≢ uid)
          → select xs (some uid) ≡ select xs none)
      × ((c : Candidate n)
          → select xs none ≡ some c
          → In c xs × ((x : Candidate n) → In x xs → string_lt x.pod_uid c.pod_uid ≡ false))
unfolding select
select_order {n} xs ys k m = (same, kept, fresh, least)
  where
    same : (current : Option String) → select xs current ≡ select ys current
    same none = sorted-same xs ys k m
    same (some uid) = λ i.
        or_else (find-same uid xs ys (find_pod uid xs) (find_pod uid ys) refl refl k m i)
          (sorted-same xs ys k m i)

    kept_by :
        (c : Candidate n) (r : Option (Candidate n))
        → In c xs
        → find_pod c.pod_uid xs ≡ r
        → or_else r (first_of (sort_candidates xs)) ≡ some c
    kept_by c none i e = absurd (find_pod-none c.pod_uid xs c e i refl)
    kept_by c (some d) i e = let f = find_pod-In c.pod_uid xs d e in ap some (k d c f.0 i f.1)

    kept : (c : Candidate n) → In c xs → select xs (some c.pod_uid) ≡ some c
    kept c i = kept_by c (find_pod c.pod_uid xs) i refl

    fresh_by :
        (uid : String) (r : Option (Candidate n))
        → ((c : Candidate n) → In c xs → c.pod_uid ≢ uid)
        → find_pod uid xs ≡ r
        → or_else r (first_of (sort_candidates xs)) ≡ first_of (sort_candidates xs)
    fresh_by uid none h e = refl
    fresh_by uid (some d) h e = let f = find_pod-In uid xs d e in absurd (h d f.0 f.1)

    fresh :
        (uid : String)
        → ((c : Candidate n) → In c xs → c.pod_uid ≢ uid)
        → select xs (some uid) ≡ select xs none
    fresh uid h = fresh_by uid (find_pod uid xs) h refl

    least :
        (c : Candidate n)
        → select xs none ≡ some c
        → In c xs × ((x : Candidate n) → In x xs → string_lt x.pod_uid c.pod_uid ≡ false)
    least c h =
        let l = first-least (sort_candidates xs) c h (sort-Sorted xs) in
        ((sort-In xs c).0 l.0, λ x i. l.1 x ((sort-In xs x).1 i))
