-- ===== src/PortForward/Choice.antt =====
-- The choice of internal/portforward/resolver.go among the candidates.
use waycloak.Prelude.{
  String, string_lt, string_lt_trans, string_lt_irrefl, string_lt_total, true, false, eq_iff, List,
  [], ◌∷◌, ◌≡◌, arith, ◌⊎◌, inl, inr, Bool-cases, All, In,
}
use waycloak.Dataplane.{Netip}
use waycloak.PortForward.Backend.{Candidate}
use waycloak.PortForward.Resolver.{precedes, insert_candidate, sort_candidates}

-- The order is weak: what does not come after does not come after later.
string_lt_weak :
    (a b c : String) → string_lt a b ≡ false → string_lt b c ≡ false → string_lt a c ≡ false
string_lt_weak a b c h g = ground (arith, string_lt_trans a c b, string_lt_total b c)

module _ {n : Netip} where
  -- The Pod UID of the second does not come after that of the first.
  abbrev pub Least : Candidate n → List (Candidate n) → Type 0
  Least c = All (λ x. string_lt x.pod_uid c.pod_uid ≡ false)

  abbrev pub Sorted : List (Candidate n) → Type 0
  Sorted [] = Unit
  Sorted (c ∷ rest) = Least c rest × Sorted rest

  precedes-true : (a b : Candidate n) → precedes a b ≡ true → string_lt b.pod_uid a.pod_uid ≡ false
  unfolding precedes
  precedes-true a b h = ground (
    arith,
    eq_iff a.pod_uid b.pod_uid,
    string_lt_irrefl a.pod_uid,
    string_lt_trans a.pod_uid b.pod_uid a.pod_uid,
  )

  precedes-false :
      (a b : Candidate n) → precedes a b ≡ false → string_lt a.pod_uid b.pod_uid ≡ false
  unfolding precedes
  precedes-false a b h = ground (arith, eq_iff a.pod_uid b.pod_uid, string_lt_irrefl a.pod_uid)

  Least-weak :
      (c d : Candidate n) (xs : List (Candidate n))
      → string_lt d.pod_uid c.pod_uid ≡ false
      → Least d xs
      → Least c xs
  Least-weak c d [] h l = tt
  Least-weak c d (x ∷ xs) h (p, l) =
      (string_lt_weak x.pod_uid d.pod_uid c.pod_uid p h, Least-weak c d xs h l)

  insert-Least :
      (d c : Candidate n) (xs : List (Candidate n))
      → string_lt c.pod_uid d.pod_uid ≡ false
      → Least d xs
      → Least d (insert_candidate c xs)
  unfolding insert_candidate
  insert-Least d c [] h l = (h, tt)
  insert-Least d c (x ∷ xs) h (p, l) = elim (Bool-cases (precedes x c)) [
    | inl e ↦ rw e (p, insert-Least d c xs h l)
    | inr e ↦ rw e (h, (p, l))
  ]

  insert-Sorted :
      (c : Candidate n) (xs : List (Candidate n)) → Sorted xs → Sorted (insert_candidate c xs)
  unfolding insert_candidate
  insert-Sorted c [] h = (tt, tt)
  insert-Sorted c (d ∷ xs) (l, h) = elim (Bool-cases (precedes d c)) [
    | inl e ↦ rw e (insert-Least d c xs (precedes-true d c e) l, insert-Sorted c xs h)
    | inr e ↦ rw e ((precedes-false d c e, Least-weak c d xs (precedes-false d c e) l), (l, h))
  ]

  pub sort-Sorted : (xs : List (Candidate n)) → Sorted (sort_candidates xs)
  unfolding sort_candidates
  sort-Sorted [] = tt
  sort-Sorted (c ∷ xs) = insert-Sorted c (sort_candidates xs) (sort-Sorted xs)

  insert-In :
      (c : Candidate n) (xs : List (Candidate n)) (a : Candidate n)
      → (In a (insert_candidate c xs) → (a ≡ c) ⊎ In a xs)
        × ((a ≡ c) ⊎ In a xs → In a (insert_candidate c xs))
  unfolding insert_candidate
  insert-In c [] a = ((λ m. m), (λ m. m))
  insert-In c (d ∷ xs) a = elim (Bool-cases (precedes d c)) [
    | inl e ↦ rw e (swap (insert-In c xs a))
    | inr e ↦ rw e ((λ m. m), (λ m. m))
  ]
    where
      swap :
          (In a (insert_candidate c xs) → (a ≡ c) ⊎ In a xs)
            × ((a ≡ c) ⊎ In a xs → In a (insert_candidate c xs))
          → ((a ≡ d) ⊎ In a (insert_candidate c xs) → (a ≡ c) ⊎ ((a ≡ d) ⊎ In a xs))
            × ((a ≡ c) ⊎ ((a ≡ d) ⊎ In a xs) → (a ≡ d) ⊎ In a (insert_candidate c xs))
      swap (f, g) = (
        (λ m. elim m [
          | inl e ↦ inr (inl e)
          | inr q ↦ elim (f q) [ inl e ↦ inl e | inr r ↦ inr (inr r) ]
        ]),
        (λ m. elim m [
          | inl e ↦ inr (g (inl e))
          | inr q ↦ elim q [ inl e ↦ inl e | inr r ↦ inr (g (inr r)) ]
        ]),
      )

  pub sort-In :
      (xs : List (Candidate n)) (a : Candidate n)
      → (In a (sort_candidates xs) → In a xs) × (In a xs → In a (sort_candidates xs))
  unfolding sort_candidates
  sort-In [] a = ((λ m. m), (λ m. m))
  sort-In (c ∷ xs) a =
      let i = insert-In c (sort_candidates xs) a in
      let s = sort-In xs a in
      (
        (λ m. elim (i.0 m) [ inl e ↦ inl e | inr q ↦ inr (s.0 q) ]),
        (λ m. elim m [ inl e ↦ i.1 (inl e) | inr q ↦ i.1 (inr (s.1 q)) ]),
      )
