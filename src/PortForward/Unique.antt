-- ===== src/PortForward/Unique.antt =====
-- `Resolve` of internal/portforward/resolver.go offers each Pod once.
use waycloak.Prelude.{
  In, All-In, ℕ, String, Bool, true, false, ◌==◌, eq_iff, not, List, [], ◌∷◌, ◌≡◌, refl, sym, ◌∙◌,
  ap, subst, inl, inr, Option, none, some, if◌then◌else◌, Bool-cases, All, arith,
}
use waycloak.Prelude.Assoc.{lookup, insert}
use waycloak.Exec.{ok, Exec, Traced}
use waycloak.Exec.Triple.{Post-ok, Triple, Triple-any, Triple-pure, Triple-if, Triple-bind}
use waycloak.Dataplane.{Netip}
use waycloak.PortForward.Backend.{
  ServicePort, BackendService, Endpoint, EndpointSlice, PodBinding, LeaseBackend, GatewayIdentity,
  Candidate, eligible_endpoint,
}
use waycloak.PortForward.Resolver.{
  Directory, Call, precedes, insert_candidate, sort_candidates, select,
}
use waycloak.PortForward.Resolution.{
  Resolution, Found, is_better, offer, add_found, entries, endpoint_loop, slice_step, slice_port,
  slice_loop, resolve,
}
use waycloak.PortForward.Selection.{Keyed, select_order}

clash : (uid key : String) → (uid == key) ≡ false → uid ≡ key → ⊥
clash uid key h e = ground (arith, eq_iff uid key)

flip_clash : (a b : String) → (a == b) ≡ false → (b == a) ≡ false
flip_clash a b h = ground (arith, eq_iff a b, eq_iff b a)

module _ {n : Netip} where
  abbrev Absent : String → List (String × Candidate n) → Type 0
  Absent key = All (λ e. (e.0 == key) ≡ false)

  -- Each entry stands under the Pod UID of its candidate, and no key stands twice.
  abbrev Unique : List (String × Candidate n) → Type 0
  Unique [] = Unit
  Unique ((key, c) ∷ l) = (key ≡ c.pod_uid) × Absent key l × Unique l

  insert-Absent :
      (key other : String) (c : Candidate n) (l : List (String × Candidate n))
      → (other == key) ≡ false
      → Absent key l
      → Absent key (insert other c l)
  unfolding insert
  insert-Absent key other c [] d h = (d, tt)
  insert-Absent key other c ((first, old) ∷ l) d (p, h) = elim (Bool-cases (first == other)) [
    | inl e ↦ rw e (d, h)
    | inr e ↦ rw e (p, insert-Absent key other c l d h)
  ]

  insert-Unique :
      (c : Candidate n) (l : List (String × Candidate n)) → Unique l → Unique (insert c.pod_uid c l)
  unfolding insert
  insert-Unique c [] h = (refl, tt, tt)
  insert-Unique c ((first, old) ∷ l) (p, a, u) = elim (Bool-cases (first == c.pod_uid)) [
    | inl e ↦ rw e (refl, subst (λ k. Absent k l) ((eq_iff first c.pod_uid).0 e) a, u)
    | inr e ↦ rw e (
      p,
      insert-Absent first c.pod_uid c l
          (ground (arith, eq_iff first c.pod_uid, eq_iff c.pod_uid first)) a,
      insert-Unique c l u,
    )
  ]

  offer-Unique : (c : Candidate n) (l : List (String × Candidate n)) → Unique l → Unique (offer c l)
  unfolding offer
  offer-Unique c l h = elim (Bool-cases (is_better c (lookup c.pod_uid l))) [
    | inl e ↦ rw e (insert-Unique c l h)
    | inr e ↦ rw e h
  ]

  -- The candidate has another Pod UID than each of these.
  abbrev Apart : Candidate n → List (Candidate n) → Type 0
  Apart c = All (λ d. (c.pod_uid == d.pod_uid) ≡ false)

  -- Each Pod UID is there at most once.
  abbrev pub Distinct : List (Candidate n) → Type 0
  Distinct [] = Unit
  Distinct (c ∷ cs) = Apart c cs × Distinct cs

  if-Apart :
      (c : Candidate n) (b : Bool) (xs ys : List (Candidate n))
      → Apart c xs
      → Apart c ys
      → Apart c (if b then xs else ys)
  if-Apart c true xs ys p q = p
  if-Apart c false xs ys p q = q

  insert-Apart :
      (c d : Candidate n) (l : List (Candidate n))
      → (c.pod_uid == d.pod_uid) ≡ false
      → Apart c l
      → Apart c (insert_candidate d l)
  unfolding insert_candidate
  insert-Apart c d [] q h = (q, tt)
  insert-Apart c d (e ∷ l) q (p, h) =
      if-Apart c (precedes e d) (e ∷ insert_candidate d l) (d ∷ e ∷ l) (p, insert-Apart c d l q h)
        (q, (p, h))

  insert-Distinct :
      (d : Candidate n) (l : List (Candidate n))
      → Apart d l
      → Distinct l
      → Distinct (insert_candidate d l)
  unfolding insert_candidate
  insert-Distinct d [] a h = (tt, tt)
  insert-Distinct d (e ∷ l) (q, a) (p, h) = elim (Bool-cases (precedes e d)) [
    | inl b ↦
        rw b (insert-Apart e d l (flip_clash d.pod_uid e.pod_uid q) p, insert-Distinct d l a h)
    | inr b ↦ rw b ((q, a), (p, h))
  ]

  sort-Apart : (c : Candidate n) (l : List (Candidate n)) → Apart c l → Apart c (sort_candidates l)
  unfolding sort_candidates
  sort-Apart c [] h = tt
  sort-Apart c (d ∷ l) (p, h) = insert-Apart c d (sort_candidates l) p (sort-Apart c l h)

  sort-Distinct : (l : List (Candidate n)) → Distinct l → Distinct (sort_candidates l)
  unfolding sort_candidates
  sort-Distinct [] h = tt
  sort-Distinct (c ∷ l) (a, h) =
      insert-Distinct c (sort_candidates l) (sort-Apart c l a) (sort-Distinct l h)

  entries-Apart :
      (c : Candidate n) (l : List (String × Candidate n))
      → Absent c.pod_uid l
      → Unique l
      → Apart c (entries l)
  entries-Apart c [] a u = tt
  entries-Apart c ((k, d) ∷ l) (p, a) (q, b, u) =
      (flip_clash d.pod_uid c.pod_uid (rw (sym q) p), entries-Apart c l a u)

  entries-Distinct : (l : List (String × Candidate n)) → Unique l → Distinct (entries l)
  entries-Distinct [] u = tt
  entries-Distinct ((k, d) ∷ l) (q, a, u) =
      (entries-Apart d l (subst (λ x. Absent x l) q a) u, entries-Distinct l u)

  -- One of a list of distinct candidates is determined by its Pod UID.
  Distinct-Keyed : (l : List (Candidate n)) → Distinct l → Keyed l
  Distinct-Keyed [] h a b p q e = absurd p
  Distinct-Keyed (c ∷ l) (x, h) a b (inl p) (inl q) e = p ∙ sym q
  Distinct-Keyed (c ∷ l) (x, h) a b (inl p) (inr q) e = absurd (
      clash c.pod_uid b.pod_uid (All-In _ l x b q)
        (sym (ap (λ (z : Candidate n). z.pod_uid) p) ∙ e))
  Distinct-Keyed (c ∷ l) (x, h) a b (inr p) (inl q) e = absurd (
      clash c.pod_uid a.pod_uid (All-In _ l x a p)
        (sym (e ∙ ap (λ (z : Candidate n). z.pod_uid) q)))
  Distinct-Keyed (c ∷ l) (x, h) a b (inr p) (inr q) e = Distinct-Keyed l h a b p q e

  abbrev BothUnique : Found n → Type 0
  BothUnique f = Unique f.by_pod × Unique f.unavailable_by_pod

  add_found-Unique :
      (x : Option (Candidate n × Bool)) (f : Found n) → BothUnique f → BothUnique (add_found x f)
  unfolding add_found
  add_found-Unique none f h = h
  add_found-Unique (some (c, true)) f h = (offer-Unique c f.by_pod h.0, h.1)
  add_found-Unique (some (c, false)) f h = (h.0, offer-Unique c f.unavailable_by_pod h.1)

  sorted-Distinct :
      (l : List (String × Candidate n)) → Unique l → Distinct (sort_candidates (entries l))
  sorted-Distinct l u = sort-Distinct (entries l) (entries-Distinct l u)

module _ {n : Netip} {W : Type 0} (d : Directory n W) (lease : LeaseBackend)
    (g : GatewayIdentity) where
  abbrev Any : {A : Type 0} → A → Traced W Call → Type 0
  Any a t = Unit

  -- An action whose outcome has a property, whatever state it starts in.
  abbrev Yields : {A : Type 0} → (A → Type 0) → Exec (Traced W Call) A → Type 0
  Yields {A} P m = Triple {A = A} (λ _. Unit) m (λ a _. P a) (λ _ _. Unit)

  endpoint_loop-Unique :
      (service : BackendService) (slice : EndpointSlice) (port : ℕ) (bindings : List PodBinding)
      (es : List Endpoint) (f : Found n)
      → BothUnique f
      → Yields BothUnique (endpoint_loop d lease g service slice port bindings es f)
  unfolding endpoint_loop
  endpoint_loop-Unique service slice port bindings [] f h = Triple-pure _ (λ t _. h)
  endpoint_loop-Unique service slice port bindings (e ∷ rest) f h =
      Triple-if (not (eligible_endpoint e)) _ _
        (λ _. endpoint_loop-Unique service slice port bindings rest f h)
        (λ _. Triple-bind {Q = λ _ _. Unit} _ _ (Triple-any _) λ c.
          endpoint_loop-Unique service slice port bindings rest (add_found c f)
            (add_found-Unique c f h))

  slice_loop-Unique :
      (service : BackendService) (ports : List ServicePort) (bindings : List PodBinding)
      (slices : List EndpointSlice) (f : Found n)
      → BothUnique f
      → Yields BothUnique (slice_loop d lease g service ports bindings slices f)
  unfolding slice_loop slice_step
  slice_loop-Unique service ports bindings [] f h = Triple-pure _ (λ t _. h)
  slice_loop-Unique service ports bindings (slice ∷ rest) f h =
      Triple-bind {Q = λ f _. BothUnique f} _ _ (step (slice_port service ports slice)) λ more.
        record { at = λ t u. (slice_loop-Unique service ports bindings rest more u).at t tt }
    where
      step :
          (port : Option ℕ) → Yields BothUnique (slice_step d lease g service slice port bindings f)
      step none = Triple-pure _ (λ t _. h)
      step (some port) = endpoint_loop-Unique service slice port bindings slice.endpoints f h

  anyway : {A : Type 0} (m : Exec (Traced W Call) A) → Yields (λ _. Unit) m
  anyway m = Triple-any m

  resolve-BothDistinct :
      Yields (λ r. Distinct r.candidates × Distinct r.unavailable_candidates) (resolve d lease g)
  unfolding resolve
  resolve-BothDistinct = Triple-bind {Q = λ _ _. Unit} _ _ (anyway _) λ _.
      Triple-bind {Q = λ _ _. Unit} _ _ (anyway _) λ answer.
        Triple-bind {Q = λ _ _. Unit} _ _ (anyway _) λ service.
          Triple-bind {Q = λ _ _. Unit} _ _ (anyway _) λ _.
            Triple-bind {Q = λ _ _. Unit} _ _ (anyway _) λ ports.
              Triple-bind {Q = λ _ _. Unit} _ _ (anyway _) λ slices_answer.
                Triple-bind {Q = λ _ _. Unit} _ _ (anyway _) λ slices.
                  Triple-bind {Q = λ _ _. Unit} _ _ (anyway _) λ bindings_answer.
                    Triple-bind {Q = λ _ _. Unit} _ _ (anyway _) λ bindings.
                      Triple-bind {Q = λ f _. BothUnique f} _ _
                        (slice_loop-Unique service ports bindings slices
                          (record { by_pod = []; unavailable_by_pod = [] }) (tt, tt))
                        λ f. Triple-pure _ (λ t h.
                          (sorted-Distinct f.by_pod h.0, sorted-Distinct f.unavailable_by_pod h.1))

-- Where Resolve succeeds, each of its two lists of candidates holds each Pod UID at most once; and with
-- the Pod UID of any candidate that it offers, Select chooses exactly this candidate.
pub resolve-Distinct :
    {n : Netip} {W : Type 0} (d : Directory n W) (lease : LeaseBackend) (g : GatewayIdentity)
    (s : Traced W Call) (r : Resolution n)
    → (resolve d lease g s).0 ≡ ok r
    → Distinct r.candidates
      × Distinct r.unavailable_candidates
      × ((c : Candidate n) → In c r.candidates → select r.candidates (some c.pod_uid) ≡ some c)
resolve-Distinct {n} d lease g s r e = (
  both.0,
  both.1,
  (select_order r.candidates r.candidates (Distinct-Keyed r.candidates both.0)
      (λ c. ((λ m. m), (λ m. m)))).1,
)
  where
    both : Distinct r.candidates × Distinct r.unavailable_candidates
    both =
        Post-ok (λ (r : Resolution n) _. Distinct r.candidates × Distinct r.unavailable_candidates)
          (λ _ _. Unit) (resolve d lease g s).0 (resolve d lease g s).1 r e
          ((resolve-BothDistinct d lease g).at s tt)
