-- ===== src/PortForward/Observed.antt =====
-- `Resolve` of internal/portforward/resolver.go offers only Pods that it observed.
use waycloak.Prelude.{
  In, ℕ, String, Bool, true, false, ◌==◌, not, List, [], ◌∷◌, ◌≡◌, refl, inl, inr, Option, none,
  some, Bool-cases, All,
}
use waycloak.Prelude.Assoc.{lookup, insert}
use waycloak.Exec.{Result, ok, err, lift, pure, Traced, errors_is}
use waycloak.Exec.Triple.{
  Post-ok, Triple, Triple-pure, Triple-lift, Triple-if, Triple-bind, Triple-attempt, Triple-perform,
  Triple-weaken,
}
use waycloak.Dataplane.{Netip}
use waycloak.PortForward.Backend.{
  ServicePort, BackendService, TargetRef, Endpoint, EndpointSlice, BackendPod, PodBinding,
  LeaseBackend, GatewayIdentity, Candidate, eligible_endpoint, matching_ports,
}
use waycloak.PortForward.Resolver.{
  Directory, Call, list_bindings, get_pod, is_not_found, sort_candidates, usable_ref,
  candidate_from,
}
use waycloak.PortForward.Resolution.{
  Resolution, Found, is_better, offer, add_found, service_found, listed, ports_found, pod_found,
  entries, candidate_with, candidate_at, candidate, endpoint_loop, slice_step, slice_port,
  slice_loop, resolve,
}
use waycloak.PortForward.Choice.{sort-In}
use waycloak.PortForward.Genuine.{Holds, Genuine, candidate_from-Genuine}

insert-All :
    {V : Type 0} (P : String × V → Type 0) (key : String) (value : V) (l : List (String × V))
    → P (key, value)
    → All P l
    → All P (insert key value l)
unfolding insert
insert-All P key value [] p h = (p, tt)
insert-All P key value ((other, old) ∷ l) p (q, h) = elim (Bool-cases (other == key)) [
  | inl e ↦ rw e (p, h)
  | inr e ↦ rw e (q, insert-All P key value l p h)
]

module _ {n : Netip} {W : Type 0} (d : Directory n W) (lease : LeaseBackend)
    (g : GatewayIdentity) where
  -- The log has the answers that stand behind a candidate and its eligibility.
  abbrev pub Observed : List Call → Candidate n × Bool → Type 0
  Observed log x =
      (name : String) × (pod : BackendPod) × (bindings : List PodBinding) × In
        (get_pod lease.namespace name (ok pod)) log
      × In (list_bindings lease.namespace (ok bindings)) log
      × Genuine d g bindings pod x

  later :
      (x : Candidate n × Bool) (c : Call) (log : List Call) → Observed log x → Observed (c ∷ log) x
  later x c log (name, pod, bindings, p, b, h) = (name, pod, bindings, inr p, inr b, h)

  abbrev AllObserved : Bool → List Call → List (String × Candidate n) → Type 0
  AllObserved flag log = All (λ e. Observed log (e.1, flag))

  later_all :
      (flag : Bool) (c : Call) (log : List Call) (l : List (String × Candidate n))
      → AllObserved flag log l
      → AllObserved flag (c ∷ log) l
  later_all flag c log [] h = tt
  later_all flag c log (e ∷ l) (p, h) = (later (e.1, flag) c log p, later_all flag c log l h)

  offer-Observed :
      (flag : Bool) (log : List Call) (c : Candidate n) (l : List (String × Candidate n))
      → Observed log (c, flag)
      → AllObserved flag log l
      → AllObserved flag log (offer c l)
  unfolding offer
  offer-Observed flag log c l p h = elim (Bool-cases (is_better c (lookup c.pod_uid l))) [
    | inl e ↦ rw e (insert-All (λ x. Observed log (x.1, flag)) c.pod_uid c l p h)
    | inr e ↦ rw e h
  ]

  abbrev Kept : Found n → List Call → Type 0
  Kept f log = AllObserved true log f.by_pod × AllObserved false log f.unavailable_by_pod

  add_found-Kept :
      (f : Found n) (log : List Call) (x : Option (Candidate n × Bool))
      → Holds (Observed log) x
      → Kept f log
      → Kept (add_found x f) log
  unfolding add_found
  add_found-Kept f log none p h = h
  add_found-Kept f log (some (c, true)) p h = (offer-Observed true log c f.by_pod p h.0, h.1)
  add_found-Kept f log (some (c, false)) p h =
      (h.0, offer-Observed false log c f.unavailable_by_pod p h.1)

  module _ (service : BackendService) (ports : List ServicePort) (bindings : List PodBinding) where
    -- The bindings were listed, and what was found so far was observed.
    abbrev Going : Found n → Traced W Call → Type 0
    Going f t = In (list_bindings lease.namespace (ok bindings)) t.log × Kept f t.log

    abbrev Any : {A : Type 0} → A → Traced W Call → Type 0
    Any a t = Unit

    -- The newest call answered about the Pod.
    abbrev Asked : Found n → String → Result BackendPod → Traced W Call → Type 0
    Asked f name (ok pod) t = Going f t × In (get_pod lease.namespace name (ok pod)) t.log
    Asked f name (err e) t = Going f t

    abbrev Answered : Found n → String → Option BackendPod → Traced W Call → Type 0
    Answered f name none t = Going f t
    Answered f name (some pod) t = Going f t × In (get_pod lease.namespace name (ok pod)) t.log

    abbrev Offered : Found n → Option (Candidate n × Bool) → Traced W Call → Type 0
    Offered f x t = Going f t × Holds (Observed t.log) x

    pod_found-Answered :
        (f : Found n) (name : String) (r : Result BackendPod)
        → Triple (Asked f name r) (lift (pod_found r)) (Answered f name) Any
    unfolding pod_found
    pod_found-Answered f name (ok pod) = Triple-lift _ (λ t h. h)
    pod_found-Answered f name (err e) = elim (Bool-cases (errors_is is_not_found e)) [
      | inl q ↦ Triple-lift _ (λ t h. rw q h)
      | inr q ↦ Triple-lift _ (λ t h. rw q tt)
    ]

    candidate_with-Offered :
        (f : Found n) (slice : EndpointSlice) (port : ℕ) (ref : TargetRef) (addresses : List String)
        (pod : Option BackendPod)
        → Triple
            (Answered f ref.name pod)
            (pure (candidate_with d g service slice port bindings ref addresses pod))
            (Offered f)
            Any
    unfolding candidate_with
    candidate_with-Offered f slice port ref addresses none = Triple-pure _ (λ t h. (h, tt))
    candidate_with-Offered f slice port ref addresses (some pod) = Triple-pure _ (λ t h. (
      h.0,
      behind t (candidate_from d g service slice port bindings ref addresses pod)
          (candidate_from-Genuine d g service slice port bindings ref addresses pod) h,
    ))
      where
        behind :
            (t : Traced W Call) (x : Option (Candidate n × Bool))
            → Holds (Genuine d g bindings pod) x
            → Answered f ref.name (some pod) t
            → Holds (Observed t.log) x
        behind t none q h = tt
        behind t (some c) q h = (ref.name, pod, bindings, h.1, h.0.0, q)

    candidate-Offered :
        (f : Found n) (slice : EndpointSlice) (port : ℕ) (e : Endpoint) (ref : Option TargetRef)
        → Triple
            (Going f)
            (candidate_at d lease g service slice port bindings e ref)
            (Offered f)
            Any
    unfolding candidate_at
    candidate-Offered f slice port e none = Triple-pure _ (λ t h. (h, tt))
    candidate-Offered f slice port e (some ref) =
        Triple-bind {Q = Asked f ref.name} _ _
          (Triple-attempt _
            (Triple-perform _ _ (λ pod w t h. (kept t _ h, inl refl)) (λ x w t h. kept t _ h)))
          λ answer.
            Triple-bind _ _ (pod_found-Answered f ref.name answer)
              (candidate_with-Offered f slice port ref e.addresses)
      where
        kept :
            (t : Traced W Call) (c : Call)
            → Going f t
            → In (list_bindings lease.namespace (ok bindings)) (c ∷ t.log) × Kept f (c ∷ t.log)
        kept t c h = (
          inr h.0,
          (
            later_all true c t.log f.by_pod h.1.0,
            later_all false c t.log f.unavailable_by_pod h.1.1,
          ),
        )

    endpoint_loop-Going :
        (slice : EndpointSlice) (port : ℕ) (es : List Endpoint) (f : Found n)
        → Triple (Going f) (endpoint_loop d lease g service slice port bindings es f) Going Any
    unfolding endpoint_loop candidate
    endpoint_loop-Going slice port [] f = Triple-pure _ (λ t h. h)
    endpoint_loop-Going slice port (e ∷ rest) f =
        Triple-if (not (eligible_endpoint e)) _ _ (λ _. endpoint_loop-Going slice port rest f)
          (λ _.
            Triple-bind _ _
              (candidate-Offered f slice port e (usable_ref lease.namespace e.target_ref))
              λ c.
                Triple-weaken _ (endpoint_loop-Going slice port rest (add_found c f))
                  (λ t h. (h.0.0, add_found-Kept f t.log c h.1 h.0.1)) (λ a t h. h) (λ x t h. h))

    slice_step-Going :
        (slice : EndpointSlice) (port : Option ℕ) (f : Found n)
        → Triple (Going f) (slice_step d lease g service slice port bindings f) Going Any
    unfolding slice_step
    slice_step-Going slice none f = Triple-pure _ (λ t h. h)
    slice_step-Going slice (some port) f = endpoint_loop-Going slice port slice.endpoints f

    pub slice_loop-Going :
        (slices : List EndpointSlice) (f : Found n)
        → Triple (Going f) (slice_loop d lease g service ports bindings slices f) Going Any
    unfolding slice_loop
    slice_loop-Going [] f = Triple-pure _ (λ t h. h)
    slice_loop-Going (slice ∷ rest) f =
        Triple-bind _ _ (slice_step-Going slice (slice_port service ports slice) f)
          (slice_loop-Going rest)

  entries-In :
      (Q : Candidate n → Type 0) (l : List (String × Candidate n))
      → All (λ e. Q e.1) l
      → (c : Candidate n) → In c (sort_candidates (entries l))
      → Q c
  entries-In Q l h c m = go l h ((sort-In (entries l) c).0 m)
    where
      go : (l : List (String × Candidate n)) → All (λ e. Q e.1) l → In c (entries l) → Q c
      go [] h m = absurd m
      go (e ∷ l) (p, h) (inl q) = rw q p
      go (e ∷ l) (p, h) (inr m) = go l h m

  abbrev pub Sourced : Resolution n → Traced W Call → Type 0
  Sourced r t =
      ((c : Candidate n) → In c r.candidates → Observed t.log (c, true))
      × ((c : Candidate n) → In c r.unavailable_candidates → Observed t.log (c, false))

  start :
      {A : Type 0} (r : Result A)
      → Triple (λ (t : Traced W Call). Unit {0}) (lift r) (λ _ _. Unit {0}) (λ _ _. Unit {0})
  start (ok a) = Triple-lift _ (λ t h. tt)
  start (err e) = Triple-lift _ (λ t h. tt)

  -- The bindings were listed, if there was an answer.
  abbrev Listed : Result (List PodBinding) → Traced W Call → Type 0
  Listed (ok bindings) t = In (list_bindings lease.namespace (ok bindings)) t.log
  Listed (err e) t = Unit

  listed-Listed :
      (message : String) (r : Result (List PodBinding))
      → Triple
          (Listed r)
          (lift (listed message r))
          (λ bindings t. In (list_bindings lease.namespace (ok bindings)) t.log)
          (λ _ _. Unit {0})
  unfolding listed
  listed-Listed message (ok bindings) = Triple-lift _ (λ t h. h)
  listed-Listed message (err e) = Triple-lift _ (λ t h. tt)

  resolve-Sourced : Triple (λ _. Unit {0}) (resolve d lease g) Sourced (λ _ _. Unit {0})
  unfolding resolve
  resolve-Sourced = Triple-bind {Q = λ _ _. Unit} _ _ (start _) λ _.
      Triple-bind {Q = λ _ _. Unit} _ _
        (Triple-attempt _ (Triple-perform _ _ (λ a w t h. tt) (λ e w t h. tt)))
        λ answer. Triple-bind {Q = λ _ _. Unit} _ _ (start (service_found answer)) λ service.
          Triple-bind {Q = λ _ _. Unit} _ _ (start _) λ _.
            Triple-bind {Q = λ _ _. Unit} _ _
              (start (ports_found (matching_ports lease.port service.ports)))
              λ ports.
                Triple-bind {Q = λ _ _. Unit} _ _
                  (Triple-attempt _ (Triple-perform _ _ (λ a w t h. tt) (λ e w t h. tt)))
                  λ slices_answer.
                    Triple-bind {Q = λ _ _. Unit} _ _ (start (listed _ slices_answer)) λ slices.
                      Triple-bind {Q = Listed} _ _
                        (Triple-attempt _
                          (Triple-perform _ _ (λ a w t h. inl refl) (λ e w t h. tt)))
                        λ bindings_answer.
                          Triple-bind _ _ (listed-Listed _ bindings_answer) λ bindings.
                            Triple-bind _ _
                              (Triple-weaken _
                                (slice_loop-Going service ports bindings slices
                                  (record { by_pod = []; unavailable_by_pod = [] }))
                                (λ t h. (h, (tt, tt))) (λ a t h. h) (λ e t h. tt))
                              λ f. Triple-pure _ (λ t h. (
                                entries-In (λ c. Observed t.log (c, true)) f.by_pod h.1.0,
                                entries-In (λ c. Observed t.log (c, false)) f.unavailable_by_pod
                                    h.1.1,
                              ))

-- What Resolve offers, whatever the cluster answers: behind every candidate stands a Pod that it
-- read with that UID, running, not being deleted and with the candidate's IPv4 application address,
-- and a binding that it listed and that names this Pod, the gateway with its UID and generation, and
-- the route of the Pod's label, with an IPv4 overlay address. The binding of an offered candidate has
-- its conditions Programmed, Ready and NodeReady current and True, that of an unavailable one has not.
pub resolve-Observed :
    {n : Netip} {W : Type 0} (d : Directory n W) (lease : LeaseBackend) (g : GatewayIdentity)
    (s : Traced W Call) (r : Resolution n)
    → (resolve d lease g s).0 ≡ ok r
    → ((c : Candidate n)
        → In c r.candidates
        → Observed d lease g (resolve d lease g s).1.log (c, true))
      × ((c : Candidate n)
          → In c r.unavailable_candidates
          → Observed d lease g (resolve d lease g s).1.log (c, false))
resolve-Observed d lease g s r e =
    Post-ok (Sourced d lease g) (λ _ _. Unit) (resolve d lease g s).0 (resolve d lease g s).1 r e
      ((resolve-Sourced d lease g).at s tt)
