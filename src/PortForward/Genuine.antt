-- ===== src/PortForward/Genuine.antt =====
-- What stands behind a candidate of `Resolve` in internal/portforward/resolver.go.
use waycloak.Prelude.{
  In, ℕ, String, Bool, true, false, ◌||◌, ◌==◌, eq_iff, not, List, [], ◌∷◌, ◌≡◌, refl, sym, arith,
  ◌⊎◌, inl, inr, Option, none, some, Bool-cases,
}
use waycloak.Dataplane.{Netip}
use waycloak.PortForward.Backend.{
  BackendService, TargetRef, EndpointSlice, BackendPod, PodBinding, GatewayIdentity, Candidate,
}
use waycloak.PortForward.Resolver.{
  Directory, is_bound, bound_bindings, the_only, parsed, option_then, only_if, application_address,
  overlay_address, is_eligible, candidate_from,
}

module _ {A : Type 0} (P : A → Type 0) where
  -- A property of the value, if there is one.
  abbrev pub Holds : Option A → Type 0
  Holds none = Unit
  Holds (some a) = P a

  option_then-Holds :
      {B : Type 0} (o : Option B) (f : B → Option A)
      → ((b : B) → o ≡ some b → Holds (f b))
      → Holds (option_then o f)
  option_then-Holds none f h = tt
  option_then-Holds (some b) f h = h b refl

  only_if-Holds : (b : Bool) (a : A) → (b ≡ true → P a) → Holds (only_if b a)
  only_if-Holds true a h = h refl
  only_if-Holds false a h = tt

  Holds-some : (o : Option A) (a : A) → Holds o → o ≡ some a → P a
  Holds-some none a h e = cc
  Holds-some (some b) a h e = let q : b ≡ a = cc in rw (sym q) h

the_only-In : {A : Type 0} (xs : List A) (a : A) → the_only xs ≡ some a → In a xs
the_only-In [] a h = cc
the_only-In (x ∷ []) a h = inl cc
the_only-In (x ∷ y ∷ rest) a h = cc

bound_bindings-In :
    (pod : BackendPod) (g : GatewayIdentity) (bs : List PodBinding) (b : PodBinding)
    → In b (bound_bindings pod g bs)
    → In b bs × (is_bound pod g b ≡ true)
unfolding bound_bindings
bound_bindings-In pod g [] b m = absurd m
bound_bindings-In pod g (x ∷ bs) b m = elim (Bool-cases (is_bound pod g x)) [
  | inl e ↦
      let q : (b ≡ x) ⊎ In b (bound_bindings pod g bs) = rw e at m in
      elim q [
        | inl p ↦ (inl p, rw p e)
        | inr r ↦ let s = bound_bindings-In pod g bs b r in (inr s.0, s.1)
      ]
  | inr e ↦ let r = bound_bindings-In pod g bs b (rw e at m) in (inr r.0, r.1)
]

module _ {n : Netip} {W : Type 0} (d : Directory n W) where
  -- The Pod runs, and its IPv4 address is the one of the endpoint.
  abbrev pub Running : BackendPod → n.Addr → Type 0
  Running pod a =
      (pod.phase ≡ "Running")
      × (pod.deleting ≡ false)
      × (d.is_4 a ≡ true)
      × (pod.pod_ip ≡ d.addr_text a)

  application_address-Running :
      (ref : TargetRef) (pod : BackendPod) (addresses : List String)
      → Holds (Running pod) (application_address d ref pod addresses)
  unfolding application_address
  application_address-Running ref pod addresses =
      elim (Bool-cases (not (pod.uid == ref.uid) || not (pod.phase == "Running") || pod.deleting)) [
        | inl e ↦ rw e tt
        | inr e ↦ rw e (
            option_then-Holds (Running pod) (the_only addresses) _ λ text _.
              option_then-Holds (Running pod) (parsed (d.parse_addr text)) _ λ a _.
                only_if-Holds (Running pod) _ a λ h. (
                  (eq_iff pod.phase "Running").0 (ground arith),
                  ground arith,
                  ground arith,
                  (eq_iff pod.pod_ip (d.addr_text a)).0 (ground arith),
                ))
      ]

  overlay_address-4 : (b : PodBinding) → Holds (λ a. d.is_4 a ≡ true) (overlay_address d b)
  unfolding overlay_address
  overlay_address-4 b =
      option_then-Holds _ (parsed (d.parse_prefix b.address)) _
        λ p _. only_if-Holds (λ a. d.is_4 a ≡ true) (d.is_4 (n.addr p)) (n.addr p) λ h. h

  -- What `candidate` found out about the Pod that it read, among these bindings.
  abbrev pub Genuine : GatewayIdentity → List PodBinding → BackendPod → Candidate n × Bool → Type 0
  Genuine g bindings pod (c, flag) =
      (b : PodBinding) × In b bindings
      × (is_bound pod g b ≡ true)
      × (is_eligible d b ≡ flag)
      × (c.pod_uid ≡ pod.uid)
      × (c.binding_uid ≡ b.uid)
      × Running pod c.application_address
      × (d.is_4 c.overlay_address ≡ true)

  pub candidate_from-Genuine :
      (g : GatewayIdentity) (service : BackendService) (slice : EndpointSlice) (port : ℕ)
      (bindings : List PodBinding) (ref : TargetRef) (addresses : List String) (pod : BackendPod)
      → Holds
          (Genuine g bindings pod)
          (candidate_from d g service slice port bindings ref addresses pod)
  unfolding candidate_from
  candidate_from-Genuine g service slice port bindings ref addresses pod =
      option_then-Holds (Genuine g bindings pod) (application_address d ref pod addresses) _
        λ application h.
          option_then-Holds (Genuine g bindings pod) (the_only (bound_bindings pod g bindings)) _
            λ b only.
              option_then-Holds (Genuine g bindings pod) (overlay_address d b) _ λ overlay o.
                let m = bound_bindings-In pod g bindings b (the_only-In _ b only) in
                (
                  b,
                  m.0,
                  m.1,
                  refl,
                  refl,
                  refl,
                  Holds-some (Running pod) (application_address d ref pod addresses) application
                      (application_address-Running ref pod addresses) h,
                  Holds-some (λ a. d.is_4 a ≡ true) (overlay_address d b) overlay
                      (overlay_address-4 b) o,
                )
