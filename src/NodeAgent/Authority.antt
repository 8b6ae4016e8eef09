-- ===== src/NodeAgent/Authority.antt =====
-- What the reads of internal/nodeagent/service.go establish about the Pod, its binding and its
-- configuration, whatever the readers answer.
use waycloak.Prelude.{String, Bool, true, false, eq_iff, not, ◌∷◌, ◌≡◌, refl, ◌∙◌, arith}
use waycloak.Prelude.Int.{ℤ, eq_ℤ_iff}
use waycloak.Exec.{Err, Result, ok, err, and_then, reject_if, lift}
use waycloak.Exec.Triple.{
  Triple, Triple-pure, Triple-lift, Triple-bind, Triple-bind-lift, Triple-attempt, Triple-call,
  Triple-known,
}
use waycloak.Cni.Types.{PodIdentity, Binding, validate_pod, binding_eq}
use waycloak.Dataplane.{Netip, Config, validate}
use waycloak.NodeAgent.Types.{Pod, WorkloadBinding, Service, get_pod, get_binding, Run}
use waycloak.NodeAgent.Lookup.{
  valid_identity, looked_up, present_binding, pod_of, raw_binding, binding_of, binding_reference,
  config_from_binding, projected_config, authority,
}

pub not-not : (b : Bool) → not b ≡ false → b ≡ true
not-not b h = ground arith

module _ {B : Type 0} (P : B → Type 0) where
  -- A property of a value, which an error has.
  abbrev pub Holds : Result B → Type 0
  Holds (ok b) = P b
  Holds (err e) = Unit

  and_then-Holds :
      {A : Type 0} (r : Result A) (f : A → Result B)
      → ((a : A) → r ≡ ok a → Holds (f a))
      → Holds (and_then r f)
  and_then-Holds (ok a) f h = h a refl
  and_then-Holds (err e) f h = tt

pub reject_if-ok : (b : Bool) (e : Err) (u : Unit {0}) → reject_if b e ≡ ok u → b ≡ false
reject_if-ok true e u h = cc
reject_if-ok false e u h = refl

module _ {n : Netip} {W : Type 0} (s : Service n W) where
  -- A configuration that passed its validation, of a Pod UID and a generation.
  abbrev pub ValidConfig : Config n → String → ℤ → Type 0
  ValidConfig c uid generation =
      (validate n c ≡ ok tt) × (c.pod_uid ≡ uid) × (c.allocation_generation ≡ generation)

  config_from_binding-ValidConfig :
      (b : WorkloadBinding)
      → Holds (λ c. ValidConfig c b.pod_uid b.generation) (config_from_binding s b)
  unfolding config_from_binding projected_config
  config_from_binding-ValidConfig b = search step depth 20
    where
      step :
          {A : Type 0} (r : Result A) (f : A → Result (Config n))
          → ((a : A) → r ≡ ok a → Holds (λ c. ValidConfig c b.pod_uid b.generation) (f a))
          → Holds (λ c. ValidConfig c b.pod_uid b.generation) (and_then r f)
      step = and_then-Holds _

  -- What `authority` grants: the exact binding of the Pod at the requested generation, and a
  -- configuration of it that passed its validation.
  abbrev pub Granted : PodIdentity → Binding → WorkloadBinding × Config n → Type 0
  Granted i requested (b, c) =
      (b.pod_uid ≡ i.uid)
      × (b.generation ≡ requested.generation)
      × ValidConfig c i.uid requested.generation

  binding_eq-generation :
      (b : WorkloadBinding) (requested : Binding)
      → binding_eq (binding_reference b) requested ≡ true
      → b.generation ≡ requested.generation
  unfolding binding_eq
  binding_eq-generation b requested h =
      (eq_ℤ_iff b.generation requested.generation).0 (ground arith)

  -- A predicate on the state that the two reads keep.
  pub record ReadStable (P : Run n W → Type 0) : Type 0 where
    pub at_pod :
        (namespace name : String) (r : Result Pod) (w : W) (t : Run n W)
        → P t
        → P (record t { world = w; log = get_pod namespace name r ∷ t.log })
    pub at_binding :
        (namespace name : String) (r : Result WorkloadBinding) (w : W) (t : Run n W)
        → P t
        → P (record t { world = w; log = get_binding namespace name r ∷ t.log })

  module _ {P : Run n W → Type 0} (stable : ReadStable P) where
    pub lift-stable : {A : Type 0} (r : Result A) → Triple P (lift r) (λ _. P) (λ _. P)
    lift-stable (ok a) = Triple-lift _ (λ t h. h)
    lift-stable (err e) = Triple-lift _ (λ t h. h)

    pub raw_binding-Found :
        (namespace pod_uid : String)
        → Triple P (raw_binding s namespace pod_uid) (λ b t. (b.pod_uid ≡ pod_uid) × P t) (λ _. P)
    unfolding raw_binding
    raw_binding-Found namespace pod_uid =
        Triple-bind {Q = λ _. P} _ _
          (Triple-attempt _ (
            Triple-call _ _ (λ b w t. stable.at_binding namespace _ (ok b) w t)
              (λ e w t. stable.at_binding namespace _ (err e) w t)))
          λ found. Triple-bind {Q = λ _. P} _ _ (lift-stable (present_binding found)) λ b.
            Triple-bind-lift _ _ (λ e _ t h. h)
              λ u exact.
                Triple-pure b
                  (λ t h. ((eq_iff b.pod_uid pod_uid).0 (not-not _ (reject_if-ok _ _ u exact)), h))

    pub pod_of-Found :
        (i : PodIdentity) → Triple P (pod_of s i) (λ pod t. (pod.uid ≡ i.uid) × P t) (λ _. P)
    unfolding pod_of
    pod_of-Found i =
        Triple-bind {Q = λ _. P} _ _ (lift-stable (valid_identity (validate_pod i))) λ _.
          Triple-bind {Q = λ _. P} _ _ (lift-stable _) λ _.
            Triple-bind {Q = λ _. P} _ _
              (Triple-attempt _ (
                Triple-call _ _ (λ pod w t. stable.at_pod i.namespace i.name (ok pod) w t)
                  (λ e w t. stable.at_pod i.namespace i.name (err e) w t)))
              λ found. Triple-bind {Q = λ _. P} _ _ (lift-stable (looked_up found)) λ pod.
                Triple-bind-lift _ _ (λ e _ t h. h)
                  λ u exact. Triple-bind {Q = λ _. P} _ _ (lift-stable _) λ _.
                    Triple-pure pod
                      (λ t h. ((eq_iff pod.uid i.uid).0 (not-not _ (reject_if-ok _ _ u exact)), h))

    pub binding_of-Found :
        (pod : Pod) → Triple P (binding_of s pod) (λ b t. (b.pod_uid ≡ pod.uid) × P t) (λ _. P)
    unfolding binding_of
    binding_of-Found pod =
        Triple-bind _ _ (raw_binding-Found pod.namespace pod.uid)
          λ b. Triple-bind-lift _ _ (λ e _ t h. h.1) λ _ _. Triple-pure b (λ t h. h)

    config-Granted :
        (i : PodIdentity) (requested : Binding) (b : WorkloadBinding) (r : Result (Config n))
        → b.pod_uid ≡ i.uid
        → b.generation ≡ requested.generation
        → Holds (λ c. ValidConfig c b.pod_uid b.generation) r
        → Triple P (lift r) (λ c t. Granted i requested (b, c) × P t) (λ _. P)
    config-Granted i requested b (ok c) u g (v, cu, cg) =
        Triple-lift _ (λ t h. ((u, g, (v, cu ∙ u, cg ∙ g)), h))
    config-Granted i requested b (err e) u g v = Triple-lift _ (λ t h. h)

    pub authority-Granted :
        (i : PodIdentity) (requested : Binding)
        → Triple P (authority s i requested) (λ x t. Granted i requested x × P t) (λ _. P)
    unfolding authority
    authority-Granted i requested = Triple-bind {Q = λ _. P} _ _ (lift-stable _) λ _.
        Triple-bind _ _ (pod_of-Found i) λ pod. Triple-known _ λ exact.
          Triple-bind _ _ (binding_of-Found pod) λ b. Triple-known _ λ found.
            Triple-bind-lift _ _ (λ e _ t h. h)
              λ u current.
                Triple-bind _ _
                  (config-Granted i requested b (config_from_binding s b) (found ∙ exact)
                    (binding_eq-generation b requested (not-not _ (reject_if-ok _ _ u current)))
                    (config_from_binding-ValidConfig b))
                  λ c. Triple-pure (b, c) (λ t h. h)
