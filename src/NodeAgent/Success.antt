-- ===== src/NodeAgent/Success.antt =====
-- `Prepare` of internal/nodeagent/service.go succeeds where nothing stands against it.
use waycloak.Prelude.{String, Bool, true, false, ◌==◌, eq_iff, ◌||◌, not, ◌≡◌, refl, arith}
use waycloak.Exec.{Err, Result, ok, err, reject_if, Exec, lift, attempt, ◌>>=◌, call, own_state}
use waycloak.Exec.Triple.{
  Triple, Triple-pure, Triple-lift, Triple-bind, Triple-attempt, Triple-weaken, Post,
}
use waycloak.Cni.Types.{PodIdentity, Binding, validate_pod, validate_binding, binding_eq}
use waycloak.Dataplane.{Netip, Config}
use waycloak.NodeAgent.Types.{Pod, WorkloadBinding, Service, Call, Run}
use waycloak.NodeAgent.Lookup.{
  valid_identity, looked_up, present_binding, pod_of, raw_binding, binding_of, binding_object,
  binding_reference, config_from_binding, authority, is_ready,
}
use waycloak.NodeAgent.Program.{
  call_lockdown, call_configure, call_verify, when_verified, when_configured, locked_prepare,
  observe_verified, prepare_pod, prepare,
}
use waycloak.NodeAgent.Guard.{Shown}
use waycloak.NodeAgent.Path.{record_observation-Shown}

module _ {n : Netip} {W : Type 0} where
  -- The action does not fail.
  abbrev Surely : {A : Type 0} → Exec (Run n W) A → (A → Type 0) → Type 0
  Surely {A} m Q = Triple {A = A} (λ _. Unit {0}) m (λ a _. Q a) (λ _ _. ⊥)

  lift-Surely : {A : Type 0} (r : Result A) (a : A) → r ≡ ok a → Surely (lift r) (λ x. x ≡ a)
  lift-Surely (ok x) a e = Triple-lift _ (λ t h. cc)
  lift-Surely (err x) a e = cc

  -- A call that is always answered so.
  call-Surely :
      {A : Type 0} (c : Result A → Call n) (m : Exec W A) (a : A)
      → ((w : W) → (m w).0 ≡ ok a)
      → Surely (call c m) (λ x. x ≡ a)
  unfolding call
  call-Surely c m a e = record { at = λ t h. answered (m t.world).0 _ (e t.world) }
    where
      answered :
          {A : Type 0} {a : A} (r : Result A) (t : Run n W)
          → r ≡ ok a
          → Post (λ x (_ : Run n W). x ≡ a) (λ _ _. ⊥) r t
      answered (ok x) t q = cc
      answered (err x) t q = cc

  attempt-Surely :
      {A : Type 0} (m : Exec (Run n W) A) (a : A)
      → Surely m (λ x. x ≡ a)
      → Surely (attempt m) (λ r. r ≡ ok a)
  attempt-Surely m a t =
      Triple-attempt _ (Triple-weaken _ t (λ u h. h) (λ x u h. rw h refl) (λ e u h. absurd h))

  then-Surely :
      {A B : Type 0} {Q : B → Type 0} (m : Exec (Run n W) A) (a : A) (f : A → Exec (Run n W) B)
      → Surely m (λ x. x ≡ a)
      → Surely (f a) Q
      → Surely (m >>= f) Q
  then-Surely m a f tm tf = Triple-bind m f tm (λ x. record { at = λ t e. rw e (tf.at t tt) })

  reject-Surely : (b : Bool) (e : Err) → b ≡ false → Surely (lift (reject_if b e)) (λ x. x ≡ tt)
  reject-Surely true e h = cc
  reject-Surely false e h = Triple-lift _ (λ t g. refl)

module _ {n : Netip} {W : Type 0} (s : Service n W) (i : PodIdentity) (requested : Binding)
    (pod : Pod) (b : WorkloadBinding) (c : Config n) where
  -- The service is complete, and the readers always answer with a Pod and a binding that agree with
  -- the request and with each other.
  pub record Agreed : Type 0 where
    pub valid : validate_pod i ≡ ok tt
    pub current : validate_binding requested i.uid ≡ ok tt
    pub complete : (not s.reader_set || not s.programmer_set || s.node_name == "") ≡ false
    pub answers_pod : (w : W) → (s.get_pod i.namespace i.name w).0 ≡ ok pod
    pub same_uid : pod.uid ≡ i.uid
    pub local : pod.node_name ≡ s.node_name
    pub answers_binding :
        (w : W) → (s.get_binding pod.namespace (binding_object s pod.uid) w).0 ≡ ok b
    pub of_pod : b.pod_uid ≡ pod.uid
    pub in_force :
        (b.deleting
          || not (b.pod_name == pod.name)
          || not (b.node_name == s.node_name)
          || b.uid == "")
        ≡ false
    pub requests : binding_eq (binding_reference b) requested ≡ true
    pub configures : config_from_binding s b ≡ ok c

  -- The programmer accepts what it is asked for this Pod.
  pub record Accepting : Type 0 where
    pub locks : (w : W) → (s.install_lockdown i.net_ns i.uid w).0 ≡ ok tt
    pub configures : (w : W) → (s.configure i.net_ns c w).0 ≡ ok tt
    pub verifies : (w : W) → (s.verify i.net_ns c w).0 ≡ ok tt

  module _ (agreed : Agreed) where
    differs : (x y : String) → x ≡ y → not (x == y) ≡ false
    differs x y e = ground (arith, eq_iff x y)

    pod_of-Surely : Surely (pod_of s i) (λ x. x ≡ pod)
    unfolding pod_of valid_identity looked_up
    pod_of-Surely = then-Surely _ tt _ (lift-Surely _ tt (rw agreed.valid refl)) (
        then-Surely _ tt _ (reject-Surely _ _ agreed.complete) (
          then-Surely _ (ok pod) _ (attempt-Surely _ pod (call-Surely _ _ pod agreed.answers_pod)) (
            then-Surely _ pod _ (lift-Surely _ pod refl) (
              then-Surely _ tt _ (reject-Surely _ _ (differs pod.uid i.uid agreed.same_uid)) (
                then-Surely _ tt _
                  (reject-Surely _ _ (differs pod.node_name s.node_name agreed.local))
                  (Triple-pure pod (λ t h. refl)))))))

    raw_binding-Surely : Surely (raw_binding s pod.namespace pod.uid) (λ x. x ≡ b)
    unfolding raw_binding present_binding
    raw_binding-Surely =
        then-Surely _ (ok b) _ (attempt-Surely _ b (call-Surely _ _ b agreed.answers_binding)) (
          then-Surely _ b _ (lift-Surely _ b refl) (
            then-Surely _ tt _ (reject-Surely _ _ (differs b.pod_uid pod.uid agreed.of_pod))
              (Triple-pure b (λ t h. refl))))

    binding_of-Surely : Surely (binding_of s pod) (λ x. x ≡ b)
    unfolding binding_of
    binding_of-Surely =
        then-Surely _ b _ raw_binding-Surely
          (then-Surely _ tt _ (reject-Surely _ _ agreed.in_force) (Triple-pure b (λ t h. refl)))

    authority-Surely : Surely (authority s i requested) (λ x. x ≡ (b, c))
    unfolding authority
    authority-Surely = then-Surely _ tt _ (lift-Surely _ tt agreed.current) (
        then-Surely _ pod _ pod_of-Surely (
          then-Surely _ b _ binding_of-Surely (
            then-Surely _ tt _ (reject-Surely _ _ (rw agreed.requests refl)) (
              then-Surely _ c _ (lift-Surely _ c agreed.configures)
                (Triple-pure (b, c) (λ t h. refl))))))

    module _ (accepting : Accepting) where
      -- The service observes the Pod as ready.
      abbrev Ready : Unit {0} → Run n W → Type 0
      Ready _ t = Shown b.pod_uid b.generation true t.own

      observe_verified-Ready :
          Triple (λ (t : Run n W). Unit {0}) (observe_verified s b) Ready (λ _ _. ⊥)
      unfolding observe_verified
      observe_verified-Ready =
          Triple-bind _ _ (record_observation-Shown s (λ _. Unit {0}) b true)
            λ o. Triple-pure _ (λ t h. h.2)

      then-Ready :
          {A : Type 0} (m : Exec (Run n W) A) (a : A) (f : A → Exec (Run n W) (Unit {0}))
          → Surely m (λ x. x ≡ a)
          → Triple (λ (t : Run n W). Unit {0}) (f a) Ready (λ _ _. ⊥)
          → Triple (λ (t : Run n W). Unit {0}) (m >>= f) Ready (λ _ _. ⊥)
      then-Ready m a f tm tf = Triple-bind m f tm (λ x. record { at = λ t e. rw e (tf.at t tt) })

      prepare_pod-Ready :
          Triple (λ (t : Run n W). Unit {0}) (prepare_pod s i requested) Ready (λ _ _. ⊥)
      unfolding prepare_pod locked_prepare when_configured when_verified call_lockdown
          call_configure call_verify
      prepare_pod-Ready =
          then-Ready _ (b, c) _ authority-Surely
            (then-Ready _ (ok tt) _ (attempt-Surely _ tt (call-Surely _ _ tt accepting.locks)) (
              then-Ready _ (ok tt) _ (attempt-Surely _ tt (call-Surely _ _ tt accepting.configures))
                (then-Ready _ (ok tt) _
                  (attempt-Surely _ tt (call-Surely _ _ tt accepting.verifies))
                  observe_verified-Ready)))

-- Where the service is ready, the readers answer with a Pod and a binding that agree with the request
-- and with each other, their configuration is valid, and the programmer accepts what it is asked for
-- the Pod, Prepare succeeds, and the service then observes the Pod as ready at the binding's
-- generation.
pub prepare_succeeds :
    {n : Netip} {W : Type 0} (s : Service n W) (i : PodIdentity) (requested : Binding) (pod : Pod)
    (b : WorkloadBinding) (c : Config n) (t : Run n W)
    → is_ready s t.own ≡ true
    → Agreed s i requested pod b c
    → Accepting s i requested pod b c
    → ((prepare s i requested t).0 ≡ ok tt)
      × Shown b.pod_uid b.generation true (prepare s i requested t).1.own
unfolding prepare ◌>>=◌ own_state
prepare_succeeds {n} {W} s i requested pod b c t ready agreed accepting = rw ready (
    succeeded (prepare_pod s i requested t).0 (prepare_pod s i requested t).1
      ((prepare_pod-Ready s i requested pod b c agreed accepting).at t tt))
  where
    succeeded :
        (r : Result (Unit {0})) (u : Run n W)
        → Post (λ _ (v : Run n W). Shown b.pod_uid b.generation true v.own) (λ _ _. ⊥) r u
        → (r ≡ ok tt) × Shown b.pod_uid b.generation true u.own
    succeeded (ok _) u h = (refl, h)
    succeeded (err e) u h = absurd h
