-- ===== src/NodeAgent/Guarding.antt =====
-- The simple steps of internal/nodeagent/service.go and the guarded log.
use waycloak.Prelude.{
  String, Bool, true, false, not, ◌||◌, List, [], ◌∷◌, ◌≡◌, refl, Option, none, some,
}
use waycloak.Exec.{Err, Result, ok, err, Exec, lift, pure, ◌>>=◌}
use waycloak.Exec.Triple.{
  Triple, Triple-pure, Triple-lift, Triple-if, Triple-bind, Triple-attempt, Triple-call,
  Triple-own_state, Triple-set_own, Triple-weaken,
}
use waycloak.Cni.Types.{PodIdentity, Attachment}
use waycloak.Dataplane.{Netip}
use waycloak.NodeAgent.Types.{Pod, WorkloadBinding, Service, Call, Run}
use waycloak.NodeAgent.Lookup.{
  pod_of, raw_binding, binding_of, record_observation, observe_not_ready, forget_observation,
}
use waycloak.NodeAgent.Withdraw.{
  is_exact, unobserved, call_identity, lock_attachment, call_list_all, observe_found,
  lockdown_answered, lockdown_identified, lockdown_one, lockdown_loop, is_foreign_binding,
  observe_bindings, observe_listed, lockdown_bindings, lockdown_all,
}
use waycloak.NodeAgent.Guard.{is_shutting}
use waycloak.NodeAgent.Authority.{ReadStable, raw_binding-Found, pod_of-Found, binding_of-Found}
use waycloak.NodeAgent.Path.{record_observation-Shown}

-- A predicate on the log that reads and lockdowns keep.
module _ {n : Netip} (L : List (Call n) → Type 0) where
  abbrev pub ShutStable : Type 0
  ShutStable = (c : Call n) (log : List (Call n)) → is_shutting c ≡ true → L log → L (c ∷ log)

  abbrev pub Keeps : {W A : Type 0} → Exec (Run n W) A → Type 0
  Keeps {W} {A} m = Triple {A = A} (λ t. L t.log) m (λ _ t. L t.log) (λ _ t. L t.log)

  pub lift-Keeps : {W A : Type 0} (r : Result A) → Keeps (lift {S = Run n W} r)
  lift-Keeps (ok a) = Triple-lift _ (λ t h. h)
  lift-Keeps (err e) = Triple-lift _ (λ t h. h)

module _ {n : Netip} {W : Type 0} (s : Service n W) (L : List (Call n) → Type 0)
    (stable : ShutStable L) where
  log-ReadStable : ReadStable s (λ t. L t.log)
  log-ReadStable = record {
    at_pod = λ ns name r w t h. stable _ _ refl h;
    at_binding = λ ns name r w t h. stable _ _ refl h;
  }

  pub raw_binding-Keeps : (namespace uid : String) → Keeps L (raw_binding s namespace uid)
  raw_binding-Keeps namespace uid =
      Triple-weaken _ (raw_binding-Found s log-ReadStable namespace uid) (λ t h. h) (λ b t h. h.1)
        (λ e t h. h)

  pub pod_of-Keeps : (i : PodIdentity) → Keeps L (pod_of s i)
  pod_of-Keeps i =
      Triple-weaken _ (pod_of-Found s log-ReadStable i) (λ t h. h) (λ b t h. h.1) (λ e t h. h)

  pub binding_of-Keeps : (pod : Pod) → Keeps L (binding_of s pod)
  binding_of-Keeps pod =
      Triple-weaken _ (binding_of-Found s log-ReadStable pod) (λ t h. h) (λ b t h. h.1) (λ e t h. h)

  pub record_observation-Keeps :
      (b : WorkloadBinding) (ready : Bool) → Keeps L (record_observation s b ready)
  record_observation-Keeps b ready =
      Triple-weaken _ (record_observation-Shown s L b ready) (λ t h. h) (λ o t h. h.0) (λ e t h. h)

  pub observe_not_ready-Keeps :
      (namespace uid : String) → Keeps L (observe_not_ready s namespace uid)
  unfolding observe_not_ready
  observe_not_ready-Keeps namespace uid =
      Triple-bind {Q = λ _ t. L t.log} _ _ (Triple-attempt _ (raw_binding-Keeps namespace uid))
        observed
    where
      observed :
          (found : Result WorkloadBinding)
          → Keeps L (elim found [
            | ok b ↦ record_observation s b false >>= λ _. pure tt
            | err e ↦ pure tt
          ])
      observed (ok b) =
          Triple-bind {Q = λ _ t. L t.log} _ _ (record_observation-Keeps b false)
            λ _. Triple-pure _ (λ t h. h)
      observed (err e) = Triple-pure _ (λ t h. h)

  pub forget_observation-Keeps : (uid : String) → Keeps L (forget_observation s uid)
  unfolding forget_observation
  forget_observation-Keeps uid =
      Triple-bind {Q = λ _ t. L t.log} _ _ (Triple-own_state (λ t h. h))
        λ own. Triple-set_own _ (λ t h. h)

  pub call_list_all-Keeps : Keeps L (call_list_all s)
  unfolding call_list_all
  call_list_all-Keeps =
      Triple-call _ _ (λ x w t h. stable _ _ refl h) (λ e w t h. stable _ _ refl h)

  pub lock_attachment-Keeps : (a : Attachment) → Keeps L (lock_attachment s a)
  unfolding lock_attachment
  lock_attachment-Keeps a =
      Triple-call _ _ (λ x w t h. stable _ _ refl h) (λ e w t h. stable _ _ refl h)

  observe_found-Keeps : (found : Result WorkloadBinding) → Keeps L (observe_found s found)
  unfolding observe_found
  observe_found-Keeps (ok b) =
      Triple-bind {Q = λ _ t. L t.log} _ _ (record_observation-Keeps b false)
        λ _. Triple-pure _ (λ t h. h)
  observe_found-Keeps (err e) = Triple-pure _ (λ t h. h)

  lockdown_answered-Keeps :
      (a : Attachment) (r : Result (Unit {0})) → Keeps L (lockdown_answered s a r)
  unfolding lockdown_answered
  lockdown_answered-Keeps a (err e) = Triple-pure _ (λ t h. h)
  lockdown_answered-Keeps a (ok _) =
      Triple-bind {Q = λ _ t. L t.log} _ _ (Triple-attempt _ (raw_binding-Keeps _ _)) λ found.
        Triple-bind {Q = λ _ t. L t.log} _ _ (observe_found-Keeps found)
          λ _. Triple-pure _ (λ t h. h)

  lockdown_identified-Keeps :
      (a : Attachment) (found : Result String) (o : Option Err)
      → Keeps L (lockdown_identified s a found o)
  unfolding lockdown_identified
  lockdown_identified-Keeps a found (some e) = Triple-pure _ (λ t h. h)
  lockdown_identified-Keeps a found none =
      Triple-if (not (is_exact a found)) _ _ (λ _. Triple-pure _ (λ t h. h))
        (λ _.
          Triple-bind {Q = λ _ t. L t.log} _ _ (Triple-attempt _ (lock_attachment-Keeps a))
            (lockdown_answered-Keeps a))

  lockdown_loop-Keeps : (attachments : List Attachment) → Keeps L (lockdown_loop s attachments)
  unfolding lockdown_loop lockdown_one call_identity
  lockdown_loop-Keeps [] = Triple-pure _ (λ t h. h)
  lockdown_loop-Keeps (a ∷ rest) =
      Triple-bind {Q = λ _ t. L t.log} _ _
        (Triple-bind {Q = λ _ t. L t.log} _ _
          (Triple-attempt _
            (Triple-call _ _ (λ x w t h. stable _ _ refl h) (λ e w t h. stable _ _ refl h)))
          λ found. lockdown_identified-Keeps a found (unobserved found))
        λ errs.
          Triple-bind {Q = λ _ t. L t.log} _ _ (lockdown_loop-Keeps rest)
            λ more. Triple-pure _ (λ t h. h)

  observe_bindings-Keeps : (bs : List WorkloadBinding) → Keeps L (observe_bindings s bs)
  unfolding observe_bindings
  observe_bindings-Keeps [] = Triple-pure _ (λ t h. h)
  observe_bindings-Keeps (b ∷ rest) =
      Triple-if (is_foreign_binding s b) _ _ (λ _. observe_bindings-Keeps rest)
        (λ _.
          Triple-bind {Q = λ _ t. L t.log} _ _ (record_observation-Keeps b false)
            λ _. observe_bindings-Keeps rest)

  observe_listed-Keeps : (r : Result (List WorkloadBinding)) → Keeps L (observe_listed s r)
  unfolding observe_listed
  observe_listed-Keeps (err e) = Triple-pure _ (λ t h. h)
  observe_listed-Keeps (ok bs) =
      Triple-bind {Q = λ _ t. L t.log} _ _ (observe_bindings-Keeps bs) λ _. Triple-pure _ (λ t h. h)

  lockdown_bindings-Keeps : Keeps L (lockdown_bindings s)
  unfolding lockdown_bindings
  lockdown_bindings-Keeps =
      Triple-if (not (s.binding_reader_set || s.reader_set)) _ _ (λ _. Triple-pure _ (λ t h. h))
        (λ _.
          Triple-bind {Q = λ _ t. L t.log} _ _
            (Triple-attempt _
              (Triple-call _ _ (λ x w t h. stable _ _ refl h) (λ e w t h. stable _ _ refl h)))
            observe_listed-Keeps)

  pub lockdown_all-Keeps : Keeps L (lockdown_all s)
  unfolding lockdown_all
  lockdown_all-Keeps = Triple-bind {Q = λ _ t. L t.log} _ _ call_list_all-Keeps λ attachments.
      Triple-bind {Q = λ _ t. L t.log} _ _ (lockdown_loop-Keeps attachments)
        λ errs. Triple-bind {Q = λ _ t. L t.log} _ _ lockdown_bindings-Keeps λ more. lift-Keeps L _
