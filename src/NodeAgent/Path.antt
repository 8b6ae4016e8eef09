-- ===== src/NodeAgent/Path.antt =====
-- The steps of `prepare` and `check` in internal/nodeagent/service.go, once the binding is known.
use waycloak.Prelude.{ℕ, String, Bool, true, false, eq_refl, List, ◌≡◌, refl, some, ◌⊎◌, inl, inr}
use waycloak.Prelude.Assoc.{lookup, insert, lookup-insert}
use waycloak.Exec.{Err, Result, ok, err, attempt}
use waycloak.Exec.Triple.{
  Triple, Triple-pure, Triple-fail, Triple-bind, Triple-attempt, Triple-call, Triple-read,
  Triple-own_state, Triple-set_own, Triple-weaken,
}
use waycloak.Cni.Types.{PodIdentity, Binding, Attachment}
use waycloak.Dataplane.{Netip, Config, validate}
use waycloak.NodeAgent.Types.{WorkloadBinding, Service, Call, State, Run}
use waycloak.NodeAgent.Lookup.{record_observation}
use waycloak.NodeAgent.Program.{
  call_lockdown, call_configure, call_verify, observe_failed, lock_failed, observe_verified,
  when_verified, when_configured, locked_prepare, when_repaired, locked_check, drifted,
}
use waycloak.NodeAgent.Guard.{JustLocked, Verified, Guarded, configures, LockdownAsked, Shown}
use waycloak.NodeAgent.Authority.{Granted}

lookup-insert_same :
    {V : Type 0} (key : String) (value : V) (entries : List (String × V))
    → lookup key (insert key value entries) ≡ some value
lookup-insert_same key value entries =
    rw (lookup-insert key key value entries) (rw (eq_refl key) refl)

module _ {n : Netip} {W : Type 0} (s : Service n W) where
  -- An observation touches no log, and is the service's observation of its Pod from then on.
  pub record_observation-Shown :
      {E : Err → Run n W → Type 0} (L : List (Call n) → Type 0) (b : WorkloadBinding) (ready : Bool)
      → Triple
          (λ t. L t.log)
          (record_observation s b ready)
          (λ o t. L t.log × (o.ready ≡ ready) × Shown b.pod_uid b.generation ready t.own)
          E
  unfolding record_observation
  record_observation-Shown L b ready =
      Triple-bind {Q = λ _ t. L t.log} _ _ (Triple-read _ (λ now w t h. h)) λ now.
        Triple-bind {Q = λ _ t. L t.log} _ _ (Triple-own_state (λ t h. h)) λ own.
          Triple-bind {Q = λ _ t. L t.log × Shown b.pod_uid b.generation ready t.own} _ _
            (Triple-set_own _ (λ t h. (h, (_, lookup-insert_same _ _ _, refl, refl))))
            λ _. Triple-pure _ (λ t h. (h.0, refl, h.1))

module _ {n : Netip} {W : Type 0} (s : Service n W) (K : Attachment → Type 0) where
  module _ (i : PodIdentity) (requested : Binding) (o : State) (k : ℕ) where
    -- Nothing was configured, and the service is as it was.
    abbrev pub Untouched : Run n W → Type 0
    Untouched t = (t.own ≡ o) × (configures t.log ≡ k)

    abbrev pub Fresh : Run n W → Type 0
    Fresh t = Guarded K t.log × Untouched t

    abbrev pub Opened : Run n W → Type 0
    Opened t =
        Verified i.net_ns i.uid requested.generation t.log
        × Shown i.uid requested.generation true t.own

    abbrev pub Withheld : Run n W → Type 0
    Withheld t = LockdownAsked i.net_ns i.uid t.log × Shown i.uid requested.generation false t.own

    abbrev pub Done : Unit {0} → Run n W → Type 0
    Done _ t = Guarded K t.log × Opened t

    abbrev Closed : Err → Run n W → Type 0
    Closed _ t = Guarded K t.log × Withheld t

    -- How `prepare` fails: it has changed nothing, or the lockdown was asked for last and the Pod is
    -- observed as not ready.
    abbrev pub Refused : Err → Run n W → Type 0
    Refused _ t = Guarded K t.log × (Untouched t ⊎ Withheld t)

    -- How `check` fails: the lockdown was asked for last, and it changed nothing or the Pod is observed
    -- as not ready.
    abbrev pub Rejected : Err → Run n W → Type 0
    Rejected _ t =
        Guarded K t.log
        × LockdownAsked i.net_ns i.uid t.log
        × ((t.own ≡ o) ⊎ Shown i.uid requested.generation false t.own)

    module _ (b : WorkloadBinding) (c : Config n) (granted : Granted s i requested (b, c)) where
      shown :
          (ready : Bool) (t : State)
          → Shown b.pod_uid b.generation ready t
          → Shown i.uid requested.generation ready t
      shown ready t h = rw granted.0 at (rw granted.1 at h)

      abbrev Passed : List (Call n) → Type 0
      Passed log = Guarded K log × Verified i.net_ns i.uid requested.generation log

      observe_verified-Done : Triple (λ t. Passed t.log) (observe_verified s b) Done Closed
      unfolding observe_verified
      observe_verified-Done =
          Triple-bind _ _ (record_observation-Shown s Passed b true)
            λ x. Triple-pure _ (λ t h. (h.0.0, (h.0.1, shown true t.own h.2)))

      abbrev Held : List (Call n) → Type 0
      Held log = Guarded K log × LockdownAsked i.net_ns i.uid log

      observe_failed-Closed :
          {A : Type 0} {Q : A → Run n W → Type 0} (text : String) (e : Err)
          → Triple (λ t. Held t.log) (observe_failed s b text e) Q Closed
      unfolding observe_failed
      observe_failed-Closed text e =
          Triple-bind _ _ (record_observation-Shown s Held b false)
            λ x. Triple-fail _ (λ t h. (h.0.0, (h.0.1, shown false t.own h.2)))

      lock_failed-Closed :
          (text : String) (e : Err)
          → Triple (λ t. Guarded K t.log) (lock_failed s i b text e) Done Closed
      unfolding lock_failed call_lockdown
      lock_failed-Closed text e =
          Triple-bind {Q = λ _ t. Held t.log} _ _
            (Triple-attempt _
              (Triple-call _ _ (λ a w t h. (h, (refl, refl))) (λ x w t h. (h, (refl, refl)))))
            λ _. observe_failed-Closed text e

      -- After a VERIFY, whichever way it went.
      abbrev Tried : Result (Unit {0}) → Run n W → Type 0
      Tried (ok _) t = Passed t.log
      Tried (err _) t = Guarded K t.log

      when_verified-Done :
          (text : String) (r : Result (Unit {0}))
          → Triple (Tried r) (when_verified s i b text r) Done Closed
      unfolding when_verified
      when_verified-Done text (ok _) = observe_verified-Done
      when_verified-Done text (err e) = lock_failed-Closed text e

      call_verify-Tried :
          {E : Err → Run n W → Type 0}
          → Triple (λ t. Guarded K t.log) (attempt (call_verify s i c)) Tried E
      unfolding call_verify
      call_verify-Tried =
          Triple-attempt _
            (Triple-call _ _ (λ a w t h. (h, (refl, granted.2.1, granted.2.2))) (λ e w t h. h))

      -- After a CONFIGURE, right behind the lockdown.
      abbrev Configured : Result (Unit {0}) → Run n W → Type 0
      Configured (ok _) t = Guarded K t.log
      Configured (err _) t = Held t.log

      abbrev Locked : List (Call n) → Type 0
      Locked log = Guarded K log × JustLocked i.net_ns i.uid log

      call_configure-Configured :
          {E : Err → Run n W → Type 0}
          → Triple (λ t. Locked t.log) (attempt (call_configure s i c)) Configured E
      unfolding call_configure
      call_configure-Configured = Triple-attempt _ (
          Triple-call _ _ (λ a w t h. just_locked t.log h)
            (λ e w t h. (just_locked t.log h, (refl, h.1))))
        where
          just_locked :
              (log : List (Call n))
              → Locked log
              → (JustLocked i.net_ns c.pod_uid log × (validate n c ≡ ok tt)) × Guarded K log
          just_locked log h = (((rw granted.2.1 h.1), granted.2.0), h.0)

      when_configured-Done :
          (r : Result (Unit {0})) → Triple (Configured r) (when_configured s i b c r) Done Closed
      unfolding when_configured
      when_configured-Done (ok _) = Triple-bind _ _ call_verify-Tried λ r. when_verified-Done _ r
      when_configured-Done (err e) =
          Triple-weaken _ (lock_failed-Closed _ e) (λ t h. h.0) (λ a t h. h) (λ x t h. h)

      when_repaired-Done :
          (r : Result (Unit {0})) → Triple (Configured r) (when_repaired s i b c r) Done Closed
      unfolding when_repaired
      when_repaired-Done (ok _) = Triple-bind _ _ call_verify-Tried λ r. when_verified-Done _ r
      when_repaired-Done (err e) = observe_failed-Closed _ e

      -- After the lockdown: it is in force, or it was refused and nothing else happened.
      abbrev pub LockTried : Result (Unit {0}) → Run n W → Type 0
      LockTried (ok _) t = Locked t.log
      LockTried (err _) t = Held t.log × Untouched t

      pub call_lockdown-LockTried :
          {E : Err → Run n W → Type 0} → Triple Fresh (attempt (call_lockdown s i)) LockTried E
      unfolding call_lockdown
      call_lockdown-LockTried =
          Triple-attempt _ (
            Triple-call _ _ (λ a w t h. (h.0, (refl, refl)))
              (λ e w t h. ((h.0, (refl, refl)), h.1)))

      pub locked_prepare-Done :
          (r : Result (Unit {0})) → Triple (LockTried r) (locked_prepare s i b c r) Done Refused
      unfolding locked_prepare
      locked_prepare-Done (ok _) =
          Triple-weaken _ (Triple-bind _ _ call_configure-Configured when_configured-Done)
            (λ t h. h) (λ a t h. h) (λ e t h. (h.0, inr h.1))
      locked_prepare-Done (err e) = Triple-fail _ (λ t h. (h.0.0, inl h.1))

      locked_check-Done :
          (r : Result (Unit {0})) → Triple (LockTried r) (locked_check s i b c r) Done Closed
      unfolding locked_check
      locked_check-Done (ok _) = Triple-bind _ _ call_configure-Configured when_repaired-Done
      locked_check-Done (err e) =
          Triple-weaken _ (observe_failed-Closed _ e) (λ t h. h.0) (λ a t h. h) (λ x t h. h)

      -- After the first VERIFY of `check`.
      abbrev pub Looked : Result (Unit {0}) → Run n W → Type 0
      Looked (ok _) t = Passed t.log
      Looked (err _) t = Fresh t

      pub drifted-Done : (r : Result (Unit {0})) → Triple (Looked r) (drifted s i b c r) Done Closed
      unfolding drifted
      drifted-Done (ok _) = observe_verified-Done
      drifted-Done (err e) = Triple-bind _ _ call_lockdown-LockTried locked_check-Done

      pub call_verify-Looked :
          {E : Err → Run n W → Type 0} → Triple Fresh (attempt (call_verify s i c)) Looked E
      unfolding call_verify
      call_verify-Looked =
          Triple-attempt _
            (Triple-call _ _ (λ a w t h. (h.0, (refl, granted.2.1, granted.2.2))) (λ e w t h. h))
