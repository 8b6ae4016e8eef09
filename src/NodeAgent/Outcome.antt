-- ===== src/NodeAgent/Outcome.antt =====
-- `Prepare` and `Check` of internal/nodeagent/service.go: how they end, whatever their environment
-- does.
use waycloak.Prelude.{ℕ, true, false, ◌≡◌, refl, ◌⊎◌, inl, inr}
use waycloak.Exec.{Err, Result, ok, err, attempt}
use waycloak.Exec.Triple.{
  Post, Triple, Triple-fail, Triple-if, Triple-bind, Triple-attempt, Triple-call, Triple-known,
  Triple-own_state, Triple-weaken,
}
use waycloak.Cni.Types.{PodIdentity, Binding, Attachment}
use waycloak.Dataplane.{Netip, Config}
use waycloak.NodeAgent.Types.{WorkloadBinding, Service, State, Run}
use waycloak.NodeAgent.Lookup.{authority, is_ready}
use waycloak.NodeAgent.Program.{
  call_lockdown, prepare_pod, prepare, authorized_check, check_pod, check,
}
use waycloak.NodeAgent.Guard.{Verified, Guarded, configures, LockdownAsked, Shown}
use waycloak.NodeAgent.Authority.{ReadStable, Granted, authority-Granted}
use waycloak.NodeAgent.Path.{
  Fresh, Done, Refused, Rejected, call_lockdown-LockTried, locked_prepare-Done, drifted-Done,
  call_verify-Looked,
}

module _ {n : Netip} {W : Type 0} (s : Service n W) (K : Attachment → Type 0) where
  module _ (i : PodIdentity) (requested : Binding) (o : State) (k : ℕ) where
    Fresh-ReadStable : ReadStable s (Fresh s K i requested o k)
    Fresh-ReadStable = record { at_pod = λ ns name r w t h. h; at_binding = λ ns name r w t h. h }

    authority-Fresh :
        Triple
          (Fresh s K i requested o k)
          (authority s i requested)
          (λ x t. Granted s i requested x × (Fresh s K i requested o k) t)
          (λ _. (Fresh s K i requested o k))
    authority-Fresh = authority-Granted s Fresh-ReadStable i requested

    pub prepare_pod-Done :
        Triple
          (Fresh s K i requested o k)
          (prepare_pod s i requested)
          (Done s K i requested o k)
          (Refused s K i requested o k)
    unfolding prepare_pod
    prepare_pod-Done =
        Triple-bind _ _
          (Triple-weaken _ authority-Fresh (λ t h. h) (λ a t h. h) (λ e t h. (h.0, inl h.1)))
          λ (b, c). Triple-known _ λ granted.
            Triple-bind _ _ (call_lockdown-LockTried s K i requested o k b c granted)
              (locked_prepare-Done s K i requested o k b c granted)

    -- What `authority` answered to `check`.
    abbrev Answered : Result (WorkloadBinding × Config n) → Run n W → Type 0
    Answered (ok x) t = Granted s i requested x × (Fresh s K i requested o k) t
    Answered (err e) t = (Fresh s K i requested o k) t

    call_lockdown-Rejected :
        {E : Err → Run n W → Type 0}
        → Triple
            (Fresh s K i requested o k)
            (attempt (call_lockdown s i))
            (λ _ t. Guarded K t.log × LockdownAsked i.net_ns i.uid t.log × (t.own ≡ o))
            E
    unfolding call_lockdown
    call_lockdown-Rejected = Triple-attempt _ (
        Triple-call _ _ (λ a w t h. (h.0, (refl, refl), h.1.0))
          (λ e w t h. (h.0, (refl, refl), h.1.0)))

    authorized_check-Done :
        (r : Result (WorkloadBinding × Config n))
        → Triple
            (Answered r)
            (authorized_check s i r)
            (Done s K i requested o k)
            (Rejected s K i requested o k)
    unfolding authorized_check
    authorized_check-Done (err e) =
        Triple-bind _ _ call_lockdown-Rejected λ _. Triple-fail e (λ t h. (h.0, h.1, inl h.2))
    authorized_check-Done (ok (b, c)) = Triple-known _ λ granted.
        Triple-weaken _
          (Triple-bind _ _ (call_verify-Looked s K i requested o k b c granted)
            (drifted-Done s K i requested o k b c granted))
          (λ t h. h) (λ a t h. h) (λ x t h. (h.0, h.1.0, inr h.1.1))

    pub check_pod-Done :
        Triple
          (Fresh s K i requested o k)
          (check_pod s i requested)
          (Done s K i requested o k)
          (Rejected s K i requested o k)
    unfolding check_pod
    check_pod-Done =
        Triple-bind _ _
          (Triple-attempt _ (Triple-weaken _ authority-Fresh (λ t h. h) (λ a t h. h) (λ e t h. h)))
          authorized_check-Done

    pub prepare-Done :
        Triple
          (Fresh s K i requested o k)
          (prepare s i requested)
          (Done s K i requested o k)
          (Refused s K i requested o k)
    unfolding prepare
    prepare-Done =
        Triple-bind {Q = λ _. (Fresh s K i requested o k)} _ _ (Triple-own_state (λ t h. h)) λ own.
          Triple-if (is_ready s own) _ _ (λ _. prepare_pod-Done)
            (λ _. Triple-fail _ (λ t h. (h.0, inl h.1)))

    pub check-Done :
        Triple
          (Fresh s K i requested o k)
          (check s i requested)
          (Done s K i requested o k)
          (Rejected s K i requested o k)
    unfolding check
    check-Done =
        Triple-bind {Q = λ _. (Fresh s K i requested o k)} _ _ (Triple-own_state (λ t h. h)) λ own.
          Triple-if (is_ready s own) _ _ (λ _. check_pod-Done)
            (λ _.
              Triple-bind _ _ call_lockdown-Rejected
                λ _. Triple-fail _ (λ t h. (h.0, h.1, inl h.2)))

-- How Prepare ends on a log that is guarded for some attachments, whatever its environment does. It succeeds only when its last
-- call verified, in the Pod's namespace, a configuration of the Pod at the requested generation, and
-- the service then holds a ready observation of it. It fails with the state of the service as it was
-- and nothing configured, or with the Pod's lockdown asked for last (whose answer
-- is discarded), or a configuration refused right
-- after the lockdown, and an observation of the Pod that is not ready.
pub prepare_outcome :
    {n : Netip} {W : Type 0} (s : Service n W) (i : PodIdentity) (requested : Binding) (t : Run n W)
    (K : Attachment → Type 0)
    → Guarded K t.log
    → Post
        (λ _ u.
          Verified i.net_ns i.uid requested.generation u.log
          × Shown i.uid requested.generation true u.own)
        (λ _ u.
          ((u.own ≡ t.own) × (configures u.log ≡ configures t.log))
          ⊎ (LockdownAsked i.net_ns i.uid u.log × Shown i.uid requested.generation false u.own))
        (prepare s i requested t).0
        (prepare s i requested t).1
prepare_outcome s i requested t K h =
    (Triple-weaken (prepare s i requested) (prepare-Done s K i requested t.own (configures t.log))
        (λ u g. g) (λ a u g. g.1) (λ e u g. g.1)).at
      t (h, (refl, refl))

-- How Check ends on a log that is guarded for some attachments, whatever its environment does. It succeeds only when its last
-- call verified, in the Pod's namespace, a configuration of the Pod at the requested generation, and
-- the service then holds a ready observation of it. However it fails, the Pod's lockdown was asked
-- for last (whose answer is discarded), or a configuration was refused right after the lockdown; and the state of the service is
-- as it was, or holds an observation of the Pod that is not ready.
pub check_outcome :
    {n : Netip} {W : Type 0} (s : Service n W) (i : PodIdentity) (requested : Binding) (t : Run n W)
    (K : Attachment → Type 0)
    → Guarded K t.log
    → Post
        (λ _ u.
          Verified i.net_ns i.uid requested.generation u.log
          × Shown i.uid requested.generation true u.own)
        (λ _ u.
          LockdownAsked i.net_ns i.uid u.log
          × ((u.own ≡ t.own) ⊎ Shown i.uid requested.generation false u.own))
        (check s i requested t).0
        (check s i requested t).1
check_outcome s i requested t K h =
    (Triple-weaken (check s i requested) (check-Done s K i requested t.own (configures t.log))
        (λ u g. g) (λ a u g. g.1) (λ e u g. (g.1, g.2))).at
      t (h, (refl, refl))
