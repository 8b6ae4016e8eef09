-- ===== src/NodeAgent/Steps.antt =====
-- The exported methods of internal/nodeagent/service.go as the steps that a service makes.
use waycloak.Prelude.{In, In-All, ◌⊎◌, inl, inr, ℕ, Bool, true, false, List, ◌≡◌, refl}
use waycloak.Exec.{Exec, ok, ◌>>=◌, own_state, set_own, read}
use waycloak.Exec.Triple.{
  Triple, Post-both, Triple-pure, Triple-fail, Triple-bind, Triple-attempt, Triple-if, Triple-call,
  Triple-own_state, Triple-weaken,
}
use waycloak.Cni.Types.{PodIdentity, Binding, Attachment}
use waycloak.Dataplane.{Netip}
use waycloak.NodeAgent.Types.{State, Service, Call, Run}
use waycloak.NodeAgent.Lookup.{
  is_ready, resolve_pod, resolve_binding, set_relay_healthy, set_backend_healthy, report,
}
use waycloak.NodeAgent.Program.{call_lockdown, prepare, check}
use waycloak.NodeAgent.Withdraw.{lockdown_all, withdraw}
use waycloak.NodeAgent.Reconcile.{reconcile_all}
use waycloak.NodeAgent.Guard.{Guarded, Guarded-mono, openings}
use waycloak.NodeAgent.Guarding.{
  Keeps, ShutStable, lift-Keeps, pod_of-Keeps, binding_of-Keeps, lockdown_all-Keeps,
}
use waycloak.NodeAgent.Departure.{Guarded-ShutStable, withdraw-Keeps, Lists}
use waycloak.NodeAgent.Reconciled.{reconcile_all-Keeps}
use waycloak.NodeAgent.Outcome.{prepare-Done, check-Done}

module _ {n : Netip} {W : Type 0} (s : Service n W) where
  -- One method runs from start to end, or the world changes beside the service.
  pub data Step : Run n W → Run n W → Type 0 where
    around : (t : Run n W) (w : W) → Step t (record t { world = w })
    resolving : (t : Run n W) (i : PodIdentity) → Step t (resolve_pod s i t).1
    binding : (t : Run n W) (i : PodIdentity) → Step t (resolve_binding s i t).1
    preparing : (t : Run n W) (i : PodIdentity) (b : Binding) → Step t (prepare s i b t).1
    checking : (t : Run n W) (i : PodIdentity) (b : Binding) → Step t (check s i b t).1
    withdrawing : (t : Run n W) (i : PodIdentity) → Step t (withdraw s i t).1
    locking : (t : Run n W) → Step t (lockdown_all s t).1
    reconciling : (t : Run n W) → Step t (reconcile_all s t).1
    reporting : (t : Run n W) → Step t (report s t).1
    relaying : (t : Run n W) (healthy : Bool) → Step t (set_relay_healthy s healthy t).1
    backing : (t : Run n W) (healthy : Bool) → Step t (set_backend_healthy s healthy t).1

  abbrev pub ListedAt : W → Attachment → Type 0
  ListedAt w a =
      (attachments : List Attachment) × ((s.list_all w).0 ≡ ok attachments) × In a attachments

  -- The attachments that the store lists in the world in which a Withdraw or a ReconcileAll starts.
  abbrev pub ListedBy : {t u : Run n W} → Step t u → Attachment → Type 0
  ListedBy (withdrawing t i) a = ListedAt t.world a
  ListedBy (reconciling t) a = ListedAt t.world a
  ListedBy _ a = ⊥

  pub data Reach (t : Run n W) : Run n W → Type 0 where
    here : Reach t t
    next : {u v : Run n W} → Reach t u → Step u v → Reach t v

  -- The store listed this attachment in the world in which a Withdraw or a ReconcileAll of the sequence
  -- started, or it is one of `Before`.
  abbrev pub ListedIn :
      (Before : Attachment → Type 0) {t u : Run n W} → Reach t u → Attachment → Type 0
  ListedIn Before here a = Before a
  ListedIn Before (next r e) a = ListedIn Before r a ⊎ ListedBy e a

  pub at_end :
      {A : Type 0} (L : List (Call n) → Type 0) (m : Exec (Run n W) A) (t : Run n W)
      → Keeps L m
      → L t.log
      → L (m t).1.log
  at_end {A} L m t k h =
      Post-both {S = Run n W} {A = A} (λ _ u. L u.log) (λ _ u. L u.log) (λ u. L u.log) (m t).0
        (m t).1 (λ a g. g) (λ e g. g) (k.at t h)

  module _ (K : Attachment → Type 0) where
    after :
        (m : Exec (Run n W) (Unit {0})) (t : Run n W)
        → Triple
            (λ u. Lists K s u.world × Guarded K u.log)
            m
            (λ _ u. Guarded K u.log)
            (λ _ u. Guarded K u.log)
        → Lists K s t.world
        → Guarded K t.log
        → Guarded K (m t).1.log
    after m t k l h =
        Post-both {S = Run n W} {A = Unit {0}} (λ _ u. Guarded K u.log) (λ _ u. Guarded K u.log)
          (λ u. Guarded K u.log) (m t).0 (m t).1 (λ a g. g) (λ e g. g) (k.at t (l, h))

    resolve_pod-Keeps : (i : PodIdentity) → Keeps (Guarded K) (resolve_pod s i)
    unfolding resolve_pod
    resolve_pod-Keeps i =
        Triple-bind {Q = λ _ t. Guarded K t.log} _ _
          (pod_of-Keeps s (Guarded K) (Guarded-ShutStable K) i) λ pod. Triple-pure _ (λ t h. h)

    resolve_binding-Keeps : (i : PodIdentity) → Keeps (Guarded K) (resolve_binding s i)
    unfolding resolve_binding
    resolve_binding-Keeps i =
        Triple-bind {Q = λ _ t. Guarded K t.log} _ _
          (pod_of-Keeps s (Guarded K) (Guarded-ShutStable K) i)
          λ pod. Triple-bind {Q = λ _ t. Guarded K t.log} _ _ (lift-Keeps (Guarded K) _) λ _.
            Triple-bind {Q = λ _ t. Guarded K t.log} _ _
              (binding_of-Keeps s (Guarded K) (Guarded-ShutStable K) pod)
              λ b. Triple-pure _ (λ t h. h)

    prepare-Keeps : (i : PodIdentity) (b : Binding) → Keeps (Guarded K) (prepare s i b)
    prepare-Keeps i b = record {
      at = λ t h.
          (Triple-weaken _ (prepare-Done s K i b t.own _) (λ u g. g) (λ a u g. g.0)
              (λ e u g. g.0)).at
            t (h, (refl, refl));
    }

    check-Keeps : (i : PodIdentity) (b : Binding) → Keeps (Guarded K) (check s i b)
    check-Keeps i b = record {
      at = λ t h.
          (Triple-weaken _ (check-Done s K i b t.own _) (λ u g. g) (λ a u g. g.0) (λ e u g. g.0)).at
            t (h, (refl, refl));
    }

    set_healthy-log :
        (healthy : Bool) (t : Run n W)
        → ((set_relay_healthy s healthy t).1.log ≡ t.log)
          × ((set_backend_healthy s healthy t).1.log ≡ t.log)
          × ((report s t).1.log ≡ t.log)
    unfolding set_relay_healthy set_backend_healthy report ◌>>=◌ own_state set_own read
    set_healthy-log healthy t = (refl, refl, refl)

    Step-Guarded :
        {t u : Run n W} (e : Step t u)
        → ((a : Attachment) → ListedBy e a → K a)
        → Guarded K t.log
        → Guarded K u.log
    Step-Guarded (around t w) f h = h
    Step-Guarded (resolving t i) f h =
        at_end (Guarded K) (resolve_pod s i) t (resolve_pod-Keeps i) h
    Step-Guarded (binding t i) f h =
        at_end (Guarded K) (resolve_binding s i) t (resolve_binding-Keeps i) h
    Step-Guarded (preparing t i b) f h = at_end (Guarded K) (prepare s i b) t (prepare-Keeps i b) h
    Step-Guarded (checking t i b) f h = at_end (Guarded K) (check s i b) t (check-Keeps i b) h
    Step-Guarded (withdrawing t i) f h =
        after (withdraw s i) t (withdraw-Keeps K s i) (λ xs e. In-All K xs (λ a m. f a (xs, e, m)))
          h
    Step-Guarded (locking t) f h =
        at_end (Guarded K) (lockdown_all s) t
          (lockdown_all-Keeps s (Guarded K) (Guarded-ShutStable K)) h
    Step-Guarded (reconciling t) f h =
        after (reconcile_all s) t (reconcile_all-Keeps s K)
          (λ xs e. In-All K xs (λ a m. f a (xs, e, m))) h
    Step-Guarded (reporting t) f h = rw (set_healthy-log true t).2 h
    Step-Guarded (relaying t healthy) f h = rw (set_healthy-log healthy t).0 h
    Step-Guarded (backing t healthy) f h = rw (set_healthy-log healthy t).1 h

-- Every log that a service reaches from a guarded one, by its methods one after the other and
-- whatever the world does meanwhile, is guarded. A path is configured only right after the lockdown
-- of that Pod in that namespace, and only with a valid configuration of that Pod. A namespace is
-- cleaned only for an attachment that the store listed when a Withdraw or a ReconcileAll of the
-- sequence started (or of which the first log says so), only once the reader answered that its Pod is
-- absent, replaced or terminating, and only if the namespace was identified as that of this
-- attachment. A record is saved only right after its path was verified at the recorded generation, and deleted only after a successful verification, an accepted
-- withdrawal, or the answer that there is no binding. Nothing is published as ready.
pub reachable-Guarded :
    {n : Netip} {W : Type 0} (s : Service n W) (t u : Run n W) (Before : Attachment → Type 0)
    (r : Reach s t u)
    → Guarded Before t.log
    → Guarded (ListedIn s Before r) u.log
reachable-Guarded s t _ Before here h = h
reachable-Guarded s t u Before (next {u = v} r e) h =
    Step-Guarded s (ListedIn s Before (next r e)) e (λ a l. inr l)
      (Guarded-mono (λ a k. inl k) v.log (reachable-Guarded s t v Before r h))

module _ {n : Netip} {W : Type 0} (s : Service n W) (k : ℕ) where
  abbrev Closed : List (Call n) → Type 0
  Closed log = openings log ≡ k

  Closed-ShutStable : ShutStable Closed
  Closed-ShutStable c log e h = rw e h

  module _ (held : s.transition_held ≡ true) where
    held-unready : (own : State) → is_ready s own ≡ false
    unfolding is_ready
    held-unready own = rw held refl

    prepare-Closed : (i : PodIdentity) (b : Binding) → Keeps Closed (prepare s i b)
    unfolding prepare
    prepare-Closed i b =
        Triple-bind {Q = λ _ t. Closed t.log} _ _ (Triple-own_state (λ t h. h))
          λ own. rw (held-unready own) (Triple-fail _ (λ t h. h))

    check-Closed : (i : PodIdentity) (b : Binding) → Keeps Closed (check s i b)
    unfolding check call_lockdown
    check-Closed i b =
        Triple-bind {Q = λ _ t. Closed t.log} _ _ (Triple-own_state (λ t h. h)) λ own.
          rw (held-unready own) (
            Triple-bind {Q = λ _ t. Closed t.log} _ _
              (Triple-attempt _ (Triple-call _ _ (λ x w t h. h) (λ x w t h. h)))
              λ _. Triple-fail _ (λ t h. h))

    reconcile_all-Closed : Keeps Closed (reconcile_all s)
    unfolding reconcile_all
    reconcile_all-Closed =
        Triple-if s.transition_held _ _ (λ _. lockdown_all-Keeps s Closed Closed-ShutStable)
          (λ e. absurd cc)

-- While a release transition is held, Prepare, Check, LockdownAll and ReconcileAll configure, verify
-- and clean no path, save and delete no record, and publish nothing: they only read and lock down.
pub held-openings :
    {n : Netip} {W : Type 0} (s : Service n W) (i : PodIdentity) (b : Binding) (t : Run n W)
    → s.transition_held ≡ true
    → (openings (prepare s i b t).1.log ≡ openings t.log)
      × (openings (check s i b t).1.log ≡ openings t.log)
      × (openings (lockdown_all s t).1.log ≡ openings t.log)
      × (openings (reconcile_all s t).1.log ≡ openings t.log)
held-openings s i b t held =
    let k = openings t.log in
    (
      at_end s (Closed s k) (prepare s i b) t (prepare-Closed s k held i b) refl,
      at_end s (Closed s k) (check s i b) t (check-Closed s k held i b) refl,
      at_end s (Closed s k) (lockdown_all s) t
          (lockdown_all-Keeps s (Closed s k) (Closed-ShutStable s k)) refl,
      at_end s (Closed s k) (reconcile_all s) t (reconcile_all-Closed s k held) refl,
    )
