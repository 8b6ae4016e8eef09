-- ===== src/Cni/Calls.antt =====
-- The interfaces that the plugin of internal/cni works on (types.go), and the calls made on them.
use waycloak.Prelude.{ℕ, String, Bool, true, false, ◌==◌, List, if◌then◌else◌}
use waycloak.Exec.{
  errors_is, wrap, Sentinel, not_exist, pod_not_found, Result, ok, err, Exec, Traced, perform,
}
use waycloak.Cni.Types.{PodIdentity, Resolution, Binding, Key, Attachment}

pub record Agent (W : Type 0) : Type 0 where
  pub resolve : PodIdentity → Exec W Resolution
  pub binding : PodIdentity → Exec W Binding
  pub prepare : PodIdentity → Binding → Exec W (Unit {0})
  pub check : PodIdentity → Binding → Exec W (Unit {0})
  pub withdraw : PodIdentity → Exec W (Unit {0})
  pub status : Exec W (Unit {0})

pub record Enforcer (W : Type 0) : Type 0 where
  pub identity : String → Exec W String
  pub install_lockdown : String → String → Exec W (Unit {0})
  pub cleanup : String → String → Exec W (Unit {0})

pub record Store (W : Type 0) : Type 0 where
  pub load : Key → Exec W Attachment
  pub save : Attachment → Exec W (Unit {0})
  pub delete : Key → Exec W (Unit {0})
  pub list : String → Exec W (List Attachment)

-- `*_set` says that the interface value is not nil. `context_done` is the `select` of `retryValue`:
-- whether the bounded context ended before the retry timer fired. Durations are nanoseconds.
pub record Plugin (W : Type 0) : Type 0 where
  pub agent : Agent W
  pub enforcer : Enforcer W
  pub store : Store W
  pub agent_set : Bool
  pub enforcer_set : Bool
  pub store_set : Bool
  pub resolve_timeout : ℕ
  pub binding_timeout : ℕ
  pub retry_interval : ℕ
  pub now : W → ℕ × W
  pub context_done : W → Bool × W

-- The calls on the three interfaces.
pub data Call : Type 0 where
  resolve : PodIdentity → Result Resolution → Call
  binding : PodIdentity → Result Binding → Call
  prepare : PodIdentity → Binding → Result (Unit {0}) → Call
  check : PodIdentity → Binding → Result (Unit {0}) → Call
  withdraw : PodIdentity → Result (Unit {0}) → Call
  status : Result (Unit {0}) → Call
  identity : String → Result String → Call
  install_lockdown : String → String → Result (Unit {0}) → Call
  cleanup : String → String → Result (Unit {0}) → Call
  load : Key → Result Attachment → Call
  save : Attachment → Result (Unit {0}) → Call
  delete : Key → Result (Unit {0}) → Call
  list : String → Result (List Attachment) → Call

abbrev pub is_sentinel_not_exist : Sentinel → Bool
is_sentinel_not_exist not_exist = true
is_sentinel_not_exist _ = false

abbrev pub is_sentinel_pod_not_found : Sentinel → Bool
is_sentinel_pod_not_found pod_not_found = true
is_sentinel_pod_not_found _ = false

-- `if e != nil && !errors.Is(e, target) { return fmt.Errorf("text: %w", e) }`
unfoldable pub unless_is : {A : Type 0} → (Sentinel → Bool) → String → Result A → Result (Unit {0})
unless_is target text (ok a) = ok tt
unless_is target text (err e) = if errors_is target e then ok tt else err (wrap text e)

-- `identityErr == nil && identity == expected`
abbrev pub is_identity : Result String → String → Bool
is_identity (ok found) expected = found == expected
is_identity (err e) expected = false

module _ {W : Type 0} (p : Plugin W) where
  -- The calls, as the plugin makes them.
  unfoldable pub call_identity : String → Exec (Traced W Call) String
  call_identity path = perform (identity path) (p.enforcer.identity path)

  unfoldable pub call_lockdown : String → String → Exec (Traced W Call) (Unit {0})
  call_lockdown path uid =
      perform (install_lockdown path uid) (p.enforcer.install_lockdown path uid)

  unfoldable pub call_cleanup : String → String → Exec (Traced W Call) (Unit {0})
  call_cleanup path uid = perform (cleanup path uid) (p.enforcer.cleanup path uid)

  unfoldable pub call_load : Key → Exec (Traced W Call) Attachment
  call_load k = perform (load k) (p.store.load k)

  unfoldable pub call_save : Attachment → Exec (Traced W Call) (Unit {0})
  call_save a = perform (save a) (p.store.save a)

  unfoldable pub call_delete : Key → Exec (Traced W Call) (Unit {0})
  call_delete k = perform (delete k) (p.store.delete k)

  unfoldable pub call_list : String → Exec (Traced W Call) (List Attachment)
  call_list network = perform (list network) (p.store.list network)

  unfoldable pub call_resolve : PodIdentity → Exec (Traced W Call) Resolution
  call_resolve pod = perform (resolve pod) (p.agent.resolve pod)

  unfoldable pub call_binding : PodIdentity → Exec (Traced W Call) Binding
  call_binding pod = perform (binding pod) (p.agent.binding pod)

  unfoldable pub call_prepare : PodIdentity → Binding → Exec (Traced W Call) (Unit {0})
  call_prepare pod b = perform (prepare pod b) (p.agent.prepare pod b)

  unfoldable pub call_check : PodIdentity → Binding → Exec (Traced W Call) (Unit {0})
  call_check pod b = perform (check pod b) (p.agent.check pod b)

  unfoldable pub call_withdraw : PodIdentity → Exec (Traced W Call) (Unit {0})
  call_withdraw pod = perform (withdraw pod) (p.agent.withdraw pod)

  unfoldable pub call_status : Exec (Traced W Call) (Unit {0})
  call_status = perform status p.agent.status
