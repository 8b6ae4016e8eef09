-- ===== src/GatewayAgent.antt =====
-- The gateway agent of internal/gatewaydataplane/service.go: one reconciliation of the gateway's
-- forwarding rules, the rounds of Run's loop, and the status it serves. Telemetry and the hooks on
-- errors are left out.
pub mod Forwarding
pub mod Rounds
use waycloak.Prelude.{String, Bool, true, false, ◌||◌, ◌&&◌, not, List, if◌then◌else◌}
use waycloak.Exec.{
  Err, new, wrap, join, Result, ok, err, Exec, pure, fail, attempt, ◌>>=◌, ◌>>◌, Owned, call,
  own_state, set_own, is_ok,
}
use waycloak.PortForward.Intent.{Addr}

pub record EngineObservation : Type 0 where
  pub tunnel_ready : Bool
  pub dns_ready : Bool
  pub public_ip : Addr

-- The flags `healthy`, `tunnelReady` and `dnsReady`.
pub record State : Type 0 where
  pub healthy : Bool
  pub tunnel_ready : Bool
  pub dns_ready : Bool

abbrev pub tunnel_of : Result EngineObservation → Bool
tunnel_of (ok o) = o.tunnel_ready
tunnel_of (err e) = false

abbrev joined : Err → Result (Unit {0}) → Err
joined e (ok _) = e
joined e (err f) = join e f

module _ (C : Type 0) where
  -- The service over its backend, its engine and its prober. `wired` says that none of them is nil;
  -- the configuration is only passed on.
  pub record Service (W : Type 0) : Type 0 where
    pub wired : Bool
    pub config : C
    pub ensure_overlay : C → Exec W (Unit {0})
    pub replace_rules : C → Bool → Exec W (Unit {0})
    pub observe : Exec W EngineObservation
    pub probe : Exec W (Unit {0})

  pub data Call : Type 0 where
    ensure_overlay : C → Result (Unit {0}) → Call
    replace_rules : C → Bool → Result (Unit {0}) → Call
    observe : Result EngineObservation → Call
    probe : Result (Unit {0}) → Call

  abbrev pub Run : Type 0 → Type 0
  Run W = Owned W Call State

module _ {C W : Type 0} (s : Service C W) where
  unfoldable pub replace : Bool → Exec (Run C W) (Unit {0})
  replace forward = call (replace_rules s.config forward) (s.replace_rules s.config forward)

  -- `return errors.Join(err, service.Backend.ReplaceRules(ctx, service.Config, false))`
  unfoldable pub withdraw_rules : Err → Exec (Run C W) (Unit {0})
  withdraw_rules e = do r ← attempt (replace false); fail (joined e r)

  unfoldable pub unready : Err → Exec (Run C W) (Unit {0})
  unready e = do
    t ← own_state
    set_own (record t { healthy = false; dns_ready = false })
    withdraw_rules e

  unfoldable pub when_forwarding : Result (Unit {0}) → Exec (Run C W) (Unit {0})
  when_forwarding (err e) = do
    t ← own_state
    set_own (record t { healthy = false })
    withdraw_rules e
  when_forwarding (ok _) = do t ← own_state; set_own (record t { healthy = true })

  unfoldable pub when_probed : Result (Unit {0}) → Exec (Run C W) (Unit {0})
  when_probed (err e) = unready (wrap "gateway split-DNS observation failed" e)
  when_probed (ok _) = do
    t ← own_state
    set_own (record t { dns_ready = true })
    r ← attempt (replace true)
    when_forwarding r

  unfoldable pub when_engine_ready : Exec (Run C W) (Unit {0})
  when_engine_ready = do
    t ← own_state
    if t.healthy then pure tt else replace false
    r ← attempt (call probe s.probe)
    when_probed r

  unfoldable pub engine_answered : Result EngineObservation → Exec (Run C W) (Unit {0})
  engine_answered (err e) = unready e
  engine_answered (ok o) =
      if not o.tunnel_ready || not o.dns_ready
      then unready (new "gateway engine tunnel or DNS is not ready")
      else when_engine_ready

  unfoldable pub overlay_ensured : Result (Unit {0}) → Exec (Run C W) (Unit {0})
  overlay_ensured (err e) = do
    set_own (record { healthy = false; tunnel_ready = false; dns_ready = false })
    withdraw_rules e
  overlay_ensured (ok _) = do
    r ← attempt (call observe s.observe)
    t ← own_state
    set_own (record t { tunnel_ready = tunnel_of r })
    engine_answered r

  -- `Reconcile`
  unfoldable pub reconcile : Exec (Run C W) (Unit {0})
  reconcile =
      if not s.wired
      then fail (new "gateway backend, engine observation, and split-DNS probe are required")
      else do
        r ← attempt (call (ensure_overlay s.config) (s.ensure_overlay s.config))
        overlay_ensured r

  -- One round of the loop of `Run`; `live` says that `ctx.Err()` is nil after it.
  unfoldable pub round : Bool → Exec (Run C W) (Unit {0})
  round live = do
    r ← attempt reconcile
    t ← own_state
    if not (is_ok r) && live then set_own (record t { healthy = false }) else pure tt
