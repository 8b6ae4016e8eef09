-- ===== src/NodeAgent/Program.antt =====
-- `Prepare` and `Check` of internal/nodeagent/service.go.
use waycloak.Prelude.{true, false, String, if◌then◌else◌}
use waycloak.Exec.{
  Err, new, wrap, Result, ok, err, Exec, pure, fail, attempt, ◌>>=◌, call, own_state,
}
use waycloak.Cni.Types.{PodIdentity, Binding}
use waycloak.Dataplane.{Netip, Config}
use waycloak.NodeAgent.Types.{WorkloadBinding, Service, install_lockdown, configure, verify, Run}
use waycloak.NodeAgent.Lookup.{is_ready, authority, record_observation}

module _ {n : Netip} {W : Type 0} (s : Service n W) where
  unfoldable pub call_lockdown : PodIdentity → Exec (Run n W) (Unit {0})
  call_lockdown i = call (install_lockdown i.net_ns i.uid) (s.install_lockdown i.net_ns i.uid)

  unfoldable pub call_configure : PodIdentity → Config n → Exec (Run n W) (Unit {0})
  call_configure i c = call (configure i.net_ns c) (s.configure i.net_ns c)

  unfoldable pub call_verify : PodIdentity → Config n → Exec (Run n W) (Unit {0})
  call_verify i c = call (verify i.net_ns c) (s.verify i.net_ns c)

  -- `s.observe(binding, false); return fmt.Errorf("text: %w", err)`
  unfoldable pub observe_failed : {A : Type 0} → WorkloadBinding → String → Err → Exec (Run n W) A
  observe_failed b text e = do o ← record_observation s b false; fail (wrap text e)

  -- The same behind another lockdown whose error is ignored.
  unfoldable pub lock_failed :
      {A : Type 0} → PodIdentity → WorkloadBinding → String → Err → Exec (Run n W) A
  lock_failed i b text e = do ignored ← attempt (call_lockdown i); observe_failed b text e

  unfoldable pub observe_verified : WorkloadBinding → Exec (Run n W) (Unit {0})
  observe_verified b = do o ← record_observation s b true; pure tt

  -- After the last VERIFY of either method.
  unfoldable pub when_verified :
      PodIdentity → WorkloadBinding → String → Result (Unit {0}) → Exec (Run n W) (Unit {0})
  when_verified i b text (ok _) = observe_verified b
  when_verified i b text (err e) = lock_failed i b text e

  unfoldable pub when_configured :
      PodIdentity → WorkloadBinding → Config n → Result (Unit {0}) → Exec (Run n W) (Unit {0})
  when_configured i b c (err e) = lock_failed i b "program protected path with deny retained" e
  when_configured i b c (ok _) = do
    verified ← attempt (call_verify i c)
    when_verified i b "verify protected path before startup" verified

  unfoldable pub locked_prepare :
      PodIdentity → WorkloadBinding → Config n → Result (Unit {0}) → Exec (Run n W) (Unit {0})
  locked_prepare i b c (err e) = fail (wrap "re-establish deny-first state" e)
  locked_prepare i b c (ok _) = do
    configured ← attempt (call_configure i c)
    when_configured i b c configured

  -- `s.prepare`
  unfoldable pub prepare_pod : PodIdentity → Binding → Exec (Run n W) (Unit {0})
  prepare_pod i requested = do
    (b, c) ← authority s i requested
    locked ← attempt (call_lockdown i)
    locked_prepare i b c locked

  abbrev pub unavailable : Err
  unavailable = new "node backend or controller observation relay is unavailable"

  -- `Prepare`
  unfoldable pub prepare : PodIdentity → Binding → Exec (Run n W) (Unit {0})
  prepare i requested = do
    t ← own_state
    if is_ready s t then prepare_pod i requested else fail unavailable

  unfoldable pub when_repaired :
      PodIdentity → WorkloadBinding → Config n → Result (Unit {0}) → Exec (Run n W) (Unit {0})
  when_repaired i b c (err e) = observe_failed b "repair protected path" e
  when_repaired i b c (ok _) = do
    verified ← attempt (call_verify i c)
    when_verified i b "verify repaired protected path" verified

  unfoldable pub locked_check :
      PodIdentity → WorkloadBinding → Config n → Result (Unit {0}) → Exec (Run n W) (Unit {0})
  locked_check i b c (err e) = observe_failed b "restore deny-first state after drift" e
  locked_check i b c (ok _) = do
    configured ← attempt (call_configure i c)
    when_repaired i b c configured

  -- After the first VERIFY of `check`, whose error is dropped.
  unfoldable pub drifted :
      PodIdentity → WorkloadBinding → Config n → Result (Unit {0}) → Exec (Run n W) (Unit {0})
  drifted i b c (ok _) = observe_verified b
  drifted i b c (err _) = do locked ← attempt (call_lockdown i); locked_check i b c locked

  unfoldable pub authorized_check :
      PodIdentity → Result (WorkloadBinding × Config n) → Exec (Run n W) (Unit {0})
  authorized_check i (err e) = do ignored ← attempt (call_lockdown i); fail e
  authorized_check i (ok (b, c)) = do verified ← attempt (call_verify i c); drifted i b c verified

  -- `s.check`
  unfoldable pub check_pod : PodIdentity → Binding → Exec (Run n W) (Unit {0})
  check_pod i requested = do
    authorized ← attempt (authority s i requested)
    authorized_check i authorized

  -- `Check`
  unfoldable pub check : PodIdentity → Binding → Exec (Run n W) (Unit {0})
  check i requested = do
    t ← own_state
    if is_ready s t
        then check_pod i requested
        else (do ignored ← attempt (call_lockdown i); fail unavailable)
