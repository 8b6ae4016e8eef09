-- ===== src/PortForward/Exact.antt =====
-- The tests of internal/portforward/runtime.go on what a runtime observed.
use waycloak.Prelude.{◌<◌, Bool, true, ◌&&◌, ◌==◌, not, ◌≡◌, refl, nat_eq, arith, eq_refl}
use waycloak.Prelude.Int.{eq_ℤ}
use waycloak.Exec.{ok, ◌>>=◌, read}
use waycloak.PortForward.Intent.{Intent, WithdrawalIntent, runtime_api_version, ProviderObservation}
use waycloak.PortForward.Manager.{Observation, Backends, Run, now}
use waycloak.PortForward.Reconcile.{observation, withdrawal_observation}

unfoldable pub exact_observation : Observation → Intent → Bool
exact_observation o i =
    o.api_version == runtime_api_version
    && o.lease_uid == i.lease_uid
    && o.gateway_uid == i.gateway_uid
    && eq_ℤ o.handoff_generation i.handoff_generation
    && o.pod_uid == i.pod_uid
    && not (nat_eq o.observed_at 0)

unfoldable pub exact_withdrawal : Observation → WithdrawalIntent → Bool
exact_withdrawal o i =
    o.api_version == runtime_api_version
    && o.lease_uid == i.lease_uid
    && o.gateway_uid == i.gateway_uid
    && eq_ℤ o.handoff_generation i.handoff_generation
    && o.pod_uid == i.pod_uid
    && not (nat_eq o.observed_at 0)
    && o.withdrawn

-- With a clock that is past the zero time, what the manager observes for an intent passes the
-- controller's exactness test for that intent, and what it observes for a withdrawal passes the
-- test for that withdrawal exactly when it says that the lease is withdrawn.
pub observations-Exact :
    {W : Type 0} (b : Backends W) (i : Intent) (mapping : ProviderObservation)
    (w : WithdrawalIntent) (done : Bool) (s : Run W)
    → 0 < (b.now s.world).0
    → ((o : Observation) × ((observation b i mapping s).0 ≡ ok o) × (exact_observation o i ≡ true))
      × ((o : Observation) × ((withdrawal_observation b w done s).0 ≡ ok o)
          × (exact_withdrawal o w ≡ done))
unfolding observation withdrawal_observation ◌>>=◌ now read exact_observation exact_withdrawal
observations-Exact b i mapping w done s h = (
  (_, refl, ground (arith, eq_refl i.lease_uid, eq_refl i.gateway_uid, eq_refl i.pod_uid, h)),
  (_, refl, ground (arith, eq_refl w.lease_uid, eq_refl w.gateway_uid, eq_refl w.pod_uid, h)),
)
