-- ===== src/PortForward/Expiry.antt =====
-- How long a quarantine of internal/portforward/allocation.go lasts.
use native.Mathlib.Nat.{mod-lt, div-add-mod}
use waycloak.Prelude.{ℕ, ◌+◌, ◌-◌, ◌*◌, ◌/◌, ◌≤◌, ◌<◌, ◌≡◌, true, false, arith}
use waycloak.PortForward.Reservations.{
  Reserved, quarantine_seconds, quarantine_expired, in_quarantine, micro_time,
}

-- The largest int32, in nanoseconds.
abbrev pub longest : ℕ
longest = 2147483647000000000

-- Up to that, nothing wraps.
seconds_lem :
    (until now : ℕ)
    → now < until
    → until ≤ now + longest
    → quarantine_seconds until now ≡ (until - now + 999999999) / 1000000000
unfolding quarantine_seconds
seconds_lem until now h l = ground (
  arith,
  div-add-mod (until - now + 999999999) 1000000000,
  mod-lt (until - now + 999999999) {m = 1000000000} (omega arith),
)

seconds-Bounds :
    (until now : ℕ)
    → now < until
    → until ≤ now + longest
    → (until ≤ now + quarantine_seconds until now * 1000000000)
      × (now + quarantine_seconds until now * 1000000000 < until + 1000000000)
seconds-Bounds until now h l = rw (seconds_lem until now h l) (
    ground (
      arith,
      div-add-mod (until - now + 999999999) 1000000000,
      mod-lt (until - now + 999999999) {m = 1000000000} (omega arith),
    ))

micro_time-Bounds : (t : ℕ) → (micro_time t ≤ t) × (t < micro_time t + 1000)
micro_time-Bounds t = let r = mod-lt t {m = 1000} (omega arith) in (omega arith, omega arith)

-- A reservation that Quarantine marks at `now` for a later deadline, at most 2147483647 seconds away,
-- does not count as expired up to a microsecond before that deadline, and does from one second after
-- it on.
pub quarantine_expiry :
    (r : Reserved) (until now t : ℕ)
    → now < until
    → until ≤ now + longest
    → (t + 1000 ≤ until → quarantine_expired (in_quarantine r until now) t ≡ false)
      × (until + 1000000000 ≤ t → quarantine_expired (in_quarantine r until now) t ≡ true)
unfolding quarantine_expired
quarantine_expiry r until now t h l =
    let b = seconds-Bounds until now h l in
    let m = micro_time-Bounds now in
    (λ early. ground (arith, b.0, m.1), λ late. ground (arith, b.1, m.0))
