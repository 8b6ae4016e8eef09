-- ===== src/Samples/Ports.antt =====
-- A provider port reserved with no reservation there, a quarantine, and the theorems at them.
use waycloak.Prelude.{ℕ, ◌+◌, ◌≤◌, ◌≡◌, refl, true, false, [], none, some, arith}
use waycloak.Exec.{ok, Traced, ◌>>=◌, perform, observe}
use waycloak.PortForward.Reservations.{
  Reserved, Object, Client, Call, reserve_port, quarantine_expired, quarantine_seconds,
  in_quarantine, scan, reserve_scanned, create_loop, create_answered, probed_port,
}
use waycloak.PortForward.Provenance.{Backed, reserve_port-Backed}
use waycloak.PortForward.Expiry.{quarantine_expiry}

abbrev empty : Reserved
empty = record {
  name = "";
  namespace = "";
  labels = [];
  annotations = [];
  holder = none;
  acquired_at = none;
  renewed = none;
}

abbrev client : Client ℕ
client = record {
  is_set = true;
  list = λ _ _ w. (ok [], w);
  create = λ _ w. (ok tt, w);
  get = λ _ _ w. (ok empty, w);
  patch = λ _ w. (ok tt, w);
  delete = λ _ w. (ok tt, w);
  now = λ w. (w, w);
  seed = λ _. 5;
  short_uid = λ u. u;
  label_value = λ u. u;
  itoa = λ _. "49157";
  parse = λ _. some 49157;
}

abbrev lease : Object
lease = record { is_nil = false; uid = "l1"; namespace = "apps" }

abbrev gateway : Object
gateway = record { is_nil = false; uid = "g1"; namespace = "vpn" }

abbrev start : Traced ℕ Call
start = record { world = 0; log = [] }

port_reserved : (reserve_port client lease gateway start).0 ≡ ok 49157
unfolding reserve_port ◌>>=◌ perform observe scan reserve_scanned create_loop create_answered
    probed_port
port_reserved = refl

reserve_port-Backed_example :
    ((49152 ≤ 49157) × (49157 ≤ 65535))
    × Backed client lease gateway 49157 (reserve_port client lease gateway start).1.log
reserve_port-Backed_example = reserve_port-Backed client lease gateway start 49157 port_reserved

quarantine_expiry_example :
    (1500000000 + 1000 ≤ 2500000001
      → quarantine_expired (in_quarantine empty 2500000001 7) 1500000000 ≡ false)
    × (2500000001 + 1000000000 ≤ 1500000000
        → quarantine_expired (in_quarantine empty 2500000001 7) 1500000000 ≡ true)
quarantine_expiry_example =
    quarantine_expiry empty 2500000001 7 1500000000 (omega arith) (omega arith)

-- A deadline 2 ^ 31 seconds away wraps, and lasts for a second only.
wrapped : quarantine_seconds 2147483648000000000 0 ≡ 1
unfolding quarantine_seconds
wrapped = refl
