-- ===== src/Samples/Dataplane.antt =====
-- A valid configuration of a workload, over addresses that are numbers, and the theorems at it.
use waycloak.Prelude.{ℕ, ◌/◌, ◌≤◌, true, false, ◌==◌, ◌≡◌, refl, nat_eq, [], ◌∷◌, none}
use waycloak.Prelude.Int.{pos}
use waycloak.Exec.{ok, Traced, ◌>>=◌, perform}
use waycloak.Dataplane.{
  Netip, Config, Backend, Call, install_lockdown, configure, is_below, validate, prepare, verify,
  validate_redirects, validate_protocols,
}
use waycloak.Dataplane.Lockdown.{Behind, prepare-Behind, verify-Behind, prepare_done}
use waycloak.Dataplane.Validity.{
  DistinctTargets, DistinctNames, AllValid, claims, identities, validate_sound,
}

-- A prefix of 24 bits is its first address.
abbrev pub numbers : Netip
numbers = record {
  Addr = ℕ;
  Prefix = ℕ;
  AddrPort = ℕ;
  addr_is_valid = λ _. true;
  addr_eq = nat_eq;
  prefix_is_valid = λ _. true;
  bits = λ _. 24;
  addr = λ p. p;
  contains = λ p a. nat_eq (p / 256) (a / 256);
  addr_port_is_valid = λ _. true;
  port = λ p. p;
}

abbrev config : Config numbers
config = record {
  pod_uid = "pod-1";
  allocation_generation = pos 1;
  gateway_generation = pos 1;
  address = 258;
  overlay_cidr = 256;
  gateway_address = 257;
  gateway_endpoint = 4789;
  gateway_health_port = 9000;
  vni = 42;
  mtu = pos 1400;
  cluster_traffic_mode = "Preserve";
  cluster_cidrs = [];
  underlay_interface = "eth0";
  overlay_interface_name = "wc0";
  redirects =
      record {
        identity = "l1";
        target_port = 80;
        application_port = 8080;
        protocols = "TCP" ∷ "UDP" ∷ [];
      }
      ∷ [];
}

abbrev backend : Backend numbers ℕ
backend = record {
  is_nil = false;
  install_lockdown = λ _ w. (ok tt, w);
  configure = λ _ w. (ok tt, w);
  repair = λ _ w. (ok tt, w);
  cleanup = none;
}

abbrev start : Traced ℕ (Call numbers)
start = record { world = 0; log = [] }

config_valid : validate numbers config ≡ ok tt
unfolding validate validate_redirects validate_protocols
config_valid = refl

prepare_ok : (prepare numbers backend config start).0 ≡ ok tt
unfolding prepare ◌>>=◌ perform validate validate_redirects validate_protocols
prepare_ok = refl

prepare-Behind_example : Behind numbers (prepare numbers backend config start).1.log
prepare-Behind_example = prepare-Behind numbers backend config start tt

verify-Behind_example : Behind numbers (verify numbers backend config start).1.log
verify-Behind_example = verify-Behind numbers backend config start tt

prepare_done_example :
    (validate numbers config ≡ ok tt)
    × ((prepare numbers backend config start).1.log
        ≡ configure config (ok tt) ∷ install_lockdown "pod-1" (ok tt) ∷ [])
prepare_done_example = prepare_done numbers backend config start prepare_ok

validate_sound_example :
    ("pod-1" == "" ≡ false)
    × (nat_eq 257 258 ≡ false)
    × ((1 ≤ 42) × (42 ≤ 16777215))
    × (is_below (pos 1400) 576 ≡ false)
    × AllValid config.redirects
    × DistinctNames (identities config.redirects [])
    × DistinctTargets (claims config.redirects [])
validate_sound_example = validate_sound numbers config config_valid
