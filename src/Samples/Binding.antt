-- ===== src/Samples/Binding.antt =====
-- A workload's reservation, and probes of the pool 10.8.0.0/28, whose thirteen addresses start at 10.8.0.2.
use waycloak.Prelude.{true, false, [], ◌∷◌, some, ℕ, ◌%◌, ◌+◌, ◌-◌, ◌^◌, ◌<◌, ◌≡◌, arith}
use waycloak.Exec.{ok, err, sentinel, already_exists, Traced}
use waycloak.Binding.Ownership.{Respectful, release-quarantine-Respectful}
use waycloak.Binding.Leases.{
  v4, Lease, gateway_uid_annotation, pod_uid_annotation, address_annotation, state_annotation,
  state_active, masked_address, reservation_matches,
}
use waycloak.Binding.Allocator.{
  Cluster, Call, WorkloadBinding, release, quarantine, usable, probe_offset, probe_address,
}
use waycloak.Exec.Triple.{Post}
use waycloak.Binding.Allocator.{
  Gateway, Reservation, pool_base, pool_bits, allocation_identity, reserve,
}
use waycloak.Binding.Totality.{Lasting, reserve_total}
use waycloak.Binding.Probe.{probe-InPool, probe-Once}

probe-InPool_example :
    (masked_address 168296452 28 + 1 < probe_address (masked_address 168296452 28) 5 (usable 28) 9)
    × (probe_address (masked_address 168296452 28) 5 (usable 28) 9 + 1
        < masked_address 168296452 28 + 2 ^ (32 - 28))
unfolding usable
probe-InPool_example =
    probe-InPool 168296452 28 5 9 (omega arith) (omega arith) (omega arith) (omega arith)
      (omega arith)

probe-Once_example :
    (n : ℕ) × (n < usable 28)
    × (probe_offset 5 (usable 28) n ≡ 3)
    × ((m : ℕ) → m < usable 28 → probe_offset 5 (usable 28) m ≡ 3 → m ≡ n)
unfolding usable
probe-Once_example =
    probe-Once 28 5 3 (omega arith) (omega arith) (omega arith) (omega arith) (omega arith)

abbrev workload : WorkloadBinding
workload = record {
  is_nil = false;
  gateway_name = "vpn";
  gateway_namespace = "infra";
  gateway_uid = "g1";
  pod_uid = "p1";
  identity = "alloc-1";
  address = "10.8.0.2/32";
}

abbrev reservation : Lease
reservation = record {
  name = "waycloak-address-h";
  namespace = "infra";
  labels = [];
  annotations =
      (gateway_uid_annotation, "g1")
      ∷ (pod_uid_annotation, "p1")
      ∷ (address_annotation, "10.8.0.2/32")
      ∷ (state_annotation, state_active)
      ∷ [];
  owner = ("vpn", "g1");
  holder = some "alloc-1";
  acquired_at = 1;
  deleting = false;
}

-- A cluster that holds the reservation of the workload already.
abbrev cluster : Cluster ℕ
cluster = record {
  client_set = true;
  list = λ _ _ w. (ok (reservation ∷ []), w);
  create = λ _ w. (err (sentinel already_exists), w);
  get = λ _ _ w. (ok reservation, w);
  patch = λ _ w. (ok tt, w);
  delete = λ _ w. (ok tt, w);
  now = λ w. (w, w);
  seed = λ _. 5;
  short_hash = λ _. "h";
  identity_hash = λ _. "1";
  prefix_string = λ _. "10.8.0.2/32";
  parse_prefix = λ _. ok (v4 168296450 32);
}

abbrev start : Traced ℕ Call
start = record { world = 0; log = [] }

release-quarantine-Respectful_example :
    Respectful workload (release cluster workload start).1.log
    × Respectful workload (quarantine cluster workload (release cluster workload start).1).1.log
release-quarantine-Respectful_example = release-quarantine-Respectful cluster workload start tt

abbrev gateway : Gateway
gateway = record { is_nil = false; name = "vpn"; namespace = "infra"; uid = "g1" }

lasting : Lasting cluster
lasting l w e f h exists missed = cc

reserve_total_example :
    Post
      (λ found _.
        (r : Reservation) × (found ≡ some r)
        × (r.identity ≡ "alloc-1")
        × (reservation_matches r.lease "g1" "p1" "alloc-1" "10.8.0.2/32" ≡ true)
        × ((n : ℕ) × (n < usable 28)
            × (r.address
                ≡ probe_address
                    (pool_base cluster (v4 168296448 28))
                    (5 % usable 28)
                    (usable 28)
                    n)))
      (λ _ _. Unit)
      (reserve cluster 14 gateway "p1" (v4 168296448 28) start).0
      (reserve cluster 14 gateway "p1" (v4 168296448 28) start).1
unfolding usable pool_bits allocation_identity
reserve_total_example =
    reserve_total cluster 14 gateway "p1" (v4 168296448 28) start lasting (omega arith)
