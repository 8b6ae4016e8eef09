-- ===== src/Binding/Allocator.antt =====
-- internal/binding/allocation.go: `Reserve`, `Quarantine`, `Release` and `Ensure`. The Kubernetes
-- client, SHA-256 and netip's parsing and printing are parameters; the client's calls are logged.
use Prim.Native.String.{◌++◌}
use waycloak.Prelude.{
  ℕ, zero, suc, ◌+◌, ◌-◌, ◌^◌, ◌%◌, String, Bool, true, false, ◌&&◌, ◌||◌, ◌==◌, not, List, [], ◌∷◌,
  Option, none, some, ltb, leb, any, if◌then◌else◌,
}
use waycloak.Prelude.Assoc.{insert}
use waycloak.Exec.{
  new, sentinel, wrap, Sentinel, not_found, already_exists, pool_exhausted, unsafe_pool,
  reservation_conflict, reservation_deleting, identity_quarantined, errors_is, Result, ok, err,
  reject_if, Exec, pure, fail, lift, attempt, wrapping, ◌>>=◌, ◌>>◌, Traced, perform, observe,
}
use waycloak.Binding.Leases.{
  Prefix, v4, masked_address, gateway_uid_annotation, pod_uid_annotation, address_annotation,
  state_annotation, state_active, state_quarantined, Lease, annotation, reservation_matches,
  quarantine_matches, is_quarantine_of,
}

-- The client and what the package takes from the standard library. `seed` is the first four bytes
-- of a Pod UID's SHA-256, big-endian; `short_hash` and `identity_hash` print the first ten and
-- sixteen bytes of the sum of some texts joined by NUL.
pub record Cluster (W : Type 0) : Type 0 where
  pub client_set : Bool
  pub list : String → String → Exec W (List Lease)
  pub create : Lease → Exec W (Unit {0})
  pub get : String → String → Exec W Lease
  pub patch : Lease → Exec W (Unit {0})
  pub delete : Lease → Exec W (Unit {0})
  pub now : W → ℕ × W
  pub seed : String → ℕ
  pub short_hash : List String → String
  pub identity_hash : List String → String
  pub prefix_string : Prefix → String
  pub parse_prefix : String → Result Prefix

pub data Call : Type 0 where
  list : String → String → Result (List Lease) → Call
  create : Lease → Result (Unit {0}) → Call
  get : String → String → Result Lease → Call
  patch : Lease → Result (Unit {0}) → Call
  delete : Lease → Result (Unit {0}) → Call

pub record Gateway : Type 0 where
  pub is_nil : Bool
  pub name : String
  pub namespace : String
  pub uid : String

-- What the allocator reads of a VPNWorkloadBinding.
pub record WorkloadBinding : Type 0 where
  pub is_nil : Bool
  pub gateway_name : String
  pub gateway_namespace : String
  pub gateway_uid : String
  pub pod_uid : String
  pub identity : String
  pub address : String

pub record Reservation : Type 0 where
  pub lease : Lease
  pub identity : String
  pub address : ℕ
  pub recovered : Bool

abbrev pub is_already_exists : Sentinel → Bool
is_already_exists already_exists = true
is_already_exists _ = false

abbrev pub is_not_found : Sentinel → Bool
is_not_found not_found = true
is_not_found _ = false

-- uint32 arithmetic.
abbrev pub u32 : ℕ → ℕ
u32 n = n % 2 ^ 32

unfoldable pub usable : ℕ → ℕ
usable bits = u32 (2 ^ (32 - bits) + 2 ^ 32 - 3)

unfoldable pub probe_offset : ℕ → ℕ → ℕ → ℕ
probe_offset start count attempt = u32 (2 + u32 (start + attempt) % count)

unfoldable pub probe_address : ℕ → ℕ → ℕ → ℕ → ℕ
probe_address base start count attempt = u32 (base + probe_offset start count attempt)

-- One round of the loop of `Reserve`: the reservation that it ends with, or whether the attempt is
-- made again.
pub data Round : Type 0 where
  reserved : Reservation → Round
  vanished conflict : Round

-- A vanished reservation is tried again by `attempt--; continue`, but for the first attempt.
unfoldable pub next_attempt : ℕ → Round → ℕ
next_attempt attempt vanished = if ltb 0 attempt then attempt else attempt + 1
next_attempt attempt _ = attempt + 1

abbrev pub quarantined : Lease → Lease
quarantined l = record l { annotations = insert state_annotation state_quarantined l.annotations }

module _ {W : Type 0} (c : Cluster W) where
  unfoldable pub reservation_name : String → String → String
  reservation_name gateway_uid address =
      "waycloak-address-" ++ c.short_hash (gateway_uid ∷ address ∷ [])

  unfoldable pub allocation_identity : String → String → String
  allocation_identity gateway_uid pod_uid =
      "alloc-" ++ c.identity_hash ("waycloak-allocation-v1" ∷ gateway_uid ∷ pod_uid ∷ [])

  -- `BindingName`
  unfoldable pub binding_name : String → String
  binding_name pod_uid = "pod-" ++ c.short_hash (pod_uid ∷ [])

  unfoldable pub desired_lease : Gateway → String → String → String → Exec (Traced W Call) Lease
  desired_lease g pod_uid identity address = do
    t ← observe c.now
    pure (record {
      name = reservation_name g.uid address;
      namespace = g.namespace;
      labels =
          ("networking.waycloak.io/managed-by", "binding-controller")
          ∷ ("networking.waycloak.io/gateway-identity", c.short_hash (g.uid ∷ []))
          ∷ [];
      annotations =
          (gateway_uid_annotation, g.uid)
          ∷ (pod_uid_annotation, pod_uid)
          ∷ (address_annotation, address)
          ∷ (state_annotation, state_active)
          ∷ [];
      owner = (g.name, g.uid);
      holder = some identity;
      acquired_at = t;
      deleting = false;
    })

  unfoldable pub call_create : Lease → Exec (Traced W Call) (Unit {0})
  call_create l = perform (create l) (c.create l)

  unfoldable pub call_get : Lease → Exec (Traced W Call) Lease
  call_get l = perform (get l.namespace l.name) (c.get l.namespace l.name)

  unfoldable pub probe_existing :
      Gateway → String → String → ℕ → Result Lease → Exec (Traced W Call) Round
  probe_existing g pod_uid identity address (err e) =
      if errors_is is_not_found e
      then pure vanished
      else fail (wrap "read conflicting address reservation" e)
  probe_existing g pod_uid identity address (ok existing) = pure (
      if reservation_matches existing g.uid pod_uid identity (c.prefix_string (v4 address 32))
      then reserved
          (record { lease = existing; identity = identity; address = address; recovered = true })
      else conflict)

  unfoldable pub probe_created :
      Gateway → String → String → ℕ → Lease → Result (Unit {0}) → Exec (Traced W Call) Round
  probe_created g pod_uid identity address l (ok _) =
      pure
        (reserved (record { lease = l; identity = identity; address = address; recovered = false }))
  probe_created g pod_uid identity address l (err e) =
      if not (errors_is is_already_exists e)
      then fail (wrap "create durable address reservation" e)
      else do existing ← attempt (call_get l); probe_existing g pod_uid identity address existing

  unfoldable pub probe : Gateway → String → String → ℕ → Exec (Traced W Call) Round
  probe g pod_uid identity address = do
    l ← desired_lease g pod_uid identity (c.prefix_string (v4 address 32))
    created ← attempt (call_create l)
    probe_created g pod_uid identity address l created

  unfoldable pub reserve_next :
      Exec (Traced W Call) (Option Reservation) → Round → Exec (Traced W Call) (Option Reservation)
  reserve_next again (reserved r) = pure (some r)
  reserve_next again _ = again

  -- The loop of `Reserve`. Its fuel counts rounds, and `none` says that it ran out: the source loops
  -- for as long as reservations vanish between its CREATE and its GET.
  unfoldable pub reserve_loop :
      Gateway → String → String → ℕ → ℕ → ℕ → ℕ → ℕ → Exec (Traced W Call) (Option Reservation)
  reserve_loop g pod_uid identity base start count zero attempt = pure none
  reserve_loop g pod_uid identity base start count (suc n) attempt =
      if not (ltb attempt count) then fail (sentinel pool_exhausted) else do
        r ← probe g pod_uid identity (probe_address base start count attempt)
        reserve_next (reserve_loop g pod_uid identity base start count n (next_attempt attempt r)) r

  unfoldable pub is_safe_pool : Prefix → Bool
  is_safe_pool (v4 address bits) = leb 16 bits && leb bits 29
  is_safe_pool _ = false

  unfoldable pub pool_base : Prefix → ℕ
  pool_base (v4 address bits) = masked_address address bits
  pool_base _ = 0

  unfoldable pub pool_bits : Prefix → ℕ
  pool_bits (v4 address bits) = bits
  pool_bits _ = 0

  unfoldable pub reserve : ℕ → Gateway → String → Prefix → Exec (Traced W Call) (Option Reservation)
  reserve fuel g pod_uid pool = do
    lift (
        reject_if (not c.client_set || g.is_nil || g.uid == "" || pod_uid == "")
          (new "client and exact gateway and Pod UIDs are required"))
    lift (
        reject_if (not (is_safe_pool pool))
          (wrap "require an IPv4 /16 through /29 pool" (sentinel unsafe_pool)))
    reservations ← wrapping "inspect durable address reservations" (
        perform (list g.namespace (c.short_hash (g.uid ∷ [])))
          (c.list g.namespace (c.short_hash (g.uid ∷ []))))
    lift (
        reject_if
          (any (λ l. is_quarantine_of l g.uid pod_uid (allocation_identity g.uid pod_uid))
            reservations)
          (sentinel identity_quarantined))
    let count = usable (pool_bits pool)
    reserve_loop g pod_uid (allocation_identity g.uid pod_uid) (pool_base pool)
        (c.seed pod_uid % count) count fuel 0

  abbrev pub gateway_of : WorkloadBinding → Gateway
  gateway_of b = record {
    is_nil = false;
    name = b.gateway_name;
    namespace = b.gateway_namespace;
    uid = b.gateway_uid;
  }

  -- `Quarantine` on a reservation that is there already.
  unfoldable pub quarantine_existing :
      WorkloadBinding → String → Lease → Exec (Traced W Call) (Unit {0})
  quarantine_existing b address current =
      if current.deleting
      then fail (sentinel reservation_deleting)
      else if annotation current state_annotation == state_quarantined
      then (if quarantine_matches current b.gateway_uid b.pod_uid b.identity address
          then pure tt
          else fail (sentinel reservation_conflict))
      else if not (reservation_matches current b.gateway_uid b.pod_uid b.identity address)
      then fail (sentinel reservation_conflict)
      else perform (patch (quarantined current)) (c.patch (quarantined current))

  unfoldable pub quarantine_created :
      WorkloadBinding → String → Lease → Result (Unit {0}) → Exec (Traced W Call) (Unit {0})
  quarantine_created b address desired (ok _) = pure tt
  quarantine_created b address desired (err e) =
      if not (errors_is is_already_exists e) then fail (wrap "create durable quarantine" e) else do
        current ← wrapping "read address reservation for quarantine" (call_get desired)
        quarantine_existing b address current

  unfoldable pub quarantine : WorkloadBinding → Exec (Traced W Call) (Unit {0})
  quarantine b = do
    lift (reject_if (not c.client_set || b.is_nil) (new "client and binding are required"))
    address ← wrapping "parse binding address for quarantine" (lift (c.parse_prefix b.address))
    l ← desired_lease (gateway_of b) b.pod_uid b.identity (c.prefix_string address)
    created ← attempt (call_create (quarantined l))
    quarantine_created b (c.prefix_string address) (quarantined l) created

  -- `client.IgnoreNotFound(err)`
  unfoldable pub ignore_not_found : {A : Type 0} → Result A → Result (Unit {0})
  ignore_not_found (ok a) = ok tt
  ignore_not_found (err e) = if errors_is is_not_found e then ok tt else err e

  unfoldable pub release_found :
      WorkloadBinding → String → Result Lease → Exec (Traced W Call) (Unit {0})
  release_found b address (err e) = lift (ignore_not_found {A = Lease} (err e))
  release_found b address (ok current) =
      if not (reservation_matches current b.gateway_uid b.pod_uid b.identity address)
      then fail (sentinel reservation_conflict)
      else do
        deleted ← attempt (perform (delete current) (c.delete current))
        lift (ignore_not_found deleted)

  unfoldable pub release : WorkloadBinding → Exec (Traced W Call) (Unit {0})
  release b = do
    lift (reject_if (not c.client_set || b.is_nil) (new "client and binding are required"))
    address ← wrapping "parse binding allocation address" (lift (c.parse_prefix b.address))
    found ← attempt (
        perform (get b.gateway_namespace (reservation_name b.gateway_uid (c.prefix_string address)))
          (c.get b.gateway_namespace (reservation_name b.gateway_uid (c.prefix_string address))))
    release_found b (c.prefix_string address) found

  unfoldable pub ensure_created :
      WorkloadBinding → String → Lease → Result (Unit {0}) → Exec (Traced W Call) Lease
  ensure_created b address l (ok _) = pure l
  ensure_created b address l (err e) =
      if not (errors_is is_already_exists e)
      then fail (wrap "restore durable address reservation" e)
      else do
        existing ← wrapping "read durable address reservation" (call_get l)
        if not (reservation_matches existing b.gateway_uid b.pod_uid b.identity address)
            then fail (sentinel reservation_conflict)
            else pure existing

  unfoldable pub ensure : Gateway → WorkloadBinding → Exec (Traced W Call) Lease
  ensure g b = do
    lift (
        reject_if (not c.client_set || g.is_nil || b.is_nil)
          (new "client, gateway, and binding are required"))
    address ← wrapping "parse binding address" (lift (c.parse_prefix b.address))
    l ← desired_lease g b.pod_uid b.identity (c.prefix_string address)
    created ← attempt (call_create l)
    ensure_created b (c.prefix_string address) l created
