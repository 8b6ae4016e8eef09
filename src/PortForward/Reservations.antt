-- ===== src/PortForward/Reservations.antt =====
-- internal/portforward/allocation.go: durable provider-port reservations. The Kubernetes client,
-- SHA-256 and `strconv` are parameters; the client's calls are logged. Times are nanoseconds.
use Prim.Native.String.{◌++◌}
use waycloak.Prelude.{
  ℕ, zero, suc, ◌+◌, ◌-◌, ◌*◌, ◌/◌, ◌%◌, String, Bool, true, false, ◌&&◌, ◌||◌, ◌==◌, not, List, [],
  ◌∷◌, Option, none, some, ltb, leb, nat_eq, any, if◌then◌else◌,
}
use waycloak.Prelude.Int.{ℤ, pos, negsuc, to_unsigned}
use waycloak.Prelude.Assoc.{lookup, insert}
use waycloak.Exec.{
  Err, new, sentinel, wrap, Sentinel, not_found, already_exists, errors_is, Result, ok, err,
  reject_if, Exec, pure, fail, lift, attempt, wrapping, ◌>>=◌, ◌>>◌, Traced, perform, observe,
}

abbrev pub provider_port_first : ℕ
provider_port_first = 49152

abbrev pub provider_port_last : ℕ
provider_port_last = 65535

abbrev pub reservation_label : String
reservation_label = "networking.waycloak.io/provider-port-reservation"

abbrev pub gateway_uid_label : String
gateway_uid_label = "networking.waycloak.io/provider-port-gateway-uid"

abbrev pub lease_uid_label : String
lease_uid_label = "networking.waycloak.io/provider-port-lease-uid"

abbrev pub gateway_uid_annotation : String
gateway_uid_annotation = "networking.waycloak.io/provider-port-gateway-identity"

abbrev pub lease_uid_annotation : String
lease_uid_annotation = "networking.waycloak.io/provider-port-lease-identity"

abbrev pub port_label : String
port_label = "networking.waycloak.io/provider-internal-port"

abbrev pub state_label : String
state_label = "networking.waycloak.io/provider-port-state"

-- The part of a coordination Lease that the allocator reads and writes; `renewed` holds the renew
-- time and the duration in seconds where both are set.
pub record Reserved : Type 0 where
  pub name : String
  pub namespace : String
  pub labels : List (String × String)
  pub annotations : List (String × String)
  pub holder : Option String
  pub acquired_at : Option ℕ
  pub renewed : Option (ℕ × ℕ)

-- An object with a UID; `is_nil` is a nil pointer.
pub record Object : Type 0 where
  pub is_nil : Bool
  pub uid : String
  pub namespace : String

-- `ProviderReservationIdentity`
pub record Identity : Type 0 where
  pub gateway_uid : String
  pub gateway_namespace : String
  pub port : ℕ

-- `list` takes the namespace and the wanted labels; `seed` is the first four bytes of the SHA-256 of
-- a text, `short_uid` and `label_value` print its first 6 and 16 bytes; `parse` is
-- `ParseUint(_, 10, 16)`.
pub record Client (W : Type 0) : Type 0 where
  pub is_set : Bool
  pub list : String → List (String × String) → Exec W (List Reserved)
  pub create : Reserved → Exec W (Unit {0})
  pub get : String → String → Exec W Reserved
  pub patch : Reserved → Exec W (Unit {0})
  pub delete : Reserved → Exec W (Unit {0})
  pub now : W → ℕ × W
  pub seed : String → ℕ
  pub short_uid : String → String
  pub label_value : String → String
  pub itoa : ℕ → String
  pub parse : String → Option ℕ

pub data Call : Type 0 where
  list : String → List (String × String) → Result (List Reserved) → Call
  create : Reserved → Result (Unit {0}) → Call
  get : String → String → Result Reserved → Call
  patch : Reserved → Result (Unit {0}) → Call
  delete : Reserved → Result (Unit {0}) → Call

abbrev text_of : Option String → String
text_of none = ""
text_of (some v) = v

unfoldable pub label_of : Reserved → String → String
label_of r k = text_of (lookup k r.labels)

unfoldable pub annotation_of : Reserved → String → String
annotation_of r k = text_of (lookup k r.annotations)

abbrev pub in_range : Option ℕ → Option ℕ
in_range none = none
in_range (some port) =
    if leb provider_port_first port && leb port provider_port_last then some port else none

-- `quarantineExpired`
abbrev pub expired_at : Option (ℕ × ℕ) → ℕ → Bool
expired_at none now = false
expired_at (some (renewed, seconds)) now = leb (renewed + seconds * 1000000000) now

unfoldable pub quarantine_expired : Reserved → ℕ → Bool
quarantine_expired r now = expired_at r.renewed now

abbrev pub is_not_found : Sentinel → Bool
is_not_found not_found = true
is_not_found _ = false

abbrev pub is_already_exists : Sentinel → Bool
is_already_exists already_exists = true
is_already_exists _ = false

-- The number of ports, 16384.
abbrev pub port_count : ℕ
port_count = provider_port_last - provider_port_first + 1

unfoldable pub probed_port : ℕ → ℕ → ℕ
probed_port start offset = provider_port_first + (start + offset) % port_count

-- What the pass of `Reserve` over the listed reservations ends with: the port that the lease has
-- already, or the ports that are taken.
pub data Listing : Type 0 where
  held : ℕ → Listing
  occupied : List ℕ → Listing

-- `-n`
abbrev minus : ℕ → ℤ
minus zero = pos 0
minus (suc n) = negsuc n

-- `until.Sub(now)`, which stops at the bounds of an int64.
abbrev duration_between : ℕ → ℕ → ℤ
duration_between until now =
    if leb now until
    then pos (if ltb (until - now) 9223372036854775807 then until - now else 9223372036854775807)
    else minus (if ltb (now - until) 9223372036854775808 then now - until else 9223372036854775808)

-- The sum of an int64 and a number below 2 ^ 63, which wraps around.
abbrev plus_int64 : ℤ → ℕ → ℤ
plus_int64 (pos d) n =
    if ltb (d + n) 9223372036854775808 then pos (d + n) else minus (18446744073709551616 - (d + n))
plus_int64 (negsuc d) n = if leb n d then negsuc (d - n) else pos (n - d - 1)

-- Division, which truncates towards 0.
abbrev quotient : ℤ → ℕ → ℤ
quotient (pos d) n = pos (d / n)
quotient (negsuc d) n = minus (suc d / n)

-- The conversion to an int32 that counts as below 1 where it wraps to 0 or below.
abbrev at_least_one : ℕ → ℕ
at_least_one seconds = if ltb seconds 1 || leb 2147483648 seconds then 1 else seconds

-- The duration of a quarantine in whole seconds, as an int32, and at least 1.
unfoldable pub quarantine_seconds : ℕ → ℕ → ℕ
quarantine_seconds until now =
    at_least_one
      (to_unsigned 32 (quotient (plus_int64 (duration_between until now) 999999999) 1000000000))

-- `metav1.NewMicroTime`, as the API server keeps it: in whole microseconds.
abbrev pub micro_time : ℕ → ℕ
micro_time t = t - t % 1000

abbrev pub in_quarantine : Reserved → ℕ → ℕ → Reserved
in_quarantine r until now = record r {
  labels = insert state_label "quarantine" r.labels;
  renewed = some (micro_time now, quarantine_seconds until now);
}

module _ {W : Type 0} (c : Client W) where
  unfoldable pub reservation_port : Reserved → Option ℕ
  reservation_port r = in_range (c.parse (label_of r port_label))

  -- The reservation is the active one of the lease.
  unfoldable pub is_active_of : Object → Reserved → Bool
  is_active_of lease r =
      label_of r lease_uid_label == c.label_value lease.uid
      && annotation_of r lease_uid_annotation == lease.uid
      && label_of r state_label == "active"

  unfoldable pub desired_reservation : Object → Object → ℕ → ℕ → Reserved
  desired_reservation lease gateway port now = record {
    name = "waycloak-pf-" ++ c.short_uid gateway.uid ++ "-" ++ c.itoa port;
    namespace = gateway.namespace;
    labels =
        (reservation_label, "true")
        ∷ (gateway_uid_label, c.label_value gateway.uid)
        ∷ (lease_uid_label, c.label_value lease.uid)
        ∷ (port_label, c.itoa port)
        ∷ (state_label, "active")
        ∷ [];
    annotations = (gateway_uid_annotation, gateway.uid) ∷ (lease_uid_annotation, lease.uid) ∷ [];
    holder = some lease.uid;
    acquired_at = some (micro_time now);
    renewed = none;
  }

  -- After the DELETE of an expired quarantine.
  unfoldable pub scan_removed :
      Exec (Traced W Call) Listing → Result (Unit {0}) → Exec (Traced W Call) Listing
  scan_removed rest (ok _) = rest
  scan_removed rest (err e) =
      if errors_is is_not_found e
      then rest
      else fail (wrap "remove expired provider port quarantine" e)

  -- One reservation of the gateway; `skip` goes on without its port, `take` with it.
  unfoldable pub scan_one :
      Object
      → ℕ
      → Reserved
      → Exec (Traced W Call) Listing
      → Exec (Traced W Call) Listing
      → Option ℕ
      → Exec (Traced W Call) Listing
  scan_one lease now r skip take none = fail (new "provider port reservation is malformed")
  scan_one lease now r skip take (some port) =
      if is_active_of lease r
      then pure (held port)
      else if label_of r state_label == "quarantine" && quarantine_expired r now
      then (do removed ← attempt (perform (delete r) (c.delete r)); scan_removed skip removed)
      else take

  abbrev pub with_port : Option ℕ → List ℕ → List ℕ
  with_port none taken = taken
  with_port (some port) taken = port ∷ taken

  -- The pass over the listed reservations.
  unfoldable pub scan : Object → Object → ℕ → List Reserved → List ℕ → Exec (Traced W Call) Listing
  scan lease gateway now [] taken = pure (occupied taken)
  scan lease gateway now (r ∷ rs) taken =
      let skip = scan lease gateway now rs taken in
      let take = scan lease gateway now rs (with_port (reservation_port r) taken) in
      if not (annotation_of r gateway_uid_annotation == gateway.uid)
      then skip
      else scan_one lease now r skip take (reservation_port r)

  abbrev pub holds_port : Object → Result Reserved → Bool
  holds_port lease (ok existing) = is_active_of lease existing
  holds_port lease (err e) = false

  unfoldable pub create_refused :
      Object → Object → ℕ → ℕ → Exec (Traced W Call) ℕ → Err → Exec (Traced W Call) ℕ
  create_refused lease gateway port now next e =
      if not (errors_is is_already_exists e)
      then fail (wrap "create provider port reservation" e)
      else do
        let wanted : Reserved = desired_reservation lease gateway port now
        existing ←
            attempt
              (perform (get wanted.namespace wanted.name) (c.get wanted.namespace wanted.name))
        if holds_port lease existing then pure port else next

  unfoldable pub create_answered :
      Object → Object → ℕ → ℕ → Exec (Traced W Call) ℕ → Result (Unit {0}) → Exec (Traced W Call) ℕ
  create_answered lease gateway port now next (ok _) = pure port
  create_answered lease gateway port now next (err e) = create_refused lease gateway port now next e

  -- The loop over the offsets; the first argument counts the offsets that are left.
  unfoldable pub create_loop : ℕ → Object → Object → ℕ → ℕ → List ℕ → ℕ → Exec (Traced W Call) ℕ
  create_loop zero lease gateway now start taken offset =
      fail (new "provider internal port range is exhausted")
  create_loop (suc n) lease gateway now start taken offset =
      let next = create_loop n lease gateway now start taken (offset + 1) in
      let port = probed_port start offset in
      if any (λ p. nat_eq p port) taken then next else do
        created ← attempt (
            perform (create (desired_reservation lease gateway port now))
              (c.create (desired_reservation lease gateway port now)))
        create_answered lease gateway port now next created

  unfoldable pub reserve_scanned : Object → Object → ℕ → Listing → Exec (Traced W Call) ℕ
  reserve_scanned lease gateway now (held port) = pure port
  reserve_scanned lease gateway now (occupied taken) =
      create_loop port_count lease gateway now
        (c.seed (gateway.uid ++ "/" ++ lease.uid) % port_count) taken 0

  abbrev pub gateway_labels : Object → List (String × String)
  gateway_labels gateway =
      (reservation_label, "true") ∷ (gateway_uid_label, c.label_value gateway.uid) ∷ []

  unfoldable pub reserve_port : Object → Object → Exec (Traced W Call) ℕ
  reserve_port lease gateway = do
    lift (
        reject_if
          (not c.is_set || lease.is_nil || gateway.is_nil || lease.uid == "" || gateway.uid == "")
          (new "exact lease and gateway identity are required for provider port allocation"))
    reservations ← wrapping "list provider port reservations" (
        perform (list gateway.namespace (gateway_labels gateway))
          (c.list gateway.namespace (gateway_labels gateway)))
    now ← observe c.now
    listing ← scan lease gateway now reservations []
    reserve_scanned lease gateway now listing

  -- `slices.DeleteFunc` keeps what the predicate refuses.
  unfoldable pub delete_where : (Reserved → Bool) → List Reserved → List Reserved
  delete_where p [] = []
  delete_where p (r ∷ rs) = let rest = delete_where p rs in if p r then rest else r ∷ rest

  unfoldable pub recovered_identity : Reserved → Option ℕ → Result Identity
  recovered_identity r none = err (new "provider port reservation identity is malformed")
  recovered_identity r (some port) =
      if annotation_of r gateway_uid_annotation == ""
        || not
            (label_of r gateway_uid_label == c.label_value (annotation_of r gateway_uid_annotation))
      then err (new "provider port reservation identity is malformed")
      else ok (record {
        gateway_uid = annotation_of r gateway_uid_annotation;
        gateway_namespace = r.namespace;
        port = port;
      })

  unfoldable pub recover_exact : List Reserved → Result Identity
  recover_exact [] = err (sentinel not_found)
  recover_exact (r ∷ []) = recovered_identity r (reservation_port r)
  recover_exact (r ∷ q ∷ rs) = err (new "expected one exact provider reservation")

  unfoldable pub recover : Object → String → Exec (Traced W Call) Identity
  recover lease gateway_namespace = do
    lift (
        reject_if (not c.is_set || lease.is_nil || lease.uid == "" || gateway_namespace == "")
          (new "exact lease identity and gateway namespace are required"))
    reservations ← wrapping "recover provider port reservation" (
        perform
          (list gateway_namespace
            ((reservation_label, "true") ∷ (lease_uid_label, c.label_value lease.uid) ∷ []))
          (c.list gateway_namespace
            ((reservation_label, "true") ∷ (lease_uid_label, c.label_value lease.uid) ∷ [])))
    lift (
        recover_exact (
          delete_where (λ r. not (annotation_of r lease_uid_annotation == lease.uid)) reservations))

  unfoldable pub quarantine_exact : ℕ → List Reserved → Exec (Traced W Call) (Unit {0})
  quarantine_exact until [] = pure tt
  quarantine_exact until (r ∷ []) = do
    now ← observe c.now
    wrapping "quarantine provider port reservation"
        (perform (patch (in_quarantine r until now)) (c.patch (in_quarantine r until now)))
  quarantine_exact until (r ∷ q ∷ rs) =
      fail (new "multiple provider port reservations exist for one lease UID")

  abbrev pub lease_labels : Object → Object → List (String × String)
  lease_labels lease gateway =
      (reservation_label, "true")
      ∷ (gateway_uid_label, c.label_value gateway.uid)
      ∷ (lease_uid_label, c.label_value lease.uid)
      ∷ []

  -- `Quarantine`. The source reads the clock for its last guard only when the others pass.
  unfoldable pub quarantine_port : Object → Object → ℕ → Exec (Traced W Call) (Unit {0})
  quarantine_port lease gateway until = do
    lift (
        reject_if
          (not c.is_set || lease.is_nil || gateway.is_nil || lease.uid == "" || gateway.uid == "")
          (new "exact provider reservation and future quarantine deadline are required"))
    checked ← observe c.now
    lift (
        reject_if (not (ltb checked until))
          (new "exact provider reservation and future quarantine deadline are required"))
    reservations ←
        perform (list gateway.namespace (lease_labels lease gateway))
          (c.list gateway.namespace (lease_labels lease gateway))
    quarantine_exact until (
        delete_where
          (λ r.
            not (annotation_of r gateway_uid_annotation == gateway.uid)
            || not (annotation_of r lease_uid_annotation == lease.uid))
          reservations)
