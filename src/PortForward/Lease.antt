-- ===== src/PortForward/Lease.antt =====
-- IntentFor and WithdrawalFor of internal/portforward/runtime.go: what the controller asks of the
-- runtime for a lease.
use waycloak.Prelude.{
  ℕ, ◌≤◌, ◌%◌, ◌^◌, String, Bool, true, false, ◌&&◌, ◌||◌, not, ◌==◌, nat_eq, ltb, length, List,
  Option, none, some, ◌≡◌, refl, ◌⊎◌, inl, inr, if◌then◌else◌, arith,
}
use waycloak.Prelude.Int.{ℤ, pos, negsuc, ltb_ℤ, eq_ℤ, to_unsigned}
use waycloak.Exec.{Err, Result, ok, err, reject_if, and_then}
use waycloak.Dataplane.{Netip}
use waycloak.PortForward.Backend.{Candidate}
use waycloak.PortForward.Intent.{
  Addr, fixed, is_4, is_known_mode, provider_port_first, Gateway, Intent, WithdrawalIntent,
  runtime_api_version, validate_runtime_intent, validate_withdrawal, normalized_protocols,
}
use waycloak.PortForward.Manager.{Observation}
use waycloak.PortForward.Exact.{exact_observation, exact_withdrawal}

-- `ActiveLeaseEndpoint`, without its phase.
pub record ActiveEndpoint : Type 0 where
  pub service_uid : String
  pub endpoint_slice_uid : String
  pub pod_uid : String

-- The parts of a `PortForwardLease` that are read: `adapter_name` is the name of the application
-- adapter's reference, `public_port` the public port (an int32) of the provider's status.
pub record Lease : Type 0 where
  pub namespace : String
  pub uid : String
  pub protocols : List String
  pub adapter_name : Option String
  pub handoff_generation : ℤ
  pub active_endpoint : Option ActiveEndpoint
  pub public_port : Option ℤ

abbrev name_or_empty : Option String → String
name_or_empty none = ""
name_or_empty (some name) = name

unfoldable pub previous_port : Option ℤ → ℕ
previous_port none = 0
previous_port (some p) =
    if ltb_ℤ (pos 0) p && not (ltb_ℤ (pos 65535) p) then to_unsigned 16 p else 0

abbrev endpoint_or_empty : Option ActiveEndpoint → ActiveEndpoint
endpoint_or_empty none = record { service_uid = ""; endpoint_slice_uid = ""; pod_uid = "" }
endpoint_or_empty (some e) = e

-- `WithdrawalFor`
unfoldable pub withdrawal_for : Lease → Gateway → WithdrawalIntent
withdrawal_for l g = record {
  api_version = runtime_api_version;
  lease_namespace = l.namespace;
  lease_uid = l.uid;
  gateway_uid = g.uid;
  handoff_generation = l.handoff_generation;
  service_uid = (endpoint_or_empty l.active_endpoint).service_uid;
  endpoint_slice_uid = (endpoint_or_empty l.active_endpoint).endpoint_slice_uid;
  pod_uid = (endpoint_or_empty l.active_endpoint).pod_uid;
  application_endpoint_retired = false;
  release_provider = false;
  provider_internal_port = 0;
  previous_public_port = previous_port l.public_port;
  protocols = l.protocols;
  adapter_name = name_or_empty l.adapter_name;
}

-- `IntentFor`, where `view` reads an address of the candidate as one of the runtime's messages.
unfoldable pub intent_for :
    {n : Netip} → (n.Addr → Addr) → Lease → Gateway → Candidate n → ℤ → Intent
intent_for view l g c generation = record {
  api_version = runtime_api_version;
  lease_namespace = l.namespace;
  lease_uid = l.uid;
  gateway_uid = g.uid;
  handoff_generation = generation;
  service_uid = c.service_uid;
  endpoint_slice_uid = c.endpoint_slice_uid;
  pod_uid = c.pod_uid;
  binding_uid = c.binding_uid;
  provider_internal_port = 0;
  previous_public_port = previous_port l.public_port;
  overlay_address = view c.overlay_address;
  application_address = view c.application_address;
  backend_port = c.target_port;
  target_port = c.target_port;
  protocols = l.protocols;
  adapter_name = name_or_empty l.adapter_name;
  application_port_mode = fixed;
}

-- For every int32 of the provider's status, or none, the previous public port that both messages carry
-- fits a uint16, and is 0 or the very port of the status: the conversion never wraps.
pub previous_port_lem :
    (p : Option ℤ)
    → ((previous_port p ≡ 0) ⊎ (p ≡ some (pos (previous_port p)))) × (previous_port p ≤ 65535)
unfolding previous_port
previous_port_lem none = (inl refl, omega arith)
previous_port_lem (some (negsuc p)) =
    outside (ltb_ℤ (pos 0) (negsuc p) && not (ltb_ℤ (pos 65535) (negsuc p)))
      (to_unsigned 16 (negsuc p)) (ground arith)
  where
    outside :
        (b : Bool) (x : ℕ)
        → b ≡ false
        → (((if b then x else 0) ≡ 0) ⊎ (some (negsuc p) ≡ some (pos (if b then x else 0))))
          × ((if b then x else 0) ≤ 65535)
    outside true x h = cc
    outside false x h = (inl refl, omega arith)
previous_port_lem (some (pos p)) =
    within (ltb_ℤ (pos 0) (pos p) && not (ltb_ℤ (pos 65535) (pos p))) (λ e. ground arith)
  where
    kept : (p : ℕ) → p ≤ 65535 → p % 2 ^ 16 ≡ p
    kept p h = omega arith

    within :
        (b : Bool)
        → (b ≡ true → p ≤ 65535)
        → (((if b then to_unsigned 16 (pos p) else 0) ≡ 0)
            ⊎ (some (pos p) ≡ some (pos (if b then to_unsigned 16 (pos p) else 0))))
          × ((if b then to_unsigned 16 (pos p) else 0) ≤ 65535)
    within true h = rw (kept p (h refl)) (inr refl, h refl)
    within false h = (inl refl, omega arith)

-- The status of the lease names the candidate as its endpoint, at the generation of the intent.
abbrev pub Serving : {n : Netip} → Lease → Candidate n → ℤ → Type 0
Serving l c generation =
    (l.handoff_generation ≡ generation)
    × (l.active_endpoint
        ≡ some (record {
          service_uid = c.service_uid;
          endpoint_slice_uid = c.endpoint_slice_uid;
          pod_uid = c.pod_uid;
        }))

-- For a lease whose status names the candidate at the intent's generation, an observation is exact for
-- the withdrawal exactly when it is exact for the intent and says that the lease is withdrawn.
pub withdrawal_for-Exact :
    {n : Netip} (view : n.Addr → Addr) (l : Lease) (g : Gateway) (c : Candidate n) (generation : ℤ)
    (o : Observation)
    → Serving l c generation
    → exact_withdrawal o (withdrawal_for l g)
      ≡ (exact_observation o (intent_for view l g c generation) && o.withdrawn)
unfolding exact_withdrawal exact_observation withdrawal_for intent_for
withdrawal_for-Exact view l g c generation o (same, active) =
    rw (same, active)
      (regrouped (o.api_version == runtime_api_version) (o.lease_uid == l.uid)
        (o.gateway_uid == g.uid) (eq_ℤ o.handoff_generation generation) (o.pod_uid == c.pod_uid)
        (not (nat_eq o.observed_at 0)) o.withdrawn)
  where
    regrouped :
        (a b c d e f w : Bool)
        → (a && b && c && d && e && f && w) ≡ ((a && b && c && d && e && f) && w)
    regrouped a b c d e f w = ground arith

passed :
    {X : Type 0} (b : Bool) (e : Err) (r : Result (Unit {0}))
    → and_then (reject_if b e) (λ _. r) ≡ ok tt
    → (b ≡ false → r ≡ ok tt → X)
    → X
passed true e r h k = absurd (failed h)
  where
    failed : {e : Err} → err e ≡ ok tt → ⊥
    failed h = cc
passed false e r h k = k refl h

-- The condition of `ValidateRuntimeIntent`, without its protocols.
abbrev is_invalid_intent : Gateway → Intent → Bool
is_invalid_intent g i =
    g.is_nil
    || g.uid == ""
    || not (i.api_version == runtime_api_version)
    || i.lease_namespace == ""
    || i.lease_uid == ""
    || not (i.gateway_uid == g.uid)
    || ltb_ℤ i.handoff_generation (pos 1)
    || i.service_uid == ""
    || i.endpoint_slice_uid == ""
    || i.pod_uid == ""
    || i.binding_uid == ""
    || ltb i.provider_internal_port provider_port_first
    || nat_eq i.backend_port 0
    || nat_eq i.target_port 0
    || not (is_4 i.overlay_address)
    || not (is_4 i.application_address)
    || nat_eq (length i.protocols) 0
    || not (is_known_mode i.application_port_mode)

-- The condition of `validateWithdrawal`.
abbrev is_invalid_withdrawal : Gateway → WithdrawalIntent → Bool
is_invalid_withdrawal g i =
    g.is_nil
    || g.uid == ""
    || not (i.api_version == runtime_api_version)
    || i.lease_namespace == ""
    || i.lease_uid == ""
    || not (i.gateway_uid == g.uid)
    || ltb_ℤ i.handoff_generation (pos 1)
    || i.pod_uid == ""
    || i.release_provider
      && (ltb i.provider_internal_port provider_port_first || nat_eq (length i.protocols) 0)

intent_passed :
    (g : Gateway) (i : Intent)
    → validate_runtime_intent g i ≡ ok tt
    → (is_invalid_intent g i ≡ false)
      × (and_then (normalized_protocols i.protocols) (λ _. ok tt) ≡ ok tt)
unfolding validate_runtime_intent
intent_passed g i h = passed (is_invalid_intent g i) _ _ h (λ valid protocols. (valid, protocols))

withdrawal_allowed :
    (g : Gateway) (i : WithdrawalIntent)
    → is_invalid_withdrawal g i ≡ false
    → and_then (normalized_protocols i.protocols) (λ _. ok tt) ≡ ok tt
    → validate_withdrawal g i ≡ ok tt
unfolding validate_withdrawal
withdrawal_allowed g i valid protocols = rw valid (either i.release_provider _ protocols)
  where
    either : (b : Bool) (r : Result (Unit {0})) → r ≡ ok tt → (if b then r else ok tt) ≡ ok tt
    either true r h = h
    either false r h = refl

-- An intent for a lease that the runtime accepts, with the port that was reserved for it, stays one
-- that it accepts to withdraw and to release: with a status that names the candidate at the intent's
-- generation, the withdrawal for the lease is valid, and so is its release of that port.
pub accepted_withdrawal :
    {n : Netip} (view : n.Addr → Addr) (l : Lease) (g : Gateway) (c : Candidate n) (generation : ℤ)
    (port : ℕ)
    → Serving l c generation
    → validate_runtime_intent g
        (record (intent_for view l g c generation) { provider_internal_port = port })
      ≡ ok tt
    → (validate_withdrawal g (withdrawal_for l g) ≡ ok tt)
      × (validate_withdrawal g
            (record (withdrawal_for l g) { release_provider = true; provider_internal_port = port })
          ≡ ok tt)
unfolding withdrawal_for intent_for
accepted_withdrawal view l g c generation port (same, active) h =
    rw (same, active)
      (
        withdrawal_allowed g _ (valid false 0 (λ r. cc)) protocols,
        withdrawal_allowed g _ (valid true port (λ r. refl)) protocols,
      )
  where
    checked :
        (is_invalid_intent g
            (record (intent_for view l g c generation) { provider_internal_port = port })
          ≡ false)
        × (and_then (normalized_protocols l.protocols) (λ _. ok tt) ≡ ok tt)
    checked = intent_passed g _ h

    relaxed :
        (a b d e f h i s u j v p q r x y m o release low : Bool)
        → (a || b || d || e || f || h || i || s || u || j || v || p || q || r || x || y || m || o)
          ≡ false
        → (release ≡ true → low ≡ p)
        → (a || b || d || e || f || h || i || j || release && (low || m)) ≡ false
    relaxed a b d e f h i s u j v p q r x y m o release low k same = ground arith

    valid :
        (release : Bool) (own : ℕ)
        → (release ≡ true → own ≡ port)
        → (g.is_nil
            || g.uid == ""
            || not (runtime_api_version == runtime_api_version)
            || l.namespace == ""
            || l.uid == ""
            || not (g.uid == g.uid)
            || ltb_ℤ generation (pos 1)
            || c.pod_uid == ""
            || release && (ltb own provider_port_first || nat_eq (length l.protocols) 0))
          ≡ false
    valid release own same_port =
        relaxed g.is_nil (g.uid == "") (not (runtime_api_version == runtime_api_version))
          (l.namespace == "") (l.uid == "") (not (g.uid == g.uid)) (ltb_ℤ generation (pos 1))
          (c.service_uid == "") (c.endpoint_slice_uid == "") (c.pod_uid == "") (c.binding_uid == "")
          (ltb port provider_port_first) (nat_eq c.target_port 0) (nat_eq c.target_port 0)
          (not (is_4 (view c.overlay_address))) (not (is_4 (view c.application_address)))
          (nat_eq (length l.protocols) 0) (not (is_known_mode fixed)) release
          (ltb own provider_port_first) checked.0 (λ r. rw (same_port r) refl)

    protocols : and_then (normalized_protocols l.protocols) (λ _. ok tt) ≡ ok tt
    protocols = checked.1
