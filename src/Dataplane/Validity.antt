-- ===== src/Dataplane/Validity.antt =====
-- What a configuration that passes `Validate` (internal/dataplane/dataplane.go) is like.
use waycloak.Prelude.{
  ℕ, ◌≤◌, String, Bool, true, false, ◌≡◌, refl, List, [], ◌∷◌, arith, ◌==◌, not, if◌then◌else◌,
  contains, any, ◌||◌, nat_eq, ltb,
}
use waycloak.Exec.{Err, Result, ok, err, and_then, new}
use waycloak.Dataplane.{
  Netip, Config, Redirect, Match, seen, is_below, is_invalid_redirect, validate_protocols,
  validate_redirects, validate, is_cluster_traffic_mode,
}

-- No target port is claimed twice for one protocol.
abbrev pub DistinctTargets : List Match → Type 0
DistinctTargets [] = Unit
DistinctTargets (m ∷ ms) = (seen ms m ≡ false) × DistinctTargets ms

abbrev pub DistinctNames : List String → Type 0
DistinctNames [] = Unit
DistinctNames (x ∷ xs) = (contains xs x ≡ false) × DistinctNames xs

-- The claims of a redirect, put before others.
abbrev pub add_claims : ℕ → List String → List Match → List Match
add_claims port [] ms = ms
add_claims port (p ∷ ps) ms = add_claims port ps ((port, p) ∷ ms)

-- The claims of all redirects, the last one's first.
abbrev pub claims : List Redirect → List Match → List Match
claims [] ms = ms
claims (r ∷ rs) ms = claims rs (add_claims r.target_port r.protocols ms)

abbrev pub identities : List Redirect → List String → List String
identities [] xs = xs
identities (r ∷ rs) xs = identities rs (r.identity ∷ xs)

abbrev pub AllValid : List Redirect → Type 0
AllValid [] = Unit
AllValid (r ∷ rs) = (is_invalid_redirect r ≡ false) × AllValid rs

-- A guard that returns an error was not taken where the result is no error.
guard_ok :
    {A : Type 0} (b : Bool) (e : Err) (r : Result A) (a : A)
    → (if b then err e else r) ≡ ok a
    → (b ≡ false) × (r ≡ ok a)
guard_ok true e r a h = ground arith
guard_ok false e r a h = (refl, h)

protocols_ok :
    (port : ℕ) (ps : List String) (ms out : List Match)
    → DistinctTargets ms
    → validate_protocols port ps ms ≡ ok out
    → DistinctTargets out × (out ≡ add_claims port ps ms)
unfolding validate_protocols
protocols_ok port [] ms out d h = let e : out ≡ ms = grind arith in rw e (d, refl)
protocols_ok port (p ∷ ps) ms out d h =
    let known = guard_ok _ _ _ out h in
    let fresh = guard_ok _ _ _ out known.1 in
    protocols_ok port ps ((port, p) ∷ ms) out (fresh.0, d) fresh.1

and_then_ok :
    {A B : Type 0} (r : Result A) (f : A → Result B) (b : B)
    → and_then r f ≡ ok b
    → (a : A) × (r ≡ ok a) × (f a ≡ ok b)
and_then_ok (ok a) f b h = (a, refl, h)
and_then_ok (err e) f b h = ground arith

redirects_ok :
    (rs : List Redirect) (xs : List String) (ms : List Match)
    → DistinctNames xs
    → DistinctTargets ms
    → validate_redirects rs xs ms ≡ ok tt
    → AllValid rs × DistinctNames (identities rs xs) × DistinctTargets (claims rs ms)
unfolding validate_redirects
redirects_ok [] xs ms dx dm h = (tt, dx, dm)
redirects_ok (r ∷ rs) xs ms dx dm h =
    let valid = guard_ok _ _ _ tt h in
    let fresh = guard_ok _ _ _ tt valid.1 in
    let (more, claimed, then_ok) = and_then_ok _ _ tt fresh.1 in
    let kept = protocols_ok r.target_port r.protocols ms more dm claimed in
    let rest = redirects_ok rs (r.identity ∷ xs) more (fresh.0, dx) kept.0 then_ok in
    ((valid.0, rest.0), rest.1, rw (kept.1) at (rest.2))

last_false : (a b : Bool) → (a || b) ≡ false → b ≡ false
last_false true b h = ground arith
last_false false b h = h

vni_range : (v : ℕ) → (nat_eq v 0 || ltb 16777215 v) ≡ false → (1 ≤ v) × (v ≤ 16777215)
vni_range v h = ground arith

module _ (n : Netip) where
  abbrev is_foreign_address : Config n → Bool
  is_foreign_address c =
      not (n.prefix_is_valid c.address)
      || not (n.prefix_is_valid c.overlay_cidr)
      || not (nat_eq (n.bits c.address) (n.bits c.overlay_cidr))
      || not (n.contains c.overlay_cidr (n.addr c.address))

  abbrev is_bad_gateway : Config n → Bool
  is_bad_gateway c =
      not (n.addr_is_valid c.gateway_address)
      || not (n.contains c.overlay_cidr c.gateway_address)
      || n.addr_eq c.gateway_address (n.addr c.address)

  -- A configuration that Validate accepts names its Pod, has a VNI of 24 bits that is not 0, an MTU
  -- of at least 576, a gateway that is not the workload's own address, and redirects that are valid,
  -- with distinct identities, and of which no two claim one target port for one protocol.
  pub validate_sound :
      (c : Config n)
      → validate n c ≡ ok tt
      → (c.pod_uid == "" ≡ false)
        × (n.addr_eq c.gateway_address (n.addr c.address) ≡ false)
        × ((1 ≤ c.vni) × (c.vni ≤ 16777215))
        × (is_below c.mtu 576 ≡ false)
        × AllValid c.redirects
        × DistinctNames (identities c.redirects [])
        × DistinctTargets (claims c.redirects [])
  unfolding validate
  validate_sound c h =
      let uid = guard_ok (c.pod_uid == "") _ _ tt h in
      let address =
        guard_ok (is_foreign_address c) (new "allocated address must belong to the overlay CIDR") _
          tt uid.1 in
      let gateway =
        guard_ok (is_bad_gateway c)
          (new "gateway address must be a different address in the overlay CIDR") _ tt address.1 in
      let endpoint =
        guard_ok
          (not (n.addr_port_is_valid c.gateway_endpoint) || nat_eq (n.port c.gateway_endpoint) 0)
          (new "gateway underlay endpoint is required") _ tt gateway.1 in
      let health =
        guard_ok (nat_eq c.gateway_health_port 0)
          (new "observed gateway overlay health port is required") _ tt endpoint.1 in
      let vni =
        guard_ok (nat_eq c.vni 0 || ltb 16777215 c.vni) (new "VNI must be between 1 and 16777215") _
          tt health.1 in
      let mtu = guard_ok (is_below c.mtu 576) (new "MTU must be at least 576") _ tt vni.1 in
      let mode =
        guard_ok (not (is_cluster_traffic_mode c.cluster_traffic_mode))
          (new "unknown cluster traffic mode") _ tt mtu.1 in
      let cidrs =
        guard_ok (any (λ p. not (n.prefix_is_valid p)) c.cluster_cidrs)
          (new "cluster CIDRs must be valid") (validate_redirects c.redirects [] []) tt mode.1 in
      let good = redirects_ok c.redirects [] [] tt tt cidrs.1 in
      (
        uid.0,
        last_false
            (not (n.addr_is_valid c.gateway_address)
              || not (n.contains c.overlay_cidr c.gateway_address))
            _ gateway.0,
        vni_range c.vni vni.0,
        mtu.0,
        good.0,
        good.1,
        good.2,
      )
