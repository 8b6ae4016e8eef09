-- ===== src/Binding/Overlay.antt =====
-- `ParseOverlayCIDR` and `ReservationForBinding` of internal/binding/allocation.go.
use waycloak.Prelude.{◌-◌, ◌^◌, ◌%◌, String, ◌==◌, List, [], ◌∷◌, Option, none, some, if◌then◌else◌}
use waycloak.Exec.{new, Result, ok, err, and_then, wrap_result}
use waycloak.Binding.Leases.{Prefix, invalid, v4, v6, masked_address}
use waycloak.Binding.Allocator.{Cluster, WorkloadBinding, reservation_name}

pub record GatewayAddress : Type 0 where
  pub kind : String
  pub value : String

abbrev pub overlay_cidr_kind : String
overlay_cidr_kind = "networking.waycloak.io/OverlayCIDR"

-- `Prefix.Masked`
abbrev pub masked : Prefix → Prefix
masked invalid = invalid
masked (v4 address bits) = v4 (masked_address address bits) bits
masked (v6 address bits) = v6 (address - address % 2 ^ (128 - bits)) bits

pub record ReservationKey : Type 0 where
  pub name : String
  pub namespace : String

module _ {W : Type 0} (c : Cluster W) where
  -- The loop over the observed addresses.
  unfoldable pub find_overlay : List GatewayAddress → Result Prefix
  find_overlay [] = err (new "gateway has no observed overlay CIDR")
  find_overlay (a ∷ rest) =
      if a.kind == overlay_cidr_kind
      then and_then (wrap_result "parse observed gateway overlay CIDR" (c.parse_prefix a.value))
          (λ p. ok (masked p))
      else find_overlay rest

  -- `ParseOverlayCIDR`: none for a gateway that is nil.
  unfoldable pub parse_overlay_cidr : Option (List GatewayAddress) → Result Prefix
  parse_overlay_cidr none = err (new "gateway is required")
  parse_overlay_cidr (some addresses) = find_overlay addresses

  -- `ReservationForBinding`
  unfoldable pub reservation_for_binding : WorkloadBinding → Result ReservationKey
  reservation_for_binding b =
      if b.is_nil
      then err (new "binding is required")
      else and_then (wrap_result "parse binding allocation address" (c.parse_prefix b.address)) λ p.
        ok (record {
          name = reservation_name c b.gateway_uid (c.prefix_string p);
          namespace = b.gateway_namespace;
        })
