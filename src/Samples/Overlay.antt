-- ===== src/Samples/Overlay.antt =====
-- The overlay 10.8.0.0/29 with its first client address taken, and the theorem at it.
use waycloak.Prelude.{◌+◌, ◌-◌, ◌^◌, refl, String, [], ◌∷◌, arith}
use waycloak.Exec.{Result, ok}
use waycloak.Binding.Leases.{Prefix, v4, masked_address}
use waycloak.Allocation.{IsLowest, next, next-IsLowest}

abbrev parse : String → Result Prefix
parse cidr = ok (v4 168296449 29)

next-IsLowest_example :
    IsLowest
      (masked_address 168296449 29 + 2 ^ (32 - 29))
      (masked_address 168296449 29 + 2)
      (168296450 ∷ [])
      (next parse "10.8.0.1/29" (168296450 ∷ []))
next-IsLowest_example =
    next-IsLowest parse "10.8.0.1/29" (168296450 ∷ []) 168296449 29 refl (omega arith)
