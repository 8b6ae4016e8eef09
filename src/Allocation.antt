-- ===== src/Allocation.antt =====
-- internal/allocation/allocator.go: the lowest free client address of an overlay. Parsing a prefix
-- is a parameter; an IPv4 address is a number, and the used addresses are a list of them.
use native.Mathlib.Decide.{dec_lt}
use waycloak.Prelude.{
  subst, sym, ℕ, zero, suc, ◌+◌, ◌-◌, ◌^◌, ◌≤◌, ◌<◌, String, Bool, true, false, ◌≡◌, refl, ◌⊎◌, inl,
  inr, List, ltb, nat_eq, any, not, if◌then◌else◌, Bool-cases, arith,
}
use waycloak.Exec.{new, sentinel, overlay_exhausted, Result, ok, err}
use waycloak.Binding.Leases.{Prefix, v4, masked_address}

abbrev pub is_used : List ℕ → ℕ → Bool
is_used used a = any (λ u. nat_eq u a) used

-- The loop of `Next` from an address on; `limit` is the address behind the prefix. It takes fuel:
-- enough is what lies between the two.
unfoldable pub next_free : ℕ → ℕ → ℕ → List ℕ → Result ℕ
next_free zero limit a used = err (sentinel overlay_exhausted)
next_free (suc n) limit a used =
    let rest = next_free n limit (a + 1) used in
    if not (ltb a limit)
    then err (sentinel overlay_exhausted)
    else if ltb (a + 1) limit
    then (if not (is_used used a) then ok a else rest)
    else rest

abbrev next_in : Prefix → List ℕ → Result ℕ
next_in (v4 address bits) used =
    if ltb 30 bits
    then err (new "overlay CIDR has no client addresses")
    else next_free (2 ^ (32 - bits)) (masked_address address bits + 2 ^ (32 - bits))
        (masked_address address bits + 2) used
next_in _ used = err (new "invalid IPv4 overlay CIDR")

abbrev next_of : Result Prefix → List ℕ → Result ℕ
next_of (ok p) used = next_in p used
next_of (err e) used = err (new "invalid IPv4 overlay CIDR")

unfoldable pub next : (String → Result Prefix) → String → List ℕ → Result ℕ
next parse cidr used = next_of (parse cidr) used

abbrev gateway_in : Prefix → Result ℕ
gateway_in (v4 address bits) = ok (masked_address address bits + 1)
gateway_in _ = err (new "invalid IPv4 overlay CIDR")

-- `GatewayAddress`
unfoldable pub gateway_address : (String → Result Prefix) → String → Result ℕ
gateway_address parse cidr = elim (parse cidr) [
  | ok p ↦ gateway_in p
  | err e ↦ err (new "invalid IPv4 overlay CIDR")
]

-- The lowest free address from `a` on whose successor lies before `limit`, or that there is none.
abbrev pub IsLowest : ℕ → ℕ → List ℕ → Result ℕ → Type 0
IsLowest limit a used result =
    ((x : ℕ) × (result ≡ ok x)
      × (a ≤ x)
      × (x + 1 < limit)
      × (is_used used x ≡ false)
      × ((y : ℕ) → a ≤ y → y < x → is_used used y ≡ true))
    ⊎ ((result ≡ err (sentinel overlay_exhausted))
        × ((y : ℕ) → a ≤ y → y + 1 < limit → is_used used y ≡ true))

above : (a y : ℕ) → a ≤ y → (a ≡ y) ⊎ (a + 1 ≤ y)
above a y h = elim (dec_lt a y) [ yes lt ↦ inr (omega arith) | no ge ↦ inl (omega arith) ]

-- What holds of `a` under a condition and of every address above it holds from `a` on.
from_here :
    (a : ℕ) (used : List ℕ) (P : ℕ → Type 0)
    → (P a → is_used used a ≡ true)
    → ((y : ℕ) → a + 1 ≤ y → P y → is_used used y ≡ true)
    → (y : ℕ) → a ≤ y
    → P y
    → is_used used y ≡ true
from_here a used P h rest y l p = at_or_above (above a y l) p
  where
    at_or_above : (a ≡ y) ⊎ (a + 1 ≤ y) → P y → is_used used y ≡ true
    at_or_above (inl e) p = subst (λ z. is_used used z ≡ true) e (h (subst P (sym e) p))
    at_or_above (inr g) p = rest y g p

step_used :
    (a limit : ℕ) (used : List ℕ) (result : Result ℕ)
    → (a + 1 < limit → is_used used a ≡ true)
    → IsLowest limit (a + 1) used result
    → IsLowest limit a used result
step_used a limit used result h (inl (x, e, lo, hi, free, below)) =
    inl (x, e, omega arith, hi, free, from_here a used (λ y. y < x) (λ m. h (omega arith)) below)
step_used a limit used result h (inr (e, all)) =
    inr (e, from_here a used (λ y. y + 1 < limit) h all)

next_free-IsLowest :
    (n limit a : ℕ) (used : List ℕ)
    → limit ≤ a + n
    → IsLowest limit a used (next_free n limit a used)
unfolding next_free
next_free-IsLowest zero limit a used h = inr (refl, λ y l m. absurd (omega arith))
next_free-IsLowest (suc n) limit a used h =
    at_address (next_free-IsLowest n limit (a + 1) used (omega arith)) (Bool-cases (ltb a limit))
      (Bool-cases (ltb (a + 1) limit)) (Bool-cases (is_used used a))
  where
    at_address :
        IsLowest limit (a + 1) used (next_free n limit (a + 1) used)
        → (ltb a limit ≡ true) ⊎ (ltb a limit ≡ false)
        → (ltb (a + 1) limit ≡ true) ⊎ (ltb (a + 1) limit ≡ false)
        → (is_used used a ≡ true) ⊎ (is_used used a ≡ false)
        → IsLowest limit a used (next_free (suc n) limit a used)
    at_address rest (inr out) c u = rw out (inr (refl, λ y l m. absurd (ground (arith, out))))
    at_address rest (inl i) (inr c) u =
        rw (i, c) (step_used a limit used _ (λ m. absurd (ground (arith, c))) rest)
    at_address rest (inl i) (inl c) (inl u) = rw (i, c, u) (step_used a limit used _ (λ m. u) rest)
    at_address rest (inl i) (inl c) (inr u) =
        rw (i, c, u)
          (inl (a, refl, omega arith, ground (arith, c), u, λ y l m. absurd (omega arith)))

-- For an IPv4 overlay of at most 30 bits, Next always returns, and with the lowest address that is
-- not used among those behind the gateway address and before the broadcast address, or with the
-- exhaustion error when each of them is used.
pub next-IsLowest :
    (parse : String → Result Prefix) (cidr : String) (used : List ℕ) (address bits : ℕ)
    → parse cidr ≡ ok (v4 address bits)
    → bits ≤ 30
    → IsLowest
        (masked_address address bits + 2 ^ (32 - bits))
        (masked_address address bits + 2)
        used
        (next parse cidr used)
unfolding next
next-IsLowest parse cidr used address bits e h =
    let small : ltb 30 bits ≡ false = ground arith in
    subst
      (λ r.
        IsLowest (masked_address address bits + 2 ^ (32 - bits)) (masked_address address bits + 2)
          used (next_of r used))
      (sym e)
      (rw small (
        next_free-IsLowest (2 ^ (32 - bits)) (masked_address address bits + 2 ^ (32 - bits))
          (masked_address address bits + 2) used (omega arith)))
