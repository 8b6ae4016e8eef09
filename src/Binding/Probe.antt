-- ===== src/Binding/Probe.antt =====
-- The probe order of `Reserve` in internal/binding/allocation.go: its uint32 arithmetic.
use native.Mathlib.Nat.{mod-eq_of_lt, mod-eq-sub-mod, mod-lt, div-add-mod, mul-add, mul-suc}
use native.Mathlib.Decide.{dec_lt}
use waycloak.Prelude.{
  ℕ, zero, suc, ◌+◌, ◌-◌, ◌*◌, ◌/◌, ◌^◌, ◌%◌, ◌≤◌, ◌<◌, ◌⊎◌, inl, inr, ◌≡◌, refl, ap, arith, ◌∙◌,
}
use waycloak.Binding.Leases.{masked_address}
use waycloak.Binding.Allocator.{usable, probe_offset, probe_address}

-- What holds of the size of a pool between /16 and /29.
abbrev Facts : ℕ → Type 0
Facts size = (8 ≤ size) × (size ≤ 65536) × ((k : ℕ) × (size * k ≡ 4294967296))

power-Facts : (d : ℕ) → d ≤ 13 → Facts (2 ^ (16 - d))
power-Facts zero h = (omega arith, omega arith, (65536, refl))
power-Facts (suc zero) h = (omega arith, omega arith, (131072, refl))
power-Facts (suc (suc zero)) h = (omega arith, omega arith, (262144, refl))
power-Facts (suc (suc (suc zero))) h = (omega arith, omega arith, (524288, refl))
power-Facts (suc (suc (suc (suc zero)))) h = (omega arith, omega arith, (1048576, refl))
power-Facts (suc (suc (suc (suc (suc zero))))) h = (omega arith, omega arith, (2097152, refl))
power-Facts (suc (suc (suc (suc (suc (suc zero)))))) h = (omega arith, omega arith, (4194304, refl))
power-Facts (suc (suc (suc (suc (suc (suc (suc zero))))))) h =
    (omega arith, omega arith, (8388608, refl))
power-Facts (suc (suc (suc (suc (suc (suc (suc (suc zero)))))))) h =
    (omega arith, omega arith, (16777216, refl))
power-Facts (suc (suc (suc (suc (suc (suc (suc (suc (suc zero))))))))) h =
    (omega arith, omega arith, (33554432, refl))
power-Facts (suc (suc (suc (suc (suc (suc (suc (suc (suc (suc zero)))))))))) h =
    (omega arith, omega arith, (67108864, refl))
power-Facts (suc (suc (suc (suc (suc (suc (suc (suc (suc (suc (suc zero))))))))))) h =
    (omega arith, omega arith, (134217728, refl))
power-Facts (suc (suc (suc (suc (suc (suc (suc (suc (suc (suc (suc (suc zero)))))))))))) h =
    (omega arith, omega arith, (268435456, refl))
power-Facts (suc (suc (suc (suc (suc (suc (suc (suc (suc (suc (suc (suc (suc zero))))))))))))) h =
    (omega arith, omega arith, (536870912, refl))
power-Facts (suc (suc (suc (suc (suc (suc (suc (suc (suc (suc (suc (suc (suc (suc d))))))))))))))
      h =
    absurd (omega arith)

pool-Facts : (bits : ℕ) → 16 ≤ bits → bits ≤ 29 → Facts (2 ^ (32 - bits))
pool-Facts bits lo hi =
    let e : 32 - bits ≡ 16 - (bits - 16) = omega arith in
    rw e (power-Facts (bits - 16) (omega arith))

-- A sum below twice the modulus wraps at most once.
wrap_once : (x n : ℕ) → n ≤ x → x < n + n → x % n ≡ x - n
wrap_once x n lo hi = mod-eq-sub-mod lo ∙ mod-eq_of_lt (omega arith)

usable_lem : (bits : ℕ) → 16 ≤ bits → bits ≤ 29 → usable bits + 3 ≡ 2 ^ (32 - bits)
unfolding usable
usable_lem bits lo hi = omega (arith, pool-Facts bits lo hi)

-- A block of a size that divides 2 ^ 32 and that starts below 2 ^ 32 ends there at the latest.
multiple_fits : (size q k : ℕ) → size * q < size * k → size * q + size ≤ size * k
multiple_fits size q k h = elim (dec_lt q k) [
  | yes lt ↦
      let e : k ≡ q + suc (k - q - 1) = omega arith in
      omega
        (arith, ap (λ n. size * n) e, mul-add size q (suc (k - q - 1)), mul-suc size (k - q - 1))
  | no nlt ↦
      let e : q ≡ k + (q - k) = omega arith in
      absurd (omega (arith, ap (λ n. size * n) e, mul-add size k (q - k)))
]

base_fits :
    (address size k : ℕ)
    → 0 < size
    → size * k ≡ 4294967296
    → address < 4294967296
    → address - address % size + size ≤ 4294967296
base_fits address size k p e h =
    omega (arith, div-add-mod address size, multiple_fits size (address / size) k)

-- For an offset into a pool of at least `count` addresses: start + attempt reduced modulo count is
-- below count.
offset_lem :
    (start count n : ℕ)
    → 0 < count
    → count < 65536
    → start < count
    → n < count
    → probe_offset start count n ≡ 2 + (start + n) % count
unfolding probe_offset
offset_lem start count n p b hs hn =
    let e : (start + n) % 4294967296 ≡ start + n = mod-eq_of_lt (omega arith) in
    rw e (mod-eq_of_lt (omega (arith, mod-lt (start + n) p)))

-- In a pool between /16 and /29 of a 32-bit address, with a start and a round below the number of
-- client addresses, the address that Reserve probes lies in the pool, above the network address
-- and the gateway's (the first one) and below the broadcast address: the uint32 sums do not wrap.
pub probe-InPool :
    (address bits start n : ℕ)
    → 16 ≤ bits
    → bits ≤ 29
    → address < 2 ^ 32
    → start < usable bits
    → n < usable bits
    → (masked_address address bits + 1
        < probe_address (masked_address address bits) start (usable bits) n)
      × (probe_address (masked_address address bits) start (usable bits) n + 1
          < masked_address address bits + 2 ^ (32 - bits))
unfolding probe_address
probe-InPool address bits start n lo hi ha hs hn =
    let size = pool-Facts bits lo hi in
    let total = usable_lem bits lo hi in
    let top = base_fits address (2 ^ (32 - bits)) size.2.0 (omega (arith, size.0)) size.2.1 ha in
    let o = offset_lem start (usable bits) n (omega arith) (omega (arith, size.1)) hs hn in
    let r = mod-lt (start + n) {m = usable bits} (omega arith) in
    let w : (masked_address address bits + (2 + (start + n) % usable bits)) % 4294967296
        ≡ masked_address address bits + (2 + (start + n) % usable bits) =
      mod-eq_of_lt (omega arith) in
    rw (o, w) (omega arith, omega arith)

-- Rounds below `count` rotate the pool by `start`.
rotation :
    (start count n : ℕ)
    → start < count
    → n < count
    → ((start + n < count) × ((start + n) % count ≡ start + n))
      ⊎ ((count ≤ start + n) × ((start + n) % count ≡ start + n - count))
rotation start count n hs hn = elim (dec_lt (start + n) count) [
  | yes lt ↦ inl (lt, mod-eq_of_lt lt)
  | no ge ↦ inr (omega arith, wrap_once (start + n) count (omega arith) (omega arith))
]

round_of :
    (start count r : ℕ)
    → start < count
    → r < count
    → (n : ℕ) × (n < count) × ((start + n) % count ≡ r)
round_of start count r hs hr = elim (dec_lt r start) [
  | yes lt ↦ (
    r + count - start,
    omega arith,
    wrap_once (start + (r + count - start)) count (omega arith) (omega arith) ∙ omega arith,
  )
  | no ge ↦ (r - start, omega arith, mod-eq_of_lt (omega arith) ∙ omega arith)
]

round_unique :
    (start count n m : ℕ)
    → start < count
    → n < count
    → m < count
    → (start + n) % count ≡ (start + m) % count
    → m ≡ n
round_unique start count n m hs hn hm e =
    ground (arith, rotation start count n hs hn, rotation start count m hs hm)

-- In a pool between /16 and /29, with a start below the number of client addresses, each offset of
-- a client address is probed in exactly one of that many rounds.
pub probe-Once :
    (bits start o : ℕ)
    → 16 ≤ bits
    → bits ≤ 29
    → start < usable bits
    → 2 ≤ o
    → o < usable bits + 2
    → (n : ℕ) × (n < usable bits)
      × (probe_offset start (usable bits) n ≡ o)
      × ((m : ℕ) → m < usable bits → probe_offset start (usable bits) m ≡ o → m ≡ n)
probe-Once bits start o lo hi hs h2 ho =
    let total = usable_lem bits lo hi in
    let size = pool-Facts bits lo hi in
    let offset : (m : ℕ)
        → m < usable bits
        → probe_offset start (usable bits) m ≡ 2 + (start + m) % usable bits =
      λ m hm. offset_lem start (usable bits) m (omega arith) (omega (arith, size.1)) hs hm in
    let (n, hn, e) = round_of start (usable bits) (o - 2) hs (omega arith) in
    (
      n,
      hn,
      omega (arith, offset n hn),
      λ m hm em. round_unique start (usable bits) n m hs hn hm (omega (arith, offset m hm)),
    )
