-- ===== src/Prelude/Order.antt =====
-- Go's order on strings.
use Prim.Native.Nat.{Ordering}
use Prim.Native.String.{String, compare, ◌∷◌, []}
use Prim.Native.String.compare
use Prim.Native.Char.{Char, code}
use mathlib.Core.Path.{◌≡◌, refl}
use mathlib.Core.Bool.{Bool, true, false, ◌||◌, ◌&&◌}
use native.Mathlib.Omega.{arith}
use text.Mathlib.TextEquality.{codes_equal}
use text.Mathlib.TextPositions.{compare_refl}
use waycloak.Prelude.Tests.{ltb, nat_eq}

abbrev is_lt : Ordering → Bool
is_lt Ordering.lt = true
is_lt _ = false

unfoldable pub string_lt : String → String → Bool
string_lt a b = is_lt (compare a b)

string_lt-nil : (d : Char) (b : String) → string_lt [] (d ∷ b) ≡ true
unfolding string_lt
string_lt-nil d b = rw (compare.nil-cons d b) refl

string_lt-end : (a : String) → string_lt a [] ≡ false
unfolding string_lt
string_lt-end [] = refl
string_lt-end (c ∷ a) = rw (compare.cons-nil c a) refl

string_lt-cons :
    (x y : Char) (a b : String)
    → string_lt (x ∷ a) (y ∷ b)
      ≡ (ltb (code x) (code y) || (nat_eq (code x) (code y) && string_lt a b))
unfolding string_lt
string_lt-cons x y a b = rw (compare.cons-cons x y a b) (ground arith)

pub string_lt_trans :
    (a b c : String) → string_lt a b ≡ true → string_lt b c ≡ true → string_lt a c ≡ true
string_lt_trans a b [] h g = ground (arith, string_lt-end b)
string_lt_trans [] b (z ∷ c) h g = string_lt-nil z c
string_lt_trans (x ∷ a) [] (z ∷ c) h g = ground (arith, string_lt-end (x ∷ a))
string_lt_trans (x ∷ a) (y ∷ b) (z ∷ c) h g = ground (
  arith,
  string_lt-cons x y a b,
  string_lt-cons y z b c,
  string_lt-cons x z a c,
  string_lt_trans a b c,
)

pub string_lt_irrefl : (a : String) → string_lt a a ≡ false
unfolding string_lt
string_lt_irrefl a = rw (compare_refl a) refl

pub string_lt_total : (a b : String) → string_lt a b ≡ false → string_lt b a ≡ false → a ≡ b
string_lt_total [] [] h g = refl
string_lt_total [] (y ∷ b) h g = ground (arith, string_lt-nil y b)
string_lt_total (x ∷ a) [] h g = ground (arith, string_lt-nil x a)
string_lt_total (x ∷ a) (y ∷ b) h g = λ i.
    codes_equal x y (ground (arith, string_lt-cons x y a b, string_lt-cons y x b a)) i
    ∷ string_lt_total a b (ground (arith, string_lt-cons x y a b, string_lt-cons y x b a))
        (ground (arith, string_lt-cons x y a b, string_lt-cons y x b a)) i
