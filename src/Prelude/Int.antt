-- ===== src/Prelude/Int.antt =====
-- Go's `int`: signed integers over the native numbers, and 64-bit wrap-around.
use api_test.Prelude.{
  ℕ, suc, ◌+◌, ◌-◌, ◌*◌, ◌/◌, ◌%◌, ◌^◌, ◌≤◌, ◌<◌, ◌≡◌, refl, Bool, true, false, arith, ltb, leb,
  if◌then◌else◌,
}

-- `negsuc n` is -(n + 1).
pub data ℤ : Type 0 where
  pos : ℕ → ℤ
  negsuc : ℕ → ℤ

abbrev pub pos_part : ℤ → ℕ
pos_part (pos n) = n
pos_part (negsuc n) = 0

abbrev pub neg_part : ℤ → ℕ
neg_part (pos n) = 0
neg_part (negsuc n) = suc n

-- a - b, as an integer.
abbrev pub sub_ℕ : ℕ → ℕ → ℤ
sub_ℕ a b = if leb b a then pos (a - b) else negsuc (b - a - 1)

abbrev pub ltb_ℤ : ℤ → ℤ → Bool
ltb_ℤ (pos a) (pos b) = ltb a b
ltb_ℤ (pos a) (negsuc b) = false
ltb_ℤ (negsuc a) (pos b) = true
ltb_ℤ (negsuc a) (negsuc b) = ltb b a

abbrev pub leb_ℤ : ℤ → ℤ → Bool
leb_ℤ (pos a) (pos b) = leb a b
leb_ℤ (pos a) (negsuc b) = false
leb_ℤ (negsuc a) (pos b) = true
leb_ℤ (negsuc a) (negsuc b) = leb b a

abbrev pub int_limit : ℕ
int_limit = 2 ^ 63

abbrev pub int_modulus : ℕ
int_modulus = 2 ^ 64

-- The representative of an integer modulo 2^64 in [-2^63, 2^63).
pub wrap : ℤ → ℤ
wrap (pos n) =
    let m = n % int_modulus in if ltb m int_limit then pos m else negsuc (int_modulus - m - 1)
wrap (negsuc n) =
    let m = n % int_modulus in if ltb m int_limit then negsuc m else pos (int_modulus - m - 1)

-- a + b, a - b and a * b on 64-bit integers.
unfoldable pub add_int : ℤ → ℤ → ℤ
unfolding wrap
add_int a b = wrap (sub_ℕ (pos_part a + pos_part b) (neg_part a + neg_part b))

unfoldable pub sub_int : ℤ → ℤ → ℤ
unfolding wrap
sub_int a b = wrap (sub_ℕ (pos_part a + neg_part b) (neg_part a + pos_part b))

unfoldable pub mul_int : ℤ → ℤ → ℤ
unfolding wrap
mul_int a b = wrap (
    sub_ℕ (pos_part a * pos_part b + neg_part a * neg_part b)
      (pos_part a * neg_part b + neg_part a * pos_part b))

-- a / b of Go rounds towards zero; the callers never divide by zero or by a negative number.
unfoldable pub div_int : ℤ → ℤ → ℤ
unfolding wrap
div_int (pos a) b = wrap (pos (a / pos_part b))
div_int (negsuc a) b = wrap (sub_ℕ 0 (suc a / pos_part b))

-- Where the true result fits, the operation is exact.
pub add_int_exact : (a b : ℕ) → a + b < int_limit → add_int (pos a) (pos b) ≡ pos (a + b)
unfolding add_int
add_int_exact a b h = ground arith

pub sub_int_exact : (a b : ℕ) → b ≤ a → a < int_limit → sub_int (pos a) (pos b) ≡ pos (a - b)
unfolding sub_int
sub_int_exact a b h k = ground arith

pub mul_int_exact : (a b : ℕ) → a * b < int_limit → mul_int (pos a) (pos b) ≡ pos (a * b)
unfolding mul_int
mul_int_exact a b h = ground arith

pub div_int_exact : (a b : ℕ) → a / b < int_limit → div_int (pos a) (pos b) ≡ pos (a / b)
unfolding div_int
div_int_exact a b h = ground arith

add_int_overflow : add_int (pos 9223372036854775807) (pos 1) ≡ negsuc 9223372036854775807
unfolding add_int
add_int_overflow = refl
