-- ===== src/Std/Strconv.antt =====
-- Package strconv: Itoa and Atoi, with the round trip between them.
use api_test.Prelude.{
  ℕ, zero, suc, ◌+◌, ◌-◌, ◌*◌, ◌/◌, ◌%◌, ◌≤◌, ◌<◌, ◌≡◌, refl, ap, Bool, true, false, ◌&&◌, [], ◌∷◌,
  ◌++◌, arith, ltb, leb, ◌==◌, if◌then◌else◌, Bool-cases, inl, inr, sym, ◌∙◌, ◌≢◌, lt→ltb, ltb→lt,
  All, All-append, length, length-append,
}
use api_test.Prelude.Int.{ℤ, pos, negsuc, int_limit, int_modulus, sub_ℕ}
use api_test.Std.Text.{Text, text}
use mathlib.Core.List.{append_assoc, append-nil}

-- The decimal digits of `n`, given more fuel than `n`.
digits : ℕ → ℕ → Text
digits zero n = []
digits (suc fuel) n =
    let more = digits fuel (n / 10) ++ (48 + n % 10) ∷ [] in
    if ltb n 10 then (48 + n) ∷ [] else more

-- strconv.Itoa of a number that is not negative
unfoldable pub itoa : ℕ → Text
unfolding digits
itoa n = digits (suc n) n

-- strconv.Itoa
unfoldable pub itoa_int : ℤ → Text
unfolding itoa
itoa_int (pos n) = itoa n
itoa_int (negsuc n) = b'-' ∷ itoa (suc n)

-- The scan of strconv.ParseUint(s, 10, 64): stops at the first byte that is no digit, and at the
-- first value that needs more than 64 bits.
pub data Scan : Type 0 where
  syntax range : Scan
  value : ℕ → Scan

abbrev is_digit : ℕ → Bool
is_digit c = leb 48 c && leb c 57

scan : ℕ → Text → Scan
scan n [] = value n
scan n (c ∷ s) =
    let m = n * 10 + (c - 48) in
    let rest = scan m s in
    if is_digit c then (if ltb m int_modulus then rest else range) else syntax

-- The number that strconv.Atoi returns, and whether it returns it without an error.
abbrev signed : Bool → Scan → ℤ × Bool
signed minus syntax = (pos 0, false)
signed true range = (negsuc (int_limit - 1), false)
signed false range = (pos (int_limit - 1), false)
signed false (value n) = if ltb n int_limit then (pos n, true) else (pos (int_limit - 1), false)
signed true (value n) =
    if leb n int_limit then (sub_ℕ 0 n, true) else (negsuc (int_limit - 1), false)

scan_some : Text → Scan
unfolding scan
scan_some [] = syntax
scan_some (c ∷ s) = scan 0 (c ∷ s)

-- strconv.Atoi
unfoldable pub atoi : Text → ℤ × Bool
unfolding scan_some
atoi [] = (pos 0, false)
atoi (c ∷ s) =
    if c == b'-'
    then signed true (scan_some s)
    else if c == b'+'
    then signed false (scan_some s)
    else signed false (scan 0 (c ∷ s))

-- One step of the scan at a digit that leaves the value within 64 bits.
scan_digit :
    (n d : ℕ) (rest : Text)
    → d < 10
    → n * 10 + d < int_modulus
    → scan n ((48 + d) ∷ rest) ≡ scan (n * 10 + d) rest
unfolding scan
scan_digit n d rest h k =
    let e : n * 10 + (48 + d - 48) ≡ n * 10 + d = omega arith in
    rw e (rw (is_digit_of h, lt→ltb _ _ k))
  where
    is_digit_of : d < 10 → is_digit (48 + d) ≡ true
    is_digit_of h = ground arith

scan-digits :
    (fuel n : ℕ) (rest : Text)
    → n < fuel
    → n < int_modulus
    → scan 0 (digits fuel n ++ rest) ≡ scan n rest
unfolding digits
scan-digits zero n rest h k = absurd (omega arith)
scan-digits (suc fuel) n rest h k = elim (Bool-cases (ltb n 10)) [
  | inl small ↦ rw small (
      let e : 0 * 10 + n ≡ n = omega arith in
      scan_digit 0 n rest (ltb→lt n 10 small) (omega arith) ∙ ap (λ m. scan m rest) e)
  | inr large ↦ rw large (
      rw append_assoc (
        scan-digits fuel (n / 10) ((48 + n % 10) ∷ rest) (ground arith) (omega arith)
        ∙ (let e : n / 10 * 10 + n % 10 ≡ n = omega arith in
            scan_digit (n / 10) (n % 10) rest (omega arith) (omega arith)
            ∙ ap (λ m. scan m rest) e)))
]

-- The first byte of a decimal is a digit.
digits_head :
    (fuel n : ℕ) → n < fuel → (c : ℕ) × (s : Text) × (digits fuel n ≡ c ∷ s) × (48 ≤ c) × (c ≤ 57)
unfolding digits
digits_head zero n h = absurd (omega arith)
digits_head (suc fuel) n h = elim (Bool-cases (ltb n 10)) [
  | inl small ↦ (48 + n, [], rw small, omega arith, omega (arith, ltb→lt n 10 small))
  | inr large ↦
      let (c, s, e, lo, hi) = digits_head fuel (n / 10) (ground arith) in
      (c, s ++ (48 + n % 10) ∷ [], rw (large, e), lo, hi)
]

atoi_of_scan :
    (c n : ℕ) (s : Text)
    → 48 ≤ c
    → c ≤ 57
    → scan 0 (c ∷ s) ≡ value n
    → n < int_limit
    → atoi (c ∷ s) ≡ (pos n, true)
unfolding atoi
atoi_of_scan c n s lo hi h k = ground arith

scan-itoa : (n : ℕ) → n < int_limit → scan 0 (itoa n) ≡ value n
unfolding itoa scan
scan-itoa n h =
    ap (scan 0) (sym (append-nil (digits (suc n) n)))
    ∙ scan-digits (suc n) n [] (omega arith) (omega arith)

-- Reading back what was printed gives the number, for every number that fits.
pub atoi-itoa : (n : ℕ) → n < int_limit → atoi (itoa n) ≡ (pos n, true)
unfolding itoa
atoi-itoa n h =
    let (c, s, e, lo, hi) = digits_head (suc n) n (omega arith) in
    ap atoi e ∙ atoi_of_scan c n s lo hi (ap (scan 0) (sym e) ∙ scan-itoa n h) h

-- A printed number is not the empty text.
pub itoa-ne-nil : (n : ℕ) → itoa n ≢ []
unfolding itoa
itoa-ne-nil n h = let (c, s, e, lo, hi) = digits_head (suc n) n (omega arith) in cc (e, h)

-- Every byte of a decimal is a byte.
digits-All : (fuel n : ℕ) → All (λ c. c < 256) (digits fuel n)
unfolding digits
digits-All zero n = tt
digits-All (suc fuel) n = elim (Bool-cases (ltb n 10)) [
  | inl small ↦ rw small (omega (arith, ltb→lt n 10 small), tt)
  | inr large ↦ rw large (
      All-append (λ c. c < 256) (digits fuel (n / 10)) _ (digits-All fuel (n / 10))
        (omega arith, tt))
]

pub itoa-IsBytes : (n : ℕ) → All (λ c. c < 256) (itoa n)
unfolding itoa
itoa-IsBytes n = digits-All (suc n) n

itoa_test : itoa 10250 ≡ text "10250"
unfolding itoa
itoa_test = refl

atoi_tests :
    (atoi (text "-12") ≡ (negsuc 11, true))
    × (atoi (text "+7") ≡ (pos 7, true))
    × (atoi (text "9223372036854775808") ≡ (pos 9223372036854775807, false))
    × (atoi (text "1_0") ≡ (pos 0, false))
unfolding atoi
atoi_tests = (refl, refl, refl, refl)

digits_pos : (fuel n : ℕ) → 1 ≤ length (digits (suc fuel) n)
unfolding digits
digits_pos fuel n = elim (Bool-cases (ltb n 10)) [
  | inl small ↦ rw small (omega arith)
  | inr large ↦ rw (large, length-append (digits fuel (n / 10)) ((48 + n % 10) ∷ [])) (omega arith)
]

-- A number has a digit, and from ten on it has two.
pub length-itoa : (n : ℕ) → 1 ≤ length (itoa n)
unfolding itoa
length-itoa n = digits_pos n n

pub length-itoa_two : (n : ℕ) → 10 ≤ n → 2 ≤ length (itoa n)
unfolding itoa digits
length-itoa_two zero h = absurd (omega arith)
length-itoa_two (suc k) h =
    let large : ltb (suc k) 10 ≡ false = ground arith in
    let more = digits_pos k (suc k / 10) in
    rw (large, length-append (digits (suc k) (suc k / 10)) ((48 + suc k % 10) ∷ []))
      (omega (arith, more))
