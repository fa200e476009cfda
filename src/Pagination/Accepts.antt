-- ===== src/Pagination/Accepts.antt =====
-- Which query parameters are accepted, and as which numbers.
use api_test.Prelude.{ℕ, ◌≤◌, ◌<◌, ◌≡◌, refl, ◌≢◌, false, [], ◌∷◌, arith}
use api_test.Prelude.Int.{ℤ, pos, negsuc, int_limit}
use api_test.Prelude.Result.{Result, ok, err}
use api_test.Std.Text.{Text, is_empty}
use api_test.Std.Strconv.{itoa, atoi-itoa, itoa-ne-nil}
use api_test.Pagination.Params.{positive_default, non_negative_default, bounded_default}

-- An error, or a number in [low, high]; and an error, or a number from `low` on.
abbrev pub AcceptedIn : ℕ → ℕ → Result Text ℤ → Type 0
AcceptedIn low high (err e) = Unit
AcceptedIn low high (ok (pos n)) = (low ≤ n) × (n ≤ high)
AcceptedIn low high (ok (negsuc n)) = ⊥

abbrev pub AcceptedFrom : ℕ → Result Text ℤ → Type 0
AcceptedFrom low (err e) = Unit
AcceptedFrom low (ok (pos n)) = low ≤ n
AcceptedFrom low (ok (negsuc n)) = ⊥

is_empty_of_ne : (s : Text) → s ≢ [] → is_empty s ≡ false
is_empty_of_ne [] h = absurd (h refl)
is_empty_of_ne (c ∷ s) h = refl

pub is_empty-itoa : (n : ℕ) → is_empty (itoa n) ≡ false
is_empty-itoa n = is_empty_of_ne (itoa n) (itoa-ne-nil n)

pub bounded_default-itoa :
    (n upper : ℕ) (def : ℤ) (name : Text)
    → 1 ≤ n
    → n ≤ upper
    → upper < int_limit
    → bounded_default (itoa n) def (pos upper) name ≡ ok (pos n)
unfolding bounded_default
bounded_default-itoa n upper def name lo hi fits =
    rw (is_empty-itoa n) (rw (atoi-itoa n (omega arith)) (ground arith))

pub positive_default-itoa :
    (n : ℕ) (def : ℤ) → 1 ≤ n → n < int_limit → positive_default (itoa n) def ≡ ok (pos n)
unfolding positive_default
positive_default-itoa n def lo fits =
    rw (is_empty-itoa n) (rw (atoi-itoa n (omega arith)) (ground arith))

pub non_negative_default-itoa :
    (n : ℕ) (def : ℤ) → n < int_limit → non_negative_default (itoa n) def ≡ ok (pos n)
unfolding non_negative_default
non_negative_default-itoa n def fits =
    rw (is_empty-itoa n) (rw (atoi-itoa n (omega arith)) (ground arith))

-- Whatever the text, an accepted number lies in the range, if the default does.
module _ (raw : Text) where
  pub bounded_default-AcceptedIn :
      (name : Text) (def upper : ℕ)
      → 1 ≤ def
      → def ≤ upper
      → AcceptedIn 1 upper (bounded_default raw (pos def) (pos upper) name)
  unfolding bounded_default
  bounded_default-AcceptedIn name def upper lo hi = ground arith

  pub positive_default-AcceptedFrom : AcceptedFrom 1 (positive_default raw (pos 1))
  unfolding positive_default
  positive_default-AcceptedFrom = ground arith

  pub non_negative_default-AcceptedFrom : AcceptedFrom 0 (non_negative_default raw (pos 0))
  unfolding non_negative_default
  non_negative_default-AcceptedFrom = ground arith
