-- ===== src/Dispatch/Counted.antt =====
-- How often a byte stands in a text, and in an escaped one.
use api_test.Prelude.{
  ℕ, zero, suc, ◌+◌, ◌≤◌, ◌≡◌, refl, ap, ◌∙◌, false, List, [], ◌∷◌, ◌++◌, ◌⊎◌, length, drop,
  if◌then◌else◌, ◌==◌, arith, Bool-cases, inl, inr,
}
use api_test.Std.Text.{Text, contains, has_prefix, split}
use api_test.Dispatch.Substitute.{escape_byte, path_escape}

unfoldable pub count : ℕ → Text → ℕ
count b [] = 0
count b (c ∷ s) = if c == b then suc (count b s) else count b s

pub count-append : (b : ℕ) (s t : Text) → count b (s ++ t) ≡ count b s + count b t
unfolding count
count-append b [] t = omega arith
count-append b (c ∷ s) t = ground (arith, count-append b s t)

List-cases : (xs : List Text) → (xs ≡ []) ⊎ ((y : Text) × (ys : List Text) × (xs ≡ y ∷ ys))
List-cases [] = inl refl
List-cases (y ∷ ys) = inr (y, ys, refl)

pub length-split : (b : ℕ) (s : Text) → length (split b s) ≡ suc (count b s)
unfolding count split
length-split b [] = refl
length-split b (c ∷ s) =
    let parts_of_rest = length-split b s in
    elim (Bool-cases (c == b)) [
      | inl found ↦ rw found (ap suc parts_of_rest)
      | inr differs ↦ elim (List-cases (split b s)) [
        | inl none_left ↦ absurd (no_part (rw none_left at parts_of_rest))
        | inr (y, ys, parts) ↦ rw (differs, parts) (rw parts at parts_of_rest)
      ]
    ]
  where
    no_part : 0 ≡ suc (count b s) → ⊥
    no_part e = omega arith

pub contains-count : (b : ℕ) (s : Text) → contains s (b ∷ []) ≡ false → count b s ≡ 0
unfolding count contains has_prefix
contains-count b [] h = refl
contains-count b (c ∷ s) h = ground (arith, contains-count b s)

pub count-contains : (b : ℕ) (s : Text) → count b s ≡ 0 → contains s (b ∷ []) ≡ false
unfolding count contains has_prefix
count-contains b [] h = refl
count-contains b (c ∷ s) h = ground (arith, count-contains b s)

-- A byte that an escape never has.
pub record Escaped (b : ℕ) : Type 0 where
  pub hidden : (c : ℕ) → count b (escape_byte c) ≡ 0

pub slash-Escaped : Escaped b'/'
unfolding escape_byte count contains has_prefix
slash-Escaped = record { hidden = λ c. ground arith }

pub question-Escaped : Escaped b'?'
unfolding escape_byte count contains has_prefix
question-Escaped = record { hidden = λ c. ground arith }

pub count-path_escape : (b : ℕ) → Escaped b → (v : Text) → count b (path_escape v) ≡ 0
unfolding path_escape
count-path_escape b hb [] = unfold count in refl
count-path_escape b hb (c ∷ v) =
    count-append b (escape_byte c) (path_escape v) ∙ rw (hb.hidden c, count-path_escape b hb v) refl

pub count-drop : (b n : ℕ) (s : Text) → count b (drop n s) ≤ count b s
unfolding count
count-drop b zero s = omega arith
count-drop b (suc n) [] = omega arith
count-drop b (suc n) (c ∷ s) = ground (arith, count-drop b n s)
