-- ===== src/Pagination/Window.antt =====
-- The dataset over the true numbers, and the slices that the handlers cut from it.
use api_test.Prelude.{
  ℕ, zero, suc, ◌+◌, ◌-◌, ◌<◌, min, ◌≡◌, refl, ◌∙◌, ap, List, [], ◌∷◌, ◌++◌, arith, length,
}
use api_test.Prelude.Int.{pos, int_limit, add_int_exact}
use api_test.Std.Text.{Text}
use api_test.Pagination.Handlers.{Item, item, slice_loop, slice_items}

module _ (sha256 : Text → Text) where
  -- The `count` items from the one with id `start` on.
  unfoldable pub window : ℕ → ℕ → List Item
  window start zero = []
  window start (suc count) = item sha256 (pos start) ∷ window (start + 1) count

  pub window_append :
      (start m n : ℕ) → window start m ++ window (start + m) n ≡ window start (m + n)
  unfolding window
  window_append start zero n = ap (λ k. window k n) (omega arith) ∙ ap (window start) (omega arith)
  window_append start (suc m) n =
      let e : start + suc m ≡ start + 1 + m = omega arith in
      let d : suc m + n ≡ suc (m + n) = omega arith in
      rw e (rw d (ap (λ r. item sha256 (pos start) ∷ r) (window_append (start + 1) m n)))

  pub length-window : (start n : ℕ) → length (window start n) ≡ n
  unfolding window
  length-window start zero = refl
  length-window start (suc n) = ap suc (length-window (start + 1) n)

  slice_loop-eq-window :
      (n start : ℕ) → start + n < int_limit → slice_loop sha256 n (pos start) ≡ window start n
  unfolding slice_loop window
  slice_loop-eq-window zero start h = refl
  slice_loop-eq-window (suc n) start h =
      rw (add_int_exact start 1 (omega arith))
        (ap (λ r. item sha256 (pos start) ∷ r) (slice_loop-eq-window n (start + 1) (omega arith)))

  -- A slice that starts inside the dataset is the window there, cut at the end of the dataset.
  pub slice_items-eq-window :
      (start size total : ℕ)
      → start < total
      → total + size < int_limit
      → slice_items sha256 (pos start) (pos size) (pos total)
        ≡ window start (min size (total - start))
  unfolding slice_items
  slice_items-eq-window start size total h fits = ground (
    arith,
    add_int_exact start size (omega arith),
    slice_loop-eq-window (min size (total - start)) start (omega arith),
  )
