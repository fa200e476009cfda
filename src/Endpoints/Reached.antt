-- ===== src/Endpoints/Reached.antt =====
-- How much /v1/export/big-body sends.
use api_test.Prelude.{
  ℕ, zero, suc, ◌+◌, ◌*◌, ◌/◌, ◌≤◌, min, ◌≡◌, refl, Bool, false, ◌++◌, ltb, leb, length, take,
  concat, arith, Bool-cases, inl, inr, length-append, length-take, leb→le,
}
use api_test.Std.Text.{Text, text}
use api_test.Std.Strconv.{itoa, length-itoa, length-itoa_two}
use api_test.Std.Base64.{length-hex}
use api_test.Endpoints.Export.{row_value, big_row, separator, big_loop, big_writes}

module _ (sha256 : Text → Text) (gone : ℕ → Bool) (seed : Text)
    (digest : (s : Text) → length (sha256 s) ≡ 32) (stays : (i : ℕ) → gone i ≡ false) where
  length-row_value : (i : ℕ) → length (row_value sha256 gone seed i) ≡ 16
  unfolding row_value
  length-row_value i =
      let s = seed ++ text ":" ++ itoa i in
      rw (length-hex (take 8 (sha256 s)), length-take 8 (sha256 s), digest s) refl

  length-big_row : (i : ℕ) → length (big_row sha256 gone seed i) ≡ 37 + length (itoa i)
  unfolding big_row
  length-big_row i =
      rw
        (
          length-append (itoa i)
              (text ",\"value\":\"" ++ (row_value sha256 gone seed i ++ text "\"}")),
          length-append (row_value sha256 gone seed i) (text "\"}"),
          length-row_value i,
        )
        (omega arith)

  -- A row brings 40 bytes, but for the first ten, which bring a byte less each.
  row_long :
      (i written : ℕ)
      → 1 ≤ written
      → 40 * i ≤ written + min i 10
      → 40 * suc i
        ≤ written + length (separator sha256 gone i ++ big_row sha256 gone seed i) + min (suc i) 10
  unfolding separator
  row_long zero written w h = rw (length-big_row 0) (let d = length-itoa 0 in omega (arith, d))
  row_long (suc i) written w h = rw (length-big_row (suc i)) (elim (Bool-cases (leb 10 (suc i))) [
    | inl two ↦ let d = length-itoa_two (suc i) (leb→le 10 (suc i) two) in omega (arith, d)
    | inr one ↦ let d = length-itoa (suc i) in ground (arith, d, one)
  ])

  reached :
      (target left i written : ℕ)
      → 1 ≤ written
      → 40 * i ≤ written + min i 10
      → target + 10 ≤ 40 * (i + left)
      → target ≤ written + length (concat (big_loop sha256 gone seed target left i written))
  unfolding big_loop
  reached target zero i written w h enough = omega arith
  reached target (suc left) i written w h enough =
      let row = separator sha256 gone i ++ big_row sha256 gone seed i in
      let rest = big_loop sha256 gone seed target left (suc i) (written + length row) in
      let more = row_long i written w h in
      elim (Bool-cases (ltb written target)) [
        | inr over ↦ rw over (ground (arith, over))
        | inl short ↦
            rw (short, stays i, length-append row (concat rest))
              (let there =
                  reached target left (suc i) (written + length row) (omega arith)
                    (omega (arith, more)) (omega arith) in
                omega (arith, there))
      ]

  -- The body of /v1/export/big-body is as large as it was asked to be: the bound on the number of
  -- rows never cuts it short, for a client that stays and digests of 32 bytes.
  pub big_body_reached :
      (size_kb : ℕ) → size_kb * 1024 ≤ length (concat (big_writes sha256 gone seed size_kb))
  unfolding big_writes
  big_body_reached size_kb =
      let target = size_kb * 1024 in
      let there = reached target (target / 40 + 64) 0 1 (omega arith) (omega arith) (omega arith) in
      omega (arith, there)
