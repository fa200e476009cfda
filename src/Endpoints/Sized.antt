-- ===== src/Endpoints/Sized.antt =====
-- What /v1/sized sends.
use api_test.Prelude.{
  ℕ, zero, suc, ◌+◌, ◌-◌, ◌*◌, ◌/◌, ◌≤◌, min, ◌≡◌, refl, ap, sym, ◌∙◌, true, false, List, [], ◌∷◌,
  ◌++◌, ltb, length, concat, if◌then◌else◌, arith, Bool-cases, inl, inr,
}
use mathlib.Core.List.{append_assoc}
use api_test.Prelude.Int.{pos}
use api_test.Std.Text.{text}
use api_test.Std.Strconv.{itoa, itoa_int, atoi}
use api_test.Std.Http.{Request, raw, json_headers, values_get, write_error}
use api_test.Endpoints.Data.{
  letter, letters, sized_loop, sized_writes, sized_bytes, sized_answer, sized, sized_max,
}

letters-append : (s a b : ℕ) → letters s (a + b) ≡ letters s a ++ letters (s + a) b
unfolding letters
letters-append s zero b =
    let e : 0 + b ≡ b = omega arith in let e' : s + 0 ≡ s = omega arith in rw (e, e') refl
letters-append s (suc a) b =
    let e : suc a + b ≡ suc (a + b) = omega arith in
    let e' : s + suc a ≡ suc s + a = omega arith in
    rw (e, e') (ap (λ r. letter s ∷ r) (letters-append (suc s) a b))

length-letters : (s n : ℕ) → length (letters s n) ≡ n
unfolding letters
length-letters s zero = refl
length-letters s (suc n) = ap suc (length-letters (suc s) n)

concat-sized_loop :
    (fuel n written : ℕ)
    → written ≤ n
    → n ≤ written + fuel * 4096
    → concat (sized_loop fuel n written) ≡ letters written (n - written)
unfolding sized_loop
concat-sized_loop zero n written lo hi =
    let e : n - written ≡ 0 = omega arith in rw e (unfold letters in refl)
concat-sized_loop (suc fuel) n written lo hi = elim (Bool-cases (ltb written n)) [
  | inr over ↦ let e : n - written ≡ 0 = ground arith in rw (over, e) (unfold letters in refl)
  | inl more ↦
      let chunk = min (n - written) 4096 in
      let e : n - written ≡ chunk + (n - (written + chunk)) = omega arith in
      rw more (
        ap (λ r. letters written chunk ++ r)
          (concat-sized_loop fuel n (written + chunk) (omega arith) (omega arith))
        ∙ sym (letters-append written chunk (n - (written + chunk)))
        ∙ ap (letters written) (sym e))
]

concat-append {ℓ} :
    {A : Type ℓ} (xs ys : List (List A)) → concat (xs ++ ys) ≡ concat xs ++ concat ys
concat-append [] ys = refl
concat-append (x ∷ xs) ys =
    ap (λ r. x ++ r) (concat-append xs ys) ∙ sym (append_assoc x (concat xs) (concat ys))

concat-sized_writes :
    (n : ℕ)
    → concat (sized_writes n)
      ≡ (text "{\"bytes\":" ++ itoa n ++ text ",\"body\":\"") ++ (letters 0 n ++ text "\"}")
unfolding sized_writes
concat-sized_writes n =
    let e : n - 0 ≡ n = omega arith in
    rw
      (
        concat-append (sized_loop (n / 4096 + 1) n 0) (text "\"}" ∷ []),
        concat-sized_loop (n / 4096 + 1) n 0 (omega arith) (omega arith),
        e,
      )
      refl

not_negative : (n : ℕ) → ltb n 0 ≡ false
not_negative n = ground arith

-- A request for n bytes, up to 32 MiB, is answered 200 with a JSON object whose body is exactly n
-- bytes long, the alphabet repeated; a request for more is answered 400.
pub sized_lem :
    (r : Request) (n : ℕ)
    → atoi (values_get r.query (text "bytes")) ≡ (pos n, true)
    → (sized r ≡ (
        if ltb sized_max n
        then write_error 400
            (text "bytes " ++ itoa_int (pos n) ++ text " exceeds max " ++ itoa sized_max)
        else (record {
          status = 200;
          headers = json_headers;
          body = raw (
              (text "{\"bytes\":" ++ itoa n ++ text ",\"body\":\"") ++ (letters 0 n ++ text "\"}"));
        })))
      × (length (letters 0 n) ≡ n)
unfolding sized sized_bytes sized_answer
sized_lem r n parsed = (
  rw (parsed, not_negative n)
      (elim (Bool-cases (ltb sized_max n)) [
        | inl over ↦ rw over refl
        | inr fits ↦ rw (fits, concat-sized_writes n) refl
      ]),
  length-letters 0 n,
)
