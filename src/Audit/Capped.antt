-- ===== src/Audit/Capped.antt =====
-- What a capped copy holds after any sequence of reads (the capWriter of pkg/httpmw/audit.go).
use api_test.Prelude.{
  ℕ, zero, suc, ◌+◌, ◌-◌, min, ◌≡◌, refl, ap, sym, ◌∙◌, Bool, ◌||◌, List, [], ◌∷◌, ◌++◌, ltb, leb,
  length, take, concat, arith, length-append, length-take, Bool-cases, inl, inr, take-append_le,
  take_all,
}
use mathlib.Core.List.{append-nil, append_assoc}
use api_test.Prelude.Int.{ℤ, pos, negsuc}
use api_test.Std.Text.{Text}
use api_test.Audit.Capture.{remaining, CapWriter, new_cap_writer, cap_write, tee_read, tee_reads}

pub remaining_sub : (max : ℤ) (n : ℕ) → remaining max n ≡ remaining max 0 - n
remaining_sub (pos m) n = omega arith
remaining_sub (negsuc m) n = omega arith

take-min : (n : ℕ) (p : Text) → take (min n (length p)) p ≡ take n p
take-min zero p = let e : min 0 (length p) ≡ 0 = omega arith in rw e
take-min (suc n) [] = let e : min (suc n) 0 ≡ 0 = omega arith in rw e
take-min (suc n) (c ∷ p) =
    let e : min (suc n) (suc (length p)) ≡ suc (min n (length p)) = omega arith in
    rw e (ap (λ r. c ∷ r) (take-min n p))

-- A capped prefix that is extended by what fits of the next bytes is the capped prefix of both.
pub take_extend :
    (m : ℕ) (seen p : Text)
    → take m seen ++ take (min (m - length (take m seen)) (length p)) p ≡ take m (seen ++ p)
take_extend zero seen p = take-min 0 p
take_extend (suc m) [] p = let e : suc m - 0 ≡ suc m = omega arith in rw e (take-min (suc m) p)
take_extend (suc m) (c ∷ seen) p =
    let e : suc m - suc (length (take m seen)) ≡ m - length (take m seen) = omega arith in
    rw e (ap (λ r. c ∷ r) (take_extend m seen p))

-- The copy that holds what the cap lets through of the bytes seen so far.
abbrev capped : ℤ → Text → CapWriter
capped max seen = record {
  buf = take (remaining max 0) seen;
  max = max;
  oversize = ltb (remaining max 0) (length seen);
}

cap_writer_eq :
    (max : ℤ) {b b' : Text} {o o' : Bool}
    → b ≡ b'
    → o ≡ o'
    → Path CapWriter
        (record { buf = b; max = max; oversize = o })
        (record { buf = b'; max = max; oversize = o' })
cap_writer_eq max hb ho = rw (hb, ho)

-- Whether bytes were left out, of the `p` bytes that come after `s` bytes under a cap of `m`.
flag_room : (m s p : ℕ) → (ltb (min (m - min m s) p) p || ltb m s) ≡ ltb m (s + p)
flag_room m s p = ground arith

pub flag_extend :
    (m : ℕ) (seen p : Text)
    → (ltb (min (m - length (take m seen)) (length p)) (length p) || ltb m (length seen))
      ≡ ltb m (length (seen ++ p))
flag_extend m seen p =
    rw (length-take m seen, length-append seen p) (flag_room m (length seen) (length p))

cap_write-capped :
    (max : ℤ) (seen : Text) (c : ℕ) (p : Text)
    → cap_write (c ∷ p) (capped max seen) ≡ capped max (seen ++ c ∷ p)
unfolding cap_write
cap_write-capped max seen c p =
    let m = remaining max 0 in
    rw (remaining_sub max (length (take m seen)))
      (elim (Bool-cases (leb (m - length (take m seen)) 0)) [
        | inl full ↦ rw full (
            cap_writer_eq max
              (sym (take-append_le m seen (c ∷ p) (grind (arith, length-take m seen))))
              (grind (arith, length-take m seen, length-append seen (c ∷ p))))
        | inr room ↦
            rw room (cap_writer_eq max (take_extend m seen (c ∷ p)) (flag_extend m seen (c ∷ p)))
      ])

tee_reads-capped :
    (max : ℤ) (seen : Text) (ps : List Text)
    → tee_reads ps (capped max seen) ≡ capped max (seen ++ concat ps)
unfolding tee_reads tee_read
tee_reads-capped max seen [] = rw (append-nil seen)
tee_reads-capped max seen ([] ∷ ps) = tee_reads-capped max seen ps
tee_reads-capped max seen ((c ∷ p) ∷ ps) = rw (cap_write-capped max seen c p) (
    tee_reads-capped max (seen ++ c ∷ p) ps
    ∙ ap (capped max) (append_assoc seen (c ∷ p) (concat ps)))

-- However the handler reads the request's body, the copy is the first bytes that fit the cap, and
-- it is flagged exactly when bytes were left out.
pub tee_reads_lem :
    (max : ℤ) (ps : List Text)
    → ((tee_reads ps (new_cap_writer max)).buf ≡ take (remaining max 0) (concat ps))
      × ((tee_reads ps (new_cap_writer max)).oversize ≡ ltb (remaining max 0) (length (concat ps)))
unfolding new_cap_writer
tee_reads_lem max ps =
    let start : (new_cap_writer max) ≡ capped max [] =
      cap_writer_eq max (sym (take_all (remaining max 0) [] (omega arith))) (ground arith) in
    rw (start, tee_reads-capped max [] ps) (refl, refl)
