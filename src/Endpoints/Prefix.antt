-- ===== src/Endpoints/Prefix.antt =====
-- What a client has of a stream when it goes away.
use api_test.Prelude.{
  ℕ, zero, suc, ◌≤◌, ◌≡◌, refl, ap, Bool, false, ◌&&◌, ◌∷◌, ltb, length, take, arith, Bool-cases,
  inl, inr,
}
use api_test.Std.Text.{Text}
use api_test.Endpoints.Streaming.{StreamQuery, stream_loop, stream}

never_stops : (x y : Bool) → (x && y && false) ≡ false
never_stops x y = ground arith

stream_loop_prefix :
    (line : ℕ → Text) (waits waits' : Bool) (cancelled never : ℕ → Bool)
    → ((i : ℕ) → never i ≡ false)
    → (i m n : ℕ) → m ≤ n
    → stream_loop line waits cancelled i m
      ≡ take (length (stream_loop line waits cancelled i m)) (stream_loop line waits' never i n)
unfolding stream_loop
stream_loop_prefix line waits waits' cancelled never stays i zero n h = refl
stream_loop_prefix line waits waits' cancelled never stays i (suc m) zero h = absurd (omega arith)
stream_loop_prefix line waits waits' cancelled never stays i (suc m) (suc n) h =
    elim (Bool-cases (waits && ltb 0 m && cancelled i)) [
      | inl gone ↦ rw gone refl
      | inr there ↦
          rw (there, stays i, never_stops waits' (ltb 0 n))
            (ap (λ r. line i ∷ r)
              (stream_loop_prefix line waits waits' cancelled never stays (suc i) m n
                (omega arith)))
    ]

-- A client that goes away has the beginning of what a client that stays gets from any request for
-- at least as many lines with the same seed, whatever the delays.
pub stream_prefix :
    (int_n : Text → ℕ → ℕ) (line : Text → ℕ → Text) (cancelled never : ℕ → Bool)
    (q q' : StreamQuery)
    → ((i : ℕ) → never i ≡ false)
    → q.seed ≡ q'.seed
    → q.count ≤ q'.count
    → stream int_n cancelled line q
      ≡ take (length (stream int_n cancelled line q)) (stream int_n never line q')
unfolding stream
stream_prefix int_n line cancelled never q q' stays seed count = rw seed (
    stream_loop_prefix (line q'.seed) (ltb 0 q.delay_ms) (ltb 0 q'.delay_ms) cancelled never stays 0
      q.count q'.count count)
