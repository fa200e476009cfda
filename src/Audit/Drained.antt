-- ===== src/Audit/Drained.antt =====
-- What becomes of the events that the asynchronous logger is given.
use api_test.Prelude.{
  ℕ, ◌+◌, ◌%◌, ◌^◌, ◌≤◌, ◌≡◌, refl, true, List, [], ◌∷◌, ◌++◌, Option, none, some, ltb, length,
  length-append, Bool-cases, ◌⊎◌, inl, inr, arith,
}
use api_test.Prelude.Sublists.{Sublist, empty, Sublist_refl, Sublist_append, Sublist_more}
use mathlib.Core.List.{append-nil, append_assoc}
use api_test.Audit.Queue.{
  running, AsyncLogger, new_async_logger, log, close, receive, Step, logs, closes, receives, stops,
  drains, returns, cons?, Steps, done, step,
}

count_kept : (n m d : ℕ) → n % 2 ^ 64 ≡ (m + d) % 2 ^ 64 → (n + 1) % 2 ^ 64 ≡ (m + 1 + d) % 2 ^ 64
count_kept n m d h = omega arith

count_dropped :
    (n m d : ℕ) → n % 2 ^ 64 ≡ (m + d) % 2 ^ 64 → (n + 1) % 2 ^ 64 ≡ (m + (d + 1) % 2 ^ 64) % 2 ^ 64
count_dropped n m d h = omega arith

module _ {Event : Type 0} where
  -- Of the events logged so far, in order, some were dropped and counted; the others were handed
  -- over or are in the queue, which is no longer than its size.
  pub record IsAccounted (size : ℕ) (evs : List Event) (a : AsyncLogger Event) : Type 0 where
    pub order : Sublist (a.inner ++ a.ch) evs
    pub bounded : length a.ch ≤ size
    pub counted : length evs % 2 ^ 64 ≡ (length (a.inner ++ a.ch) + a.dropped) % 2 ^ 64
    pub told : (a.worker ≡ running) ⊎ (a.stop ≡ true)

  log-IsAccounted :
      (size : ℕ) (evs : List Event) (a : AsyncLogger Event) (ev : Event)
      → IsAccounted size evs a
      → IsAccounted size (evs ++ ev ∷ []) (log size ev a)
  unfolding log
  log-IsAccounted size evs a ev h = elim (Bool-cases (ltb (length a.ch) size)) [
    | inl room ↦ rw room (record {
      order =
          rw (← append_assoc a.inner a.ch (ev ∷ []))
            (Sublist_append h.order (Sublist_refl (ev ∷ [])));
      bounded = rw (length-append a.ch (ev ∷ [])) (ground arith);
      counted =
          rw
            (
              ← append_assoc a.inner a.ch (ev ∷ []),
              length-append evs (ev ∷ []),
              length-append (a.inner ++ a.ch) (ev ∷ []),
            )
            (count_kept (length evs) (length (a.inner ++ a.ch)) a.dropped h.counted);
      told = h.told;
    })
    | inr full ↦ rw full (record {
      order = Sublist_more ev h.order;
      bounded = h.bounded;
      counted =
          rw (length-append evs (ev ∷ []))
            (count_dropped (length evs) (length (a.inner ++ a.ch)) a.dropped h.counted);
      told = h.told;
    })
  ]

  -- Handing over the head of the queue keeps the account.
  receive-IsAccounted :
      (size : ℕ) (evs : List Event) (a : AsyncLogger Event) (ev : Event) (rest : List Event)
      → a.ch ≡ ev ∷ rest
      → IsAccounted size evs a
      → IsAccounted size evs (receive ev rest a)
  unfolding receive
  receive-IsAccounted size evs a ev rest head h =
      let h' : IsAccounted size evs (record a { ch = ev ∷ rest }) = rw (← head) h in
      record {
        order = rw (append_assoc a.inner (ev ∷ []) rest) h'.order;
        bounded = let b = h'.bounded in omega arith;
        counted = rw (append_assoc a.inner (ev ∷ []) rest) h'.counted;
        told = h.told;
      }

  Step-IsAccounted :
      (size : ℕ) (before : List Event) {a b : AsyncLogger Event} {ev : Option Event}
      → Step size a ev b
      → IsAccounted size before a
      → IsAccounted size (before ++ cons? ev []) b
  unfolding close
  Step-IsAccounted size before {a} (logs ev) h = log-IsAccounted size before a ev h
  Step-IsAccounted size before {a} closes h =
      rw (append-nil before)
        (record { order = h.order; bounded = h.bounded; counted = h.counted; told = inr refl })
  Step-IsAccounted size before {a} (receives ev rest _ head) h =
      rw (append-nil before) (receive-IsAccounted size before a ev rest head h)
  Step-IsAccounted size before {a} (stops _ stop) h =
      rw (append-nil before)
        (record { order = h.order; bounded = h.bounded; counted = h.counted; told = inr stop })
  Step-IsAccounted size before {a} (drains ev rest _ head) h =
      rw (append-nil before) (receive-IsAccounted size before a ev rest head h)
  Step-IsAccounted size before {a} (returns is _) h = rw (append-nil before) (record {
    order = h.order;
    bounded = h.bounded;
    counted = h.counted;
    told = grind (arith, is, h.told);
  })

  cons?_append :
      (before : List Event) (ev : Option Event) (evs : List Event)
      → before ++ cons? ev evs ≡ (before ++ cons? ev []) ++ evs
  cons?_append before none evs = rw (append-nil before)
  cons?_append before (some ev) evs = rw (append_assoc before (ev ∷ []) evs)

  Steps-IsAccounted :
      (size : ℕ) (before : List Event) {a b : AsyncLogger Event} {evs : List Event}
      → Steps size a evs b
      → IsAccounted size before a
      → IsAccounted size (before ++ evs) b
  Steps-IsAccounted size before (done a) h = rw (append-nil before) h
  Steps-IsAccounted size before (step {ev} {evs} s rest) h =
      rw (cons?_append before ev evs)
        (Steps-IsAccounted size (before ++ cons? ev []) rest (Step-IsAccounted size before s h))

  -- However callers and worker interleave, the events logged are, in order, handed to the inner
  -- logger or in the queue, or they were dropped and counted, modulo 2^64; the queue keeps to its
  -- size; and the worker leaves its loop only when stop is closed.
  pub new_async_logger-IsAccounted :
      (size : ℕ) (evs : List Event) (a : AsyncLogger Event)
      → Steps size new_async_logger evs a
      → IsAccounted size evs a
  unfolding new_async_logger
  new_async_logger-IsAccounted size evs a run =
      Steps-IsAccounted size [] run
        (record { order = empty; bounded = omega arith; counted = refl; told = inl refl })
