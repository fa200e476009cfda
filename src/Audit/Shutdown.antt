-- ===== src/Audit/Shutdown.antt =====
-- The asynchronous logger's shutdown: the queue is drained, and what is logged afterwards.
use api_test.Prelude.{
  ℕ, ◌≡◌, ◌≢◌, refl, sym, ap, ◌∙◌, Bool, true, List, [], ◌∷◌, ◌++◌, Option, ltb, length, Bool-cases,
  inl, inr,
}
use mathlib.Core.List.{append-nil, append_assoc}
use api_test.Audit.Queue.{
  running, draining, returned, AsyncLogger, log, close, receive, Step, logs, closes, receives,
  stops, drains, returns, Steps, done, step,
}

module _ {Event : Type 0} where
  drain :
      (size : ℕ) (inner : List Event) (stop : Bool) (dropped : ℕ) (ch : List Event)
      → Steps size
          (record { ch = ch; inner = inner; stop = stop; dropped = dropped; worker = draining })
          []
          (record {
            ch = [];
            inner = inner ++ ch;
            stop = stop;
            dropped = dropped;
            worker = returned;
          })
  unfolding receive
  drain size inner stop dropped [] = rw (append-nil inner) (step (returns refl refl) (done _))
  drain size inner stop dropped (ev ∷ ch) =
      step (drains ev ch refl refl)
        (rw (← append_assoc inner (ev ∷ []) ch) (drain size (inner ++ ev ∷ []) stop dropped ch))

  -- From a running worker there are steps, with no event logged in them, that close stop, hand the
  -- whole queue to the inner logger in order, and end with the worker returned.
  pub can_drain :
      (size : ℕ) (a : AsyncLogger Event)
      → a.worker ≡ running
      → Steps size a []
          (record a { ch = []; inner = a.inner ++ a.ch; stop = true; worker = returned })
  unfolding close
  can_drain size a is = step closes (step (stops is refl) (drain size a.inner true a.dropped a.ch))

  log-returned :
      (size : ℕ) (ev : Event) (a : AsyncLogger Event)
      → ((log size ev a).worker ≡ a.worker) × ((log size ev a).inner ≡ a.inner)
  unfolding log
  log-returned size ev a = elim (Bool-cases (ltb (length a.ch) size)) [
    | inl room ↦ rw room (refl, refl)
    | inr full ↦ rw full (refl, refl)
  ]

  Step-returned :
      (size : ℕ) {a b : AsyncLogger Event} {ev : Option Event}
      → Step size a ev b
      → a.worker ≡ returned
      → (b.worker ≡ returned) × (b.inner ≡ a.inner)
  unfolding close
  Step-returned size {a} (logs ev) is =
      let (worker, inner) = log-returned size ev a in (worker ∙ is, inner)
  Step-returned size closes is = (is, refl)
  Step-returned size (receives ev rest w _) is = cc
  Step-returned size (stops w _) is = cc
  Step-returned size (drains ev rest w _) is = cc
  Step-returned size (returns w _) is = cc

  -- After the worker has returned no event reaches the inner logger any more, whatever is logged.
  pub lost_after_close :
      (size : ℕ) (evs : List Event) {a b : AsyncLogger Event}
      → Steps size a evs b
      → a.worker ≡ returned
      → (b.worker ≡ returned) × (b.inner ≡ a.inner)
  lost_after_close size _ (done a) is = (is, refl)
  lost_after_close size _ (step {ev} {evs = more} s rest) is =
      let (worker, inner) = Step-returned size s is in
      let (worker', inner') = lost_after_close size more rest worker in (worker', inner' ∙ inner)

  -- What the worker takes from the queue goes to the inner logger's end.
  received :
      (a : AsyncLogger Event) (ev : Event) (rest : List Event)
      → a.ch ≡ ev ∷ rest
      → (receive ev rest a).inner ++ (receive ev rest a).ch ≡ a.inner ++ a.ch
  unfolding receive
  received a ev rest next = append_assoc a.inner (ev ∷ []) rest ∙ ap (λ q. a.inner ++ q) (sym next)

  logged :
      (size : ℕ) (a : AsyncLogger Event) (ev : Event)
      → (more : List Event) × ((log size ev a).inner ++ (log size ev a).ch
          ≡ (a.inner ++ a.ch) ++ more)
  unfolding log
  logged size a ev = elim (Bool-cases (ltb (length a.ch) size)) [
    | inl room ↦ rw room (ev ∷ [], sym (append_assoc a.inner a.ch (ev ∷ [])))
    | inr full ↦ rw full ([], sym (append-nil (a.inner ++ a.ch)))
  ]

  -- However callers and worker interleave, when the worker has returned, the inner logger has been
  -- handed the whole queue of any moment at which the worker had not returned, such as that of Close,
  -- in order and behind what it had been handed before.
  pub close_drains :
      (size : ℕ) (evs : List Event) {a b : AsyncLogger Event}
      → Steps size a evs b
      → a.worker ≢ returned
      → b.worker ≡ returned
      → (more : List Event) × (b.inner ≡ (a.inner ++ a.ch) ++ more)
  unfolding close receive
  close_drains size _ (done a) active is = absurd (active is)
  close_drains size _ {a} (step (logs ev) rest) active is =
      let (first, kept) = logged size a ev in
      let (more, handed) =
        close_drains size _ rest (λ e. active (sym (log-returned size ev a).0 ∙ e)) is in
      (
        first ++ more,
        handed ∙ (ap (λ q. q ++ more) kept ∙ append_assoc (a.inner ++ a.ch) first more),
      )
  close_drains size _ (step closes rest) active is = close_drains size _ rest active is
  close_drains size _ {a} (step (receives ev behind w next) rest) active is =
      let (more, handed) = close_drains size _ rest active is in
      (more, handed ∙ ap (λ q. q ++ more) (received a ev behind next))
  close_drains size _ (step (stops w closed) rest) active is = close_drains size _ rest (λ e. cc) is
  close_drains size _ {a} (step (drains ev behind w next) rest) active is =
      let (more, handed) = close_drains size _ rest active is in
      (more, handed ∙ ap (λ q. q ++ more) (received a ev behind next))
  close_drains size _ {a} (step (returns w empty) rest) active is =
      let (_, handed) = lost_after_close size _ rest refl in
      ([], handed ∙ rw (empty) (sym (append-nil (a.inner ++ []) ∙ append-nil a.inner)))
