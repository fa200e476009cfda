-- ===== src/Audit/Queue.antt =====
-- The asynchronous logger (pkg/audit/async.go): callers that enqueue events, one worker that hands
-- them to the inner logger, and shutdown, as the steps that the goroutines interleave.
use api_test.Prelude.{
  ℕ, zero, ◌+◌, ◌%◌, ◌^◌, ◌≡◌, Bool, true, false, List, [], ◌∷◌, ◌++◌, Option, none, some, ltb,
  length, if◌then◌else◌,
}
use api_test.Prelude.Int.{ℤ, pos, negsuc}

-- Where the worker stands: in its loop, in the loop that drains the queue, or returned.
pub data Worker : Type 0 where
  running : Worker
  draining : Worker
  returned : Worker

-- `ch` is the channel's buffer, `inner` the events handed to the inner logger, `stop` whether the
-- channel `stop` is closed.
pub record AsyncLogger (Event : Type 0) : Type 0 where
  pub ch : List Event
  pub inner : List Event
  pub stop : Bool
  pub dropped : ℕ
  pub worker : Worker

-- The channel's depth for a configured size.
unfoldable pub buffer_size : ℤ → ℕ
buffer_size (pos zero) = 1024
buffer_size (pos n) = n
buffer_size (negsuc n) = 1024

module _ {Event : Type 0} where
  unfoldable pub new_async_logger : AsyncLogger Event
  new_async_logger = record { ch = []; inner = []; stop = false; dropped = 0; worker = running }

  -- The counter of dropped events is a uint64.
  unfoldable pub log : ℕ → Event → AsyncLogger Event → AsyncLogger Event
  log size ev a =
      if ltb (length a.ch) size
      then record a { ch = a.ch ++ ev ∷ [] }
      else record a { dropped = (a.dropped + 1) % 2 ^ 64 }

  unfoldable pub close : AsyncLogger Event → AsyncLogger Event
  close a = record a { stop = true }

  -- The worker receives the event `ev`, with `rest` behind it, and writes it.
  unfoldable pub receive : Event → List Event → AsyncLogger Event → AsyncLogger Event
  receive ev rest a = record a { ch = rest; inner = a.inner ++ ev ∷ [] }

  -- One step of a caller or of the worker, with the event that a caller logs. The worker's select
  -- takes either case that is ready.
  pub data Step (size : ℕ) (a : AsyncLogger Event) : Option Event → AsyncLogger Event → Type 0 where
    logs : (ev : Event) → Step size a (some ev) (log size ev a)
    closes : Step size a none (close a)
    receives :
        (ev : Event) (rest : List Event)
        → a.worker ≡ running
        → a.ch ≡ ev ∷ rest
        → Step size a none (receive ev rest a)
    stops : a.worker ≡ running → a.stop ≡ true → Step size a none (record a { worker = draining })
    drains :
        (ev : Event) (rest : List Event)
        → a.worker ≡ draining
        → a.ch ≡ ev ∷ rest
        → Step size a none (receive ev rest a)
    returns : a.worker ≡ draining → a.ch ≡ [] → Step size a none (record a { worker = returned })

  abbrev pub cons? : Option Event → List Event → List Event
  cons? none evs = evs
  cons? (some ev) evs = ev ∷ evs

  -- Any number of steps, and the events logged in them, in order.
  pub data Steps (size : ℕ) : AsyncLogger Event → List Event → AsyncLogger Event → Type 0 where
    done : (a : AsyncLogger Event) → Steps size a [] a
    step :
        {a b c : AsyncLogger Event} {ev : Option Event} {evs : List Event}
        → Step size a ev b
        → Steps size b evs c
        → Steps size a (cons? ev evs) c
