-- ===== src/Reports/Stream.antt =====
-- The live stream of events (auditStream of pkg/httpsrv/portal_audit_stream.go).
use api_test.Prelude.{
  ℕ, zero, suc, ◌+◌, ◌-◌, Bool, true, false, not, ◌||◌, List, [], ◌∷◌, ◌++◌, Option, none, some,
  ltb, ◌==◌, if◌then◌else◌, length, take, drop, any,
}
use api_test.Prelude.Int.{ℤ, pos}
use api_test.Prelude.Result.{Result, ok, err}
use api_test.Std.Text.{Text, text, str_eq}
use api_test.Std.Strconv.{itoa}
use api_test.Audit.Event.{Event}
use api_test.Audit.Memory.{QueryFilter, max_query_limit}
use api_test.Reports.Filter.{AuditLog}
pub mod Once
pub mod Complete

-- What is written to the client; `saturated` carries the number of events of the tick.
pub data Frame : Type 0 where
  opened : Frame
  heartbeat : Frame
  audit : Event → Frame
  error : Text → Frame
  saturated : ℕ → Frame

-- What the loop waits for: a tick of the heartbeat, a tick of the poll with the clock's reading and
-- the logger as the queries of the tick find it, or the end of the request.
pub data Signal : Type 0 where
  beat : Signal
  poll : ℕ → AuditLog → Signal
  gone : Signal

abbrev pub max_pages : ℕ
max_pages = 10

unfoldable pub poll_filter : ℕ → ℕ → QueryFilter
poll_filter last_seen cursor = record {
  from = some last_seen;
  to = some cursor;
  method = [];
  path = [];
  route_name = [];
  user_id = [];
  session_id = [];
  event_id = [];
  status = pos 0;
  success = none;
  search = [];
  limit = pos max_query_limit;
  offset = pos 0;
}

-- The map of identifiers that the tick has shown.
unfoldable pub was_seen : Text → List Text → Bool
was_seen id seen = any (λ s. str_eq s id) seen

-- The loop over a page: the events shown, and the identifiers seen behind it.
unfoldable pub emit_page : ℕ → List Text → List Event → List Event × List Text
unfolding was_seen
emit_page last_seen seen [] = ([], seen)
emit_page last_seen seen (ev ∷ events) =
    let skip = not (ltb last_seen ev.timestamp) || was_seen ev.id seen in
    let rest = emit_page last_seen (if skip then seen else ev.id ∷ seen) events in
    (if skip then rest.0 else ev ∷ rest.0, rest.1)

unfoldable pub last_timestamp : ℕ → List Event → ℕ
last_timestamp cursor [] = cursor
last_timestamp cursor (ev ∷ events) = last_timestamp ev.timestamp events

unfoldable pub frames_of : List Event → List Frame
frames_of [] = []
frames_of (ev ∷ events) = audit ev ∷ frames_of events

-- What follows a page: nothing behind one that is not full, the mark of a tick that is stuck behind
-- one that showed nothing, and else the next page, up to its oldest event.
unfoldable pub after_query :
    (ℕ → List Text → List Frame) → ℕ → ℕ → List Text → List Event → List Frame
unfolding emit_page last_timestamp frames_of
after_query next last_seen cursor seen events =
    let (fresh, seen') = emit_page last_seen seen events in
    let rest = next (last_timestamp cursor events) seen' in
    frames_of fresh
    ++ (if ltb (length events) max_query_limit
        then []
        else if length fresh == 0
        then saturated (length seen') ∷ []
        else rest)

unfoldable pub after_answer :
    (ℕ → List Text → List Frame) → ℕ → ℕ → List Text → Result Text (List Event) → List Frame
unfolding after_query
after_answer next last_seen cursor seen (err e) = error e ∷ []
after_answer next last_seen cursor seen (ok events) = after_query next last_seen cursor seen events

module _ (log : AuditLog) (last_seen : ℕ) where
  unfoldable pub query_page : (ℕ → List Text → List Frame) → ℕ → List Text → List Frame
  unfolding after_answer
  query_page next cursor seen =
      after_answer next last_seen cursor seen (log.run_query (poll_filter last_seen cursor))

  unfoldable pub tick_pages : ℕ → ℕ → List Text → List Frame
  unfolding query_page
  tick_pages zero cursor seen = []
  tick_pages (suc pages) cursor seen = query_page (tick_pages pages) cursor seen

  unfoldable pub tick : ℕ → List Frame
  unfolding tick_pages
  tick now = tick_pages max_pages now []

-- The loop, from the time up to which events have been shown.
unfoldable pub stream_from : ℕ → List Signal → List Frame
unfolding tick
stream_from last_seen [] = []
stream_from last_seen (gone ∷ signals) = []
stream_from last_seen (beat ∷ signals) = heartbeat ∷ stream_from last_seen signals
stream_from last_seen (poll now log ∷ signals) = tick log last_seen now ++ stream_from now signals

-- `start` is the clock's reading when the client connects.
unfoldable pub audit_stream : ℕ → List Signal → List Frame
unfolding stream_from
audit_stream start signals = opened ∷ stream_from start signals

-- `marshal_text` and `marshal` are json.Marshal.
module _ (marshal_text : Text → Text) (marshal : Event → Text) where
  unfoldable pub json_escape : Text → Text
  json_escape s =
      let b = marshal_text s in if ltb (length b) 2 then [] else take (length b - 2) (drop 1 b)

  -- The bytes of a frame.
  unfoldable pub frame_text : Frame → Text
  unfolding json_escape itoa
  frame_text opened = text ": stream open\n"
  frame_text heartbeat = text ": heartbeat\n"
  frame_text (error e) = text "event: error\ndata: " ++ (json_escape e ++ text "\n\n")
  frame_text (audit ev) =
      text "id: " ++ (ev.id ++ (text "\nevent: audit\ndata: " ++ (marshal ev ++ text "\n\n")))
  frame_text (saturated n) =
      text "event: saturated\ndata: {\"reason\":\"tied_timestamps\",\"emitted_this_tick\":"
      ++ (itoa n ++ text "}\n\n")
