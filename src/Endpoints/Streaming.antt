-- ===== src/Endpoints/Streaming.antt =====
-- The streaming endpoints (pkg/endpoints/streaming/streaming.go).
use api_test.Prelude.{
  ℕ, zero, suc, Bool, not, ◌||◌, ◌&&◌, List, [], ◌∷◌, ◌++◌, ltb, concat, if◌then◌else◌, get_elem?,
  Option, none, some, length,
}
use api_test.Prelude.Int.{ℤ, pos, ltb_ℤ, pos_part}
use api_test.Prelude.Result.{Result, ok, err, ◌>>=◌}
use api_test.Std.Text.{Text, text, is_empty}
use api_test.Std.Strconv.{itoa, itoa_int, atoi}
use api_test.Std.Http.{Request, Response, Table, raw, values_get, write_error}

pub record StreamQuery : Type 0 where
  pub count : ℕ
  pub delay_ms : ℕ
  pub seed : Text

abbrev pub default_count : ℕ
default_count = 5

abbrev pub max_count : ℕ
max_count = 1000

abbrev pub max_delay_ms : ℕ
max_delay_ms = 5000

-- A parameter from 0 to a maximum.
unfoldable pub bounded : Text → ℕ → ℤ × Bool → Result Text ℕ
bounded name upper (n, parsed) =
    if not parsed || ltb_ℤ n (pos 0)
    then err (name ++ text " must be a non-negative integer")
    else if ltb_ℤ (pos upper) n
    then err (name ++ text " " ++ itoa_int n ++ text " exceeds max " ++ itoa upper)
    else ok (pos_part n)

optional : Text → ℕ → Result Text ℕ → Result Text ℕ
optional raw_text default parsed = if is_empty raw_text then ok default else parsed

unfoldable pub parse_stream_query : Request → Result Text StreamQuery
unfolding bounded optional
parse_stream_query r = do
  let count_text = values_get r.query (text "count")
  let delay_text = values_get r.query (text "delay_ms")
  count ← optional count_text default_count (bounded (text "count") max_count (atoi count_text))
  delay ← optional delay_text 0 (bounded (text "delay_ms") max_delay_ms (atoi delay_text))
  ok (record { count = count; delay_ms = delay; seed = values_get r.query (text "seed") })

abbrev pub dict : List Text
dict =
    text "alpha"
    ∷ text "bravo"
    ∷ text "charlie"
    ∷ text "delta"
    ∷ text "echo"
    ∷ text "foxtrot"
    ∷ text "golf"
    ∷ text "hotel"
    ∷ text "india"
    ∷ text "juliet"
    ∷ text "kilo"
    ∷ text "lima"
    ∷ text "mike"
    ∷ text "november"
    ∷ text "oscar"
    ∷ text "papa"
    ∷ text "quebec"
    ∷ text "romeo"
    ∷ text "sierra"
    ∷ text "tango"
    ∷ text "uniform"
    ∷ text "victor"
    ∷ text "whiskey"
    ∷ text "xray"
    ∷ text "yankee"
    ∷ text "zulu"
    ∷ []

word_at : Option Text → Text
word_at none = []
word_at (some w) = w

-- The loop that the three handlers share: `left` lines from the i-th on, with a wait between two
-- that ends the stream where the client has gone.
unfoldable pub stream_loop : (ℕ → Text) → Bool → (ℕ → Bool) → ℕ → ℕ → List Text
stream_loop line waits cancelled i zero = []
stream_loop line waits cancelled i (suc left) =
    let rest = stream_loop line waits cancelled (suc i) left in
    line i ∷ (if waits && ltb 0 left && cancelled i then [] else rest)

-- `int_n` is IntN of the generator that FNV-1a of a text seeds; `cancelled i` is whether the client
-- goes away in the wait behind line i.
module _ (int_n : Text → ℕ → ℕ) (cancelled : ℕ → Bool) where
  unfoldable pub deterministic_word : Text → ℕ → Text
  unfolding word_at
  deterministic_word seed index =
      word_at (get_elem? dict (int_n (seed ++ text ":" ++ itoa index) (length dict)))

  unfoldable pub chunk_line : Text → ℕ → Text
  unfolding deterministic_word
  chunk_line seed i = text "chunk " ++ itoa i ++ text ": " ++ deterministic_word seed i ++ 10 ∷ []

  unfoldable pub sse_line : Text → ℕ → Text
  unfolding deterministic_word
  sse_line seed i =
      text "id: "
      ++ itoa i
      ++ 10 ∷ text "data: {\"id\":"
      ++ itoa i
      ++ text ",\"word\":\""
      ++ deterministic_word seed i
      ++ text "\"}"
      ++ 10 ∷ 10 ∷ []

  unfoldable pub ndjson_line : Text → ℕ → Text
  unfolding deterministic_word
  ndjson_line seed i =
      text "{\"index\":"
      ++ itoa i
      ++ text ",\"word\":\""
      ++ deterministic_word seed i
      ++ text "\"}"
      ++ 10 ∷ []

  -- The body of a stream.
  unfoldable pub stream : (Text → ℕ → Text) → StreamQuery → List Text
  unfolding stream_loop
  stream line q = stream_loop (line q.seed) (ltb 0 q.delay_ms) cancelled 0 q.count

  stream_answer : Table Text → (Text → ℕ → Text) → Result Text StreamQuery → Response Text
  unfolding stream
  stream_answer headers line (ok q) = record {
    status = 200;
    headers = headers;
    body = raw (concat (stream line q));
  }
  stream_answer headers line (err message) = write_error 400 message

  unfoldable pub chunked : Request → Response Text
  unfolding stream_answer chunk_line parse_stream_query
  chunked r =
      stream_answer ((text "Content-Type", text "text/plain; charset=utf-8") ∷ []) chunk_line
        (parse_stream_query r)

  unfoldable pub sse : Request → Response Text
  unfolding stream_answer sse_line parse_stream_query
  sse r =
      stream_answer
        ((text "Content-Type", text "text/event-stream")
          ∷ (text "Cache-Control", text "no-store")
          ∷ [])
        sse_line (parse_stream_query r)

  unfoldable pub ndjson : Request → Response Text
  unfolding stream_answer ndjson_line parse_stream_query
  ndjson r =
      stream_answer ((text "Content-Type", text "application/x-ndjson") ∷ []) ndjson_line
        (parse_stream_query r)
