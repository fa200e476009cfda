-- ===== src/Endpoints/Export.antt =====
-- The big body of the export endpoints (pkg/endpoints/export/export.go).
use api_test.Prelude.{
  ℕ, zero, suc, ◌+◌, ◌*◌, ◌/◌, Bool, not, ◌||◌, List, [], ◌∷◌, ◌++◌, ltb, length, take, concat,
  if◌then◌else◌,
}
use api_test.Prelude.Int.{pos, ltb_ℤ, pos_part}
use api_test.Prelude.Result.{Result, ok, err}
use api_test.Std.Text.{Text, text, is_empty}
use api_test.Std.Strconv.{itoa, itoa_int, atoi}
use api_test.Std.Base64.{hex}
use api_test.Std.Http.{Request, Response, raw, json_headers, values_get, write_error}

abbrev pub default_size_kb : ℕ
default_size_kb = 64

abbrev pub max_body_kb : ℕ
max_body_kb = 10240

-- A positive parameter up to a maximum, with its default.
unfoldable pub bounded_size : Text → ℕ → ℕ → Text → Result Text ℕ
bounded_size raw_text def upper name =
    let (n, parsed) = atoi raw_text in
    if is_empty raw_text
    then ok def
    else if not parsed || ltb_ℤ n (pos 1)
    then err (name ++ text " must be a positive integer")
    else if ltb_ℤ (pos upper) n
    then err (name ++ text " " ++ itoa_int n ++ text " exceeds max " ++ itoa upper)
    else ok (pos_part n)

-- `gone i` is whether the client has gone when row i comes up.
module _ (sha256 : Text → Text) (gone : ℕ → Bool) where
  unfoldable pub row_value : Text → ℕ → Text
  row_value seed index = hex (take 8 (sha256 (seed ++ text ":" ++ itoa index)))

  unfoldable pub big_row : Text → ℕ → Text
  unfolding row_value
  big_row seed i =
      text "{\"index\":" ++ (itoa i ++ (text ",\"value\":\"" ++ (row_value seed i ++ text "\"}")))

  -- The comma in front of every row but the first.
  unfoldable pub separator : ℕ → Text
  separator zero = []
  separator (suc i) = text ","

  -- The rows from the i-th on, `left` at most, and the closing bracket, which a client that has gone
  -- does not get. The writer takes every byte.
  unfoldable pub big_loop : Text → ℕ → ℕ → ℕ → ℕ → List Text
  unfolding big_row separator
  big_loop seed target zero i written = text "]" ∷ []
  big_loop seed target (suc left) i written =
      let row = separator i ++ big_row seed i in
      let rest = big_loop seed target left (suc i) (written + length row) in
      if ltb written target then (if gone i then [] else row ∷ rest) else text "]" ∷ []

  unfoldable pub big_writes : Text → ℕ → List Text
  unfolding big_loop
  big_writes seed size_kb = text "[" ∷ big_loop seed (size_kb * 1024) (size_kb * 1024 / 40 + 64) 0 1

  unfoldable pub big_answer : Text → Result Text ℕ → Response Text
  unfolding big_writes
  big_answer seed (ok size_kb) = record {
    status = 200;
    headers = json_headers;
    body = raw (concat (big_writes seed size_kb));
  }
  big_answer seed (err message) = write_error 400 message

  -- GET /v1/export/big-body
  unfoldable pub big_body : Request → Response Text
  unfolding big_answer bounded_size
  big_body r = big_answer (values_get r.query (text "seed")) (
      bounded_size (values_get r.query (text "size_kb")) default_size_kb max_body_kb
        (text "size_kb"))
