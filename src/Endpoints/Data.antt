-- ===== src/Endpoints/Data.antt =====
-- The data endpoints (pkg/endpoints/data/data.go): fixed and sized.
use api_test.Prelude.{
  ℕ, zero, suc, ◌+◌, ◌-◌, ◌%◌, ◌/◌, min, Bool, not, ◌||◌, List, [], ◌∷◌, ◌++◌, ltb, concat,
  if◌then◌else◌, get_elem?, Option, none, some,
}
use api_test.Prelude.Int.{ℤ, pos, ltb_ℤ, pos_part}
use api_test.Prelude.Result.{Result, ok, err}
use api_test.Std.Text.{Text, text}
use api_test.Std.Strconv.{itoa, itoa_int, atoi}
use api_test.Std.Base64.{hex}
use api_test.Std.Http.{Request, Response, raw, json_headers, values_get, write_json, write_error}

pub record FixedResponse : Type 0 where
  pub key : Text
  pub hash : Text
  pub body : Text

-- The handler of /v1/fixed/{key}, on its path value.
unfoldable pub fixed : (Text → Text) → Text → Response FixedResponse
fixed sha256 key =
    let h = hex (sha256 key) in
    write_json 200 (record { key = key; hash = h; body = text "fixed[" ++ key ++ text "]: " ++ h })

abbrev sized_alphabet : Text
sized_alphabet = text "abcdefghijklmnopqrstuvwxyz"

abbrev pub sized_max : ℕ
sized_max = 33554432

-- The byte at an index that is in range.
byte_at : Option ℕ → ℕ
byte_at none = 0
byte_at (some c) = c

-- The content's byte at an offset.
unfoldable pub letter : ℕ → ℕ
unfolding byte_at
letter i = byte_at (get_elem? sized_alphabet (i % 26))

-- The bytes of the content from `written` on, `chunk` of them.
unfoldable pub letters : ℕ → ℕ → Text
unfolding letter
letters written zero = []
letters written (suc chunk) = letter written ∷ letters (suc written) chunk

-- The writes of the loop, a buffer of 4096 bytes at most each.
unfoldable pub sized_loop : ℕ → ℕ → ℕ → List Text
unfolding letters
sized_loop zero n written = []
sized_loop (suc fuel) n written =
    let chunk = min (n - written) 4096 in
    let rest = sized_loop fuel n (written + chunk) in
    if ltb written n then letters written chunk ∷ rest else []

unfoldable pub sized_writes : ℕ → List Text
unfolding sized_loop
sized_writes n =
    (text "{\"bytes\":" ++ itoa n ++ text ",\"body\":\"")
    ∷ (sized_loop (n / 4096 + 1) n 0 ++ text "\"}" ∷ [])

unfoldable pub sized_bytes : ℤ × Bool → Result Text ℕ
sized_bytes (n, parsed) =
    if not parsed || ltb_ℤ n (pos 0)
    then err (text "bytes must be a non-negative integer")
    else if ltb_ℤ (pos sized_max) n
    then err (text "bytes " ++ itoa_int n ++ text " exceeds max " ++ itoa sized_max)
    else ok (pos_part n)

unfoldable pub sized_answer : Result Text ℕ → Response Text
unfolding sized_writes
sized_answer (ok n) = record {
  status = 200;
  headers = json_headers;
  body = raw (concat (sized_writes n));
}
sized_answer (err message) = write_error 400 message

-- GET /v1/sized
unfoldable pub sized : Request → Response Text
unfolding sized_bytes sized_answer
sized r = sized_answer (sized_bytes (atoi (values_get r.query (text "bytes"))))
