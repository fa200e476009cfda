-- ===== src/Endpoints/Tests.antt =====
-- Requests and streams at which the theorems on the endpoints apply.
use api_test.Prelude.{ℕ, ◌≡◌, refl, Bool, true, false, [], ◌∷◌, ◌++◌, ◌==◌, length}
use api_test.Prelude.Int.{pos}
use api_test.Std.Text.{Text, text, str_eq}
use api_test.Std.Strconv.{atoi, itoa}
use api_test.Std.Http.{Request, lookup, values_get, raw, json_headers}
use api_test.Endpoints.Data.{sized, letters}
use api_test.Endpoints.Sized.{sized_lem}
use api_test.Endpoints.Streaming.{StreamQuery}

abbrev digest : Text → Text
digest s = text "0123456789abcdef0123456789abcdef"

abbrev request : Request
request = record {
  method = text "GET";
  path = text "/v1/sized";
  host = text "h";
  tls = false;
  header = [];
  query = (text "bytes", text "30" ∷ []) ∷ [];
}

thirty : atoi (values_get request.query (text "bytes")) ≡ (pos 30, true)
unfolding atoi values_get lookup str_eq
thirty = refl

sized_lem_example :
    (sized request ≡ (record {
      status = 200;
      headers = json_headers;
      body =
          raw (
            (text "{\"bytes\":" ++ itoa 30 ++ text ",\"body\":\"") ++ (letters 0 30 ++ text "\"}"));
    }))
    × (length (letters 0 30) ≡ 30)
sized_lem_example = sized_lem request 30 thirty

abbrev int_n : Text → ℕ → ℕ
int_n s n = 3

abbrev short : StreamQuery
short = record { count = 3; delay_ms = 10; seed = text "s" }

abbrev long : StreamQuery
long = record { count = 5; delay_ms = 0; seed = text "s" }

abbrev second_wait : ℕ → Bool
second_wait i = i == 1
