-- ===== src/Pagination/Handlers.antt =====
-- The three handlers of pagination.go. crypto/sha256 is the parameter `sha256`.
use api_test.Prelude.{
  ℕ, zero, suc, ◌+◌, ◌-◌, Bool, not, ◌||◌, List, [], ◌∷◌, ◌++◌, Option, none, some, take,
  if◌then◌else◌,
}
use api_test.Prelude.Int.{ℤ, pos, pos_part, neg_part, ltb_ℤ, leb_ℤ, add_int, sub_int, mul_int}
use api_test.Prelude.Result.{Result, ok, err, ◌>>=◌, ◌>>◌, ensure, relabel}
use api_test.Std.Text.{Text, text, is_empty}
use api_test.Std.Strconv.{itoa_int, atoi}
use api_test.Std.Base64.{encode, decode, hex}
use api_test.Std.Http.{Request, Response, write_json, write_error, values_get, json, json_headers}
use api_test.Pagination.Params.{
  default_total, default_page_size, max_total, max_page_size, past_end, page_past_end,
  positive_default, non_negative_default, bounded_default, last_page_for,
}

pub record Item : Type 0 where
  pub id : ℤ
  pub value : Text

pub record LinkResponse : Type 0 where
  pub items : List Item
  pub page : ℤ
  pub per_page : ℤ
  pub total : ℤ

-- `next_link` is empty where the encoder leaves the field out.
pub record ODataResponse : Type 0 where
  pub value : List Item
  pub count : ℤ
  pub next_link : Text

pub record CursorResponse : Type 0 where
  pub items : List Item
  pub next_cursor : Text

unfoldable pub encode_cursor : ℤ → Text
encode_cursor offset = encode (itoa_int offset)

cursor_number : ℤ × Bool → Option ℤ
cursor_number (n, parsed) = if not parsed || ltb_ℤ n (pos 0) then none else some n

unfoldable pub decode_cursor : Text → Option ℤ
unfolding cursor_number
decode_cursor s = elim (decode s) [ none ↦ none | some bytes ↦ cursor_number (atoi bytes) ]

unfoldable pub request_base_url : Request → Text
request_base_url r = (if r.tls then text "https" else text "http") ++ text "://" ++ r.host ++ r.path

unfoldable pub link_header : Text → Text → ℤ → ℤ → ℤ → Text
link_header base rel page per_page total =
    text "<"
    ++ base
    ++ text "?page="
    ++ itoa_int page
    ++ text "&per_page="
    ++ itoa_int per_page
    ++ text "&total="
    ++ itoa_int total
    ++ text ">; rel=\""
    ++ rel
    ++ text "\""

unfoldable pub odata_link : Text → ℤ → ℤ → ℤ → Text
odata_link base top skip total =
    base
    ++ text "?$top="
    ++ itoa_int top
    ++ text "&$skip="
    ++ itoa_int skip
    ++ text "&total="
    ++ itoa_int total

-- strings.Join
unfoldable pub join : Text → List Text → Text
join sep [] = []
join sep (s ∷ []) = s
join sep (s ∷ t ∷ ts) = s ++ sep ++ join sep (t ∷ ts)

-- The number of rounds of `for i := a; i < b; i++`.
unfoldable pub rounds : ℤ → ℤ → ℕ
rounds a b = pos_part b + neg_part a - (neg_part b + pos_part a)

abbrev pub clamp : ℤ → ℤ → ℤ
clamp total end = if ltb_ℤ total end then total else end

-- The texts of an error that a handler writes with status 400.
abbrev pub answer {ℓ} : {A : Type ℓ} → Result Text (Response A) → Response A
answer (ok response) = response
answer (err message) = write_error 400 message

unfoldable pub cursor_offset : Text → Result Text ℤ
cursor_offset c =
    if is_empty c
    then ok (pos 0)
    else (elim (decode_cursor c) [ none ↦ err (text "cursor is malformed") | some n ↦ ok n ])

module _ (sha256 : Text → Text) where
  unfoldable pub deterministic_value : ℤ → Text
  deterministic_value id = hex (take 8 (sha256 (itoa_int id)))

  unfoldable pub item : ℤ → Item
  item i = record { id = i; value = deterministic_value i }

  unfoldable pub slice_loop : ℕ → ℤ → List Item
  slice_loop zero i = []
  slice_loop (suc n) i = item i ∷ slice_loop n (add_int i (pos 1))

  unfoldable pub slice_items : ℤ → ℤ → ℤ → List Item
  unfolding slice_loop rounds
  slice_items start page_size total =
      if leb_ℤ total start
      then []
      else slice_loop (rounds start (clamp total (add_int start page_size))) start

  unfoldable pub link_page : Request → ℤ → ℤ → ℤ → ℤ → Response LinkResponse
  link_page r page per_page total last_page =
      let base = request_base_url r in
      let parts =
        link_header base (text "first") (pos 1) per_page total
          ∷ link_header base (text "last") last_page per_page total
          ∷ (if ltb_ℤ (pos 1) page
              then link_header base (text "prev") (sub_int page (pos 1)) per_page total ∷ []
              else [])
        ++ (if ltb_ℤ page last_page
            then link_header base (text "next") (add_int page (pos 1)) per_page total ∷ []
            else []) in
      record {
        status = 200;
        headers = (text "Link", join (text ", ") parts) ∷ json_headers;
        body = json (record {
          items = slice_items (mul_int (sub_int page (pos 1)) per_page) per_page total;
          page = page;
          per_page = per_page;
          total = total;
        });
      }

  -- The handler, on what its three parameters parse to.
  unfoldable pub link_from :
      Request → Result Text ℤ → Result Text ℤ → Result Text ℤ → Result Text (Response LinkResponse)
  link_from r page? per_page? total? = do
    page ← relabel (text "page must be a positive integer") page?
    per_page ← per_page?
    total ← total?
    let last_page = last_page_for total per_page
    ensure (leb_ℤ page last_page) (page_past_end page total per_page last_page)
    ok (link_page r page per_page total last_page)

  -- GET /v1/pagination/link
  unfoldable pub link : Request → Response LinkResponse
  unfolding link_from
  link r = answer (
      link_from r (positive_default (values_get r.query (text "page")) (pos 1))
        (bounded_default (values_get r.query (text "per_page")) default_page_size max_page_size
          (text "per_page"))
        (bounded_default (values_get r.query (text "total")) default_total max_total
          (text "total")))

  unfoldable pub odata_from :
      Request → Result Text ℤ → Result Text ℤ → Result Text ℤ → Result Text (Response ODataResponse)
  odata_from r top? skip? total? = do
    top ← top?
    skip ← relabel (text "$skip must be a non-negative integer") skip?
    total ← total?
    ensure (ltb_ℤ skip total) (past_end (text "$skip") skip total)
    ok (
        write_json 200 (record {
          value = slice_items skip top total;
          count = total;
          next_link =
              if ltb_ℤ (add_int skip top) total
              then odata_link (request_base_url r) top (add_int skip top) total
              else [];
        }))

  -- GET /v1/pagination/odata
  unfoldable pub odata : Request → Response ODataResponse
  unfolding odata_from
  odata r = answer (
      odata_from r
        (bounded_default (values_get r.query (text "$top")) default_page_size max_page_size
          (text "$top"))
        (non_negative_default (values_get r.query (text "$skip")) (pos 0))
        (bounded_default (values_get r.query (text "total")) default_total max_total
          (text "total")))

  unfoldable pub cursor_from :
      Result Text ℤ → Result Text ℤ → Result Text ℤ → Result Text (Response CursorResponse)
  cursor_from limit? total? offset? = do
    limit ← limit?
    total ← total?
    offset ← offset?
    ensure (ltb_ℤ offset total) (past_end (text "cursor offset") offset total)
    ok (
        write_json 200 (record {
          items = slice_items offset limit total;
          next_cursor =
              if ltb_ℤ (add_int offset limit) total
              then encode_cursor (add_int offset limit)
              else [];
        }))

  -- GET /v1/pagination/cursor
  unfoldable pub cursor : Request → Response CursorResponse
  unfolding cursor_from
  cursor r = answer (
      cursor_from
        (bounded_default (values_get r.query (text "limit")) default_page_size max_page_size
          (text "limit"))
        (bounded_default (values_get r.query (text "total")) default_total max_total (text "total"))
        (cursor_offset (values_get r.query (text "cursor"))))
