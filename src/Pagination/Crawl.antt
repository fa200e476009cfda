-- ===== src/Pagination/Crawl.antt =====
-- A client of /v1/pagination/cursor that passes each next_cursor back, until there is none.
use api_test.Prelude.{
  ℕ, zero, suc, ◌+◌, ◌-◌, ◌≤◌, ◌<◌, min, ◌≡◌, refl, ◌∙◌, ap, false, List, [], ◌∷◌, ◌++◌, Option,
  none, some, arith, ltb, ltb→lt, lt→ltb, if◌then◌else◌, Bool-cases, inl, inr,
}
use api_test.Prelude.Int.{pos, int_limit, add_int_exact}
use api_test.Prelude.Result.{ok}
use api_test.Std.Text.{Text, text, is_empty, str_eq}
use api_test.Std.Strconv.{itoa, itoa_int, atoi-itoa, itoa-IsBytes}
use api_test.Std.Base64.{encode, decode-encode}
use api_test.Std.Http.{Request, write_json, json, failure, raw, nothing, values_get}
use api_test.Pagination.Params.{default_total, default_page_size}
use api_test.Pagination.Handlers.{Item, encode_cursor, decode_cursor, cursor_offset, cursor}
use api_test.Pagination.Accepts.{bounded_default-itoa, is_empty-itoa}
use api_test.Pagination.Window.{window, window_append, slice_items-eq-window}

-- decodeCursor gives back every offset below 2^63 that encodeCursor was given.
pub decode_cursor-encode_cursor :
    (n : ℕ) → n < int_limit → decode_cursor (encode_cursor (pos n)) ≡ some (pos n)
unfolding decode_cursor encode_cursor itoa_int
decode_cursor-encode_cursor n h =
    rw (decode-encode (itoa n) (itoa-IsBytes n), decode_cursor) (rw (atoi-itoa n h) (ground arith))

is_empty-encode : (s : Text) → is_empty s ≡ false → is_empty (encode s) ≡ false
unfolding encode
is_empty-encode [] h = h
is_empty-encode (a ∷ []) h = refl
is_empty-encode (a ∷ b ∷ []) h = refl
is_empty-encode (a ∷ b ∷ c ∷ s) h = refl

is_empty-encode_cursor : (n : ℕ) → is_empty (encode_cursor (pos n)) ≡ false
unfolding encode_cursor itoa_int
is_empty-encode_cursor n = is_empty-encode (itoa n) (is_empty-itoa n)

pub cursor_offset-encode_cursor :
    (n : ℕ) → n < int_limit → cursor_offset (encode_cursor (pos n)) ≡ ok (pos n)
unfolding cursor_offset
cursor_offset-encode_cursor n h =
    rw (is_empty-encode_cursor n) (rw (decode_cursor-encode_cursor n h, cursor_offset) refl)

unfoldable pub cursor_request : Request → Text → ℕ → ℕ → Request
cursor_request r c limit total = record r {
  query =
      (text "cursor", c ∷ [])
      ∷ (text "limit", itoa limit ∷ [])
      ∷ (text "total", itoa total ∷ [])
      ∷ [];
}

-- Sizes that the handlers accept.
pub record IsShape (size total : ℕ) : Type 0 where
  pub size_lo : 1 ≤ size
  pub size_hi : size ≤ 1000
  pub total_lo : 1 ≤ total
  pub total_hi : total ≤ 10000

module _ (sha256 : Text → Text) (r : Request) (limit total : ℕ) where
  unfoldable pub next_cursor_at : ℕ → Text
  next_cursor_at offset =
      if ltb (offset + limit) total then encode_cursor (pos (offset + limit)) else []

  pub cursor_step :
      (c : Text) (offset : ℕ)
      → IsShape limit total
      → cursor_offset c ≡ ok (pos offset)
      → offset < total
      → cursor sha256 (cursor_request r c limit total)
        ≡ write_json 200 (record {
          items = window sha256 offset (min limit (total - offset));
          next_cursor = next_cursor_at offset;
        })
  unfolding cursor cursor_request next_cursor_at values_get str_eq
  cursor_step c offset shape h inside =
      rw
        (
          bounded_default-itoa limit 1000 default_page_size (text "limit") shape.size_lo
              shape.size_hi (omega arith),
          bounded_default-itoa total 10000 default_total (text "total") shape.total_lo
              shape.total_hi (omega arith),
          h,
          slice_items-eq-window sha256 offset limit total inside (omega arith),
          add_int_exact offset limit (omega arith),
        )
        (rw (lt→ltb offset total inside))

  collect : List Item → Option (List Item) → Option (List Item)
  collect items none = none
  collect items (some rest) = some (items ++ rest)

  -- The client: `none` is a page that failed, or no end within `fuel` requests.
  pub crawl : ℕ → Text → Option (List Item)
  unfolding collect
  crawl zero c = none
  crawl (suc fuel) c = elim (cursor sha256 (cursor_request r c limit total)).body [
    | json page ↦
        let rest = crawl fuel page.next_cursor in
        if is_empty page.next_cursor then some page.items else collect page.items rest
    | failure message ↦ none
    | raw message ↦ none
    | nothing ↦ none
  ]

  crawl_from :
      (fuel offset : ℕ) (c : Text)
      → IsShape limit total
      → cursor_offset c ≡ ok (pos offset)
      → offset < total
      → total - offset ≤ fuel
      → crawl fuel c ≡ some (window sha256 offset (total - offset))
  unfolding crawl next_cursor_at
  crawl_from zero offset c shape h inside enough = absurd (omega arith)
  crawl_from (suc fuel) offset c shape h inside enough =
      rw (cursor_step c offset shape h inside, crawl)
        (elim (Bool-cases (ltb (offset + limit) total)) [
          | inl more ↦
              let further : offset + limit < total = ltb→lt (offset + limit) total more in
              let full : min limit (total - offset) ≡ limit = omega arith in
              let left : limit + (total - (offset + limit)) ≡ total - offset = omega arith in
              rw (more, next_cursor_at)
                (rw
                  (
                    is_empty-encode_cursor (offset + limit),
                    crawl_from fuel (offset + limit) (encode_cursor (pos (offset + limit))) shape
                        (cursor_offset-encode_cursor (offset + limit) (omega arith)) further
                        (omega arith),
                  )
                  (ap some (
                    rw full (window_append sha256 offset limit (total - (offset + limit)))
                    ∙ ap (window sha256 offset) left)))
          | inr last ↦
              let rest : min limit (total - offset) ≡ total - offset = ground arith in
              rw (last, next_cursor_at) (ap (λ n. some (window sha256 offset n)) rest)
        ])

  -- A client that starts without a cursor and passes back each next_cursor, with a limit and a
  -- total in range, gets every item of the dataset once, in order, and stops within `total`
  -- requests.
  pub crawl_complete : IsShape limit total → crawl total [] ≡ some (window sha256 0 total)
  unfolding cursor_offset
  crawl_complete shape =
      let whole : total - 0 ≡ total = omega arith in
      crawl_from total 0 [] shape refl (omega arith) (omega arith)
      ∙ ap (λ n. some (window sha256 0 n)) whole
