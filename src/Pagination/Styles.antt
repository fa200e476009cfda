-- ===== src/Pagination/Styles.antt =====
-- The OData style exactly, and the agreement of the three styles on the same part of the dataset.
use api_test.Prelude.{
  ℕ, ◌+◌, ◌-◌, ◌*◌, ◌≤◌, ◌<◌, min, ◌≡◌, List, [], ◌∷◌, arith, ltb, lt→ltb, if◌then◌else◌,
}
use api_test.Prelude.Int.{pos, add_int_exact}
use api_test.Std.Text.{Text, text, str_eq}
use api_test.Std.Strconv.{itoa}
use api_test.Std.Http.{Request, Body, json, write_json, values_get}
use api_test.Pagination.Params.{default_total, default_page_size}
use api_test.Pagination.Handlers.{
  Item, ODataResponse, CursorResponse, encode_cursor, odata, odata_link, cursor, link,
  request_base_url,
}
use api_test.Pagination.Accepts.{bounded_default-itoa, non_negative_default-itoa}
use api_test.Pagination.Window.{window, slice_items-eq-window}
use api_test.Pagination.Crawl.{IsShape, cursor_request, cursor_step, cursor_offset-encode_cursor}
use api_test.Pagination.Pages.{link_request, link_items, link_items-link, page_count, page_start-lt}

unfoldable pub odata_request : Request → ℕ → ℕ → ℕ → Request
odata_request r top skip total = record r {
  query =
      (text "$top", itoa top ∷ [])
      ∷ (text "$skip", itoa skip ∷ [])
      ∷ (text "total", itoa total ∷ [])
      ∷ [];
}

abbrev pub odata_items : Body ODataResponse → List Item
odata_items (json b) = b.value
odata_items _ = []

abbrev pub cursor_items : Body CursorResponse → List Item
cursor_items (json b) = b.items
cursor_items _ = []

module _ (sha256 : Text → Text) (r : Request) {size total : ℕ} (shape : IsShape size total) where
  -- Inside the dataset the OData page is the window at $skip, its count is the dataset's size, and
  -- it links to $skip + $top exactly when items are left there.
  pub odata_lem :
      (skip : ℕ)
      → skip < total
      → odata sha256 (odata_request r size skip total)
        ≡ write_json 200 (record {
          value = window sha256 skip (min size (total - skip));
          count = pos total;
          next_link =
              if ltb (skip + size) total
              then odata_link
                  (request_base_url (odata_request r size skip total))
                  (pos size)
                  (pos (skip + size))
                  (pos total)
              else [];
        })
  unfolding odata odata_request values_get str_eq
  odata_lem skip inside =
      rw
        (
          bounded_default-itoa size 1000 default_page_size (text "$top") shape.size_lo shape.size_hi
              (omega arith),
          non_negative_default-itoa skip (pos 0) (omega arith),
          bounded_default-itoa total 10000 default_total (text "total") shape.total_lo
              shape.total_hi (omega arith),
          slice_items-eq-window sha256 skip size total inside (omega arith),
          add_int_exact skip size (omega arith),
        )
        (rw (lt→ltb skip total inside))

  -- Page p of /link, $skip = (p - 1) * size of /odata and the cursor of that offset show the same
  -- items.
  pub styles_agree :
      (page : ℕ)
      → 1 ≤ page
      → page ≤ page_count total size
      → (link_items (link sha256 (link_request r page size total)).body
          ≡ odata_items (odata sha256 (odata_request r size ((page - 1) * size) total)).body)
        × (link_items (link sha256 (link_request r page size total)).body
            ≡ cursor_items
                (cursor sha256
                  (cursor_request r (encode_cursor (pos ((page - 1) * size))) size total)).body)
  styles_agree page one inside =
      let start : (page - 1) * size < total =
        page_start-lt page total size one shape.size_lo shape.total_lo inside in
      let shown = link_items-link sha256 r shape page one inside in
      (
        rw (odata_lem ((page - 1) * size) start) shown,
        rw
            (cursor_step sha256 r size total (encode_cursor (pos ((page - 1) * size)))
              ((page - 1) * size) shape
              (cursor_offset-encode_cursor ((page - 1) * size) (omega arith)) start)
            shown,
      )
