-- ===== src/Pagination/Pages.antt =====
-- The numbered pages of /v1/pagination/link.
use api_test.Prelude.{
  ℕ, zero, suc, ◌+◌, ◌-◌, ◌*◌, ◌/◌, ◌≤◌, ◌<◌, min, ◌≡◌, ◌∙◌, ap, sym, List, [], ◌∷◌, ◌++◌, arith,
}
use api_test.Prelude.Int.{
  pos, int_limit, add_int_exact, sub_int_exact, mul_int_exact, div_int_exact,
}
use api_test.Std.Text.{Text, text, str_eq}
use api_test.Std.Strconv.{itoa}
use api_test.Std.Http.{Request, Body, json, values_get}
use api_test.Pagination.Params.{last_page_for, default_total, default_page_size}
use api_test.Pagination.Handlers.{Item, LinkResponse, link, link_page}
use api_test.Pagination.Accepts.{bounded_default-itoa, positive_default-itoa}
use api_test.Pagination.Crawl.{IsShape}
use api_test.Pagination.Window.{window, window_append, slice_items-eq-window}

-- The number of pages, rounded up.
unfoldable pub page_count : ℕ → ℕ → ℕ
page_count total per_page = (total + per_page - 1) / per_page

pub last_page_for-eq-page_count :
    (total per_page : ℕ)
    → 1 ≤ total
    → 1 ≤ per_page
    → total + per_page < int_limit
    → last_page_for (pos total) (pos per_page) ≡ pos (page_count total per_page)
unfolding last_page_for page_count
last_page_for-eq-page_count total per_page t p fits = ground (
  arith,
  add_int_exact total per_page,
  sub_int_exact (total + per_page) 1,
  div_int_exact (total + per_page - 1) per_page,
)

pub page_start-lt :
    (page total per_page : ℕ)
    → 1 ≤ page
    → 1 ≤ per_page
    → 1 ≤ total
    → page ≤ page_count total per_page
    → (page - 1) * per_page < total
unfolding page_count
page_start-lt page total per_page one p t h = grind arith

-- The last page reaches the end of the dataset.
page_count-reaches :
    (total per_page : ℕ) → 1 ≤ per_page → 1 ≤ total → total ≤ page_count total per_page * per_page
unfolding page_count
page_count-reaches total per_page p t = grind arith

pub page_count_bound :
    (total per_page : ℕ) → 1 ≤ per_page → total ≤ 10000 → page_count total per_page ≤ 10000
unfolding page_count
page_count_bound total per_page p t = grind arith

unfoldable pub link_request : Request → ℕ → ℕ → ℕ → Request
link_request r page per_page total = record r {
  query =
      (text "page", itoa page ∷ [])
      ∷ (text "per_page", itoa per_page ∷ [])
      ∷ (text "total", itoa total ∷ [])
      ∷ [];
}

abbrev pub link_items : Body LinkResponse → List Item
link_items (json b) = b.items
link_items _ = []

-- A page that the handler accepts is the window from (page - 1) * per_page on.
module _ (sha256 : Text → Text) (r : Request) where
  link_items-page :
      (q : Request) (page per_page total last_page : ℕ)
      → 1 ≤ page
      → 1 ≤ per_page
      → per_page ≤ 1000
      → total ≤ 10000
      → page < int_limit
      → (page - 1) * per_page < total
      → link_items (link_page sha256 q (pos page) (pos per_page) (pos total) (pos last_page)).body
        ≡ window sha256 ((page - 1) * per_page) (min per_page (total - (page - 1) * per_page))
  unfolding link_page
  link_items-page q page per_page total last_page one p p' t big inside = rw (
    sub_int_exact page 1 one big,
    mul_int_exact (page - 1) per_page (omega arith),
    slice_items-eq-window sha256 ((page - 1) * per_page) per_page total inside (omega arith),
  )

  link_page_of :
      (page per_page total : ℕ)
      → 1 ≤ page
      → 1 ≤ per_page
      → per_page ≤ 1000
      → 1 ≤ total
      → total ≤ 10000
      → page ≤ page_count total per_page
      → page < int_limit
      → link sha256 (link_request r page per_page total)
        ≡ link_page sha256
            (link_request r page per_page total)
            (pos page)
            (pos per_page)
            (pos total)
            (pos (page_count total per_page))
  unfolding link link_request values_get str_eq
  link_page_of page per_page total one p p' t t' inside big =
      rw
        (
          positive_default-itoa page (pos 1) one big,
          bounded_default-itoa per_page 1000 default_page_size (text "per_page") p p' (omega arith),
          bounded_default-itoa total 10000 default_total (text "total") t t' (omega arith),
          last_page_for-eq-page_count total per_page t p (omega arith),
        )
        (ground arith)

  -- The items of pages 1 to n.
  pub pages : ℕ → ℕ → ℕ → List Item
  pages per_page total zero = []
  pages per_page total (suc n) =
      pages per_page total n
      ++ link_items (link sha256 (link_request r (suc n) per_page total)).body

  module _ {per_page total : ℕ} (shape : IsShape per_page total) where
    page_count-le : page_count total per_page ≤ 10000
    page_count-le = page_count_bound total per_page shape.size_lo shape.total_hi

    pub link_items-link :
        (page : ℕ)
        → 1 ≤ page
        → page ≤ page_count total per_page
        → link_items (link sha256 (link_request r page per_page total)).body
          ≡ window sha256 ((page - 1) * per_page) (min per_page (total - (page - 1) * per_page))
    link_items-link page one inside =
        rw
          (link_page_of page per_page total one shape.size_lo shape.size_hi shape.total_lo
            shape.total_hi inside (omega (arith, page_count-le)))
          (link_items-page (link_request r page per_page total) page per_page total
            (page_count total per_page) one shape.size_lo shape.size_hi shape.total_hi
            (omega (arith, page_count-le))
            (page_start-lt page total per_page one shape.size_lo shape.total_lo inside))

    pages-eq-window :
        (n : ℕ)
        → n ≤ page_count total per_page
        → pages per_page total n ≡ window sha256 0 (min (n * per_page) total)
    unfolding pages window
    pages-eq-window zero h = let e : min (0 * per_page) total ≡ 0 = omega arith in rw e
    pages-eq-window (suc n) h =
        let start : (suc n - 1) * per_page < total =
          page_start-lt (suc n) total per_page (omega arith) shape.size_lo shape.total_lo h in
        let before : min (n * per_page) total ≡ n * per_page = grind arith in
        let here : (suc n - 1) * per_page ≡ n * per_page = grind arith in
        let after : n * per_page + min per_page (total - n * per_page)
            ≡ min (suc n * per_page) total =
          grind arith in
        rw (pages-eq-window n (omega arith), before, link_items-link (suc n) (omega arith) h, here)
          (let zero_add : 0 + n * per_page ≡ n * per_page = omega arith in
            ap
              (λ k.
                window sha256 0 (n * per_page)
                ++ window sha256 k (min per_page (total - n * per_page)))
              (sym zero_add)
            ∙ window_append sha256 0 (n * per_page) (min per_page (total - n * per_page))
            ∙ ap (window sha256 0) after)

    -- The pages 1 to last_page of /v1/pagination/link together are the dataset, every item once
    -- and in order.
    pub pages_complete : pages per_page total (page_count total per_page) ≡ window sha256 0 total
    pages_complete =
        let whole : min (page_count total per_page * per_page) total ≡ total =
          omega (arith, page_count-reaches total per_page shape.size_lo shape.total_lo) in
        pages-eq-window (page_count total per_page) (omega arith) ∙ ap (window sha256 0) whole
