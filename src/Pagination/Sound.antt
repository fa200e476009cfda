-- ===== src/Pagination/Sound.antt =====
-- What the three handlers return on any request, whatever its parameters.
use api_test.Prelude.{
  ℕ, ◌+◌, ◌-◌, ◌*◌, ◌≤◌, ◌<◌, min, ◌≡◌, refl, true, List, arith, inl, inr, Bool-cases, leb→le,
}
use api_test.Prelude.Int.{ℤ, pos, negsuc, leb_ℤ, sub_int_exact, mul_int_exact, mul_int, sub_int}
use api_test.Prelude.Result.{Result, ok, err, ensure}
use api_test.Std.Text.{Text, text}
use api_test.Std.Http.{Request, json, failure, values_get}
use api_test.Pagination.Params.{last_page_for}
use api_test.Pagination.Handlers.{
  Item, LinkResponse, link, link_from, link_page, slice_items, answer,
}
use mathlib.Core.Path.{subst}
use api_test.Pagination.Accepts.{
  AcceptedIn, AcceptedFrom, bounded_default-AcceptedIn, positive_default-AcceptedFrom,
}
use api_test.Pagination.Pages.{
  page_count, last_page_for-eq-page_count, page_start-lt, page_count_bound,
}
use api_test.Pagination.Window.{window, slice_items-eq-window}

-- A non-empty run of consecutive items of the dataset, at most `size` of them.
pub record IsSlice (sha256 : Text → Text) (size total : ℤ) (items : List Item) : Type 0 where
  pub start : ℕ
  pub count : ℕ
  pub size_number : ℕ
  pub total_number : ℕ
  pub size_same : size ≡ pos size_number
  pub total_same : total ≡ pos total_number
  pub run : items ≡ window sha256 start count
  pub some_items : 1 ≤ count
  pub bounded : count ≤ size_number
  pub inside : start + count ≤ total_number
  pub dataset_bounded : total_number ≤ 10000

slice_items-IsSlice :
    (sha256 : Text → Text) (start size total : ℕ)
    → start < total
    → 1 ≤ size
    → size ≤ 1000
    → total ≤ 10000
    → IsSlice sha256 (pos size) (pos total) (slice_items sha256 (pos start) (pos size) (pos total))
slice_items-IsSlice sha256 start size total h one lim lim' = record {
  start = start;
  count = min size (total - start);
  size_number = size;
  total_number = total;
  size_same = refl;
  total_same = refl;
  run = slice_items-eq-window sha256 start size total h (omega arith);
  some_items = omega arith;
  bounded = omega arith;
  inside = omega arith;
  dataset_bounded = lim';
}

-- A page that passes the test against the last page lies inside the dataset, and the product of
-- the source's `start` does not overflow, however large the page.
link_page-IsSlice :
    (sha256 : Text → Text) (r : Request) (page per_page total : ℕ)
    → 1 ≤ page
    → 1 ≤ per_page
    → per_page ≤ 1000
    → 1 ≤ total
    → total ≤ 10000
    → leb_ℤ (pos page) (last_page_for (pos total) (pos per_page)) ≡ true
    → IsSlice sha256 (pos per_page) (pos total) (
        slice_items sha256
          (mul_int (sub_int (pos page) (pos 1)) (pos per_page))
          (pos per_page)
          (pos total))
link_page-IsSlice sha256 r page per_page total one p p' t t' inside =
    let last : page ≤ page_count total per_page =
      leb→le page (page_count total per_page)
        (rw (last_page_for-eq-page_count total per_page t p (omega arith)) at inside) in
    let start : (page - 1) * per_page < total = page_start-lt page total per_page one p t last in
    let bound : page_count total per_page ≤ 10000 = page_count_bound total per_page p t' in
    rw (sub_int_exact page 1 one (omega arith), mul_int_exact (page - 1) per_page (omega arith))
      (slice_items-IsSlice sha256 ((page - 1) * per_page) per_page total start p p' t')

json-injective {ℓ} : {A : Type ℓ} {a b : A} → json a ≡ json b → a ≡ b
json-injective h = cc

failure-ne-json {ℓ} : {A : Type ℓ} {m : Text} {b : A} → failure m ≡ json b → ⊥
failure-ne-json h = cc

module _ (sha256 : Text → Text) (r : Request) where
  -- Of the parsed parameters only numbers in range reach the slicing code.
  link_from-IsSlice :
      (page? per_page? total? : Result Text ℤ) (b : LinkResponse)
      → AcceptedFrom 1 page?
      → AcceptedIn 1 1000 per_page?
      → AcceptedIn 1 10000 total?
      → (answer (link_from sha256 r page? per_page? total?)).body ≡ json b
      → IsSlice sha256 b.per_page b.total b.items
  unfolding link_from link_page
  link_from-IsSlice (ok (pos page)) (ok (pos per_page)) (ok (pos total)) b hp hs ht h =
      elim (Bool-cases (leb_ℤ (pos page) (last_page_for (pos total) (pos per_page)))) [
        | inl inside ↦
            subst (λ (b : LinkResponse). IsSlice sha256 b.per_page b.total b.items)
              (json-injective (rw (inside, ensure) at h))
              (link_page-IsSlice sha256 r page per_page total hp hs.0 hs.1 ht.0 ht.1 inside)
        | inr outside ↦ absurd (failure-ne-json (rw (outside, ensure) at h))
      ]
  link_from-IsSlice (ok (negsuc _)) _ _ b hp hs ht h = absurd hp
  link_from-IsSlice (ok (pos _)) (ok (negsuc _)) _ b hp hs ht h = absurd hs
  link_from-IsSlice (ok (pos _)) (ok (pos _)) (ok (negsuc _)) b hp hs ht h = absurd ht
  link_from-IsSlice (err _) _ _ b hp hs ht h = cc
  link_from-IsSlice (ok (pos _)) (err _) _ b hp hs ht h = cc
  link_from-IsSlice (ok (pos _)) (ok (pos _)) (err _) b hp hs ht h = cc

  -- Whatever the request to /v1/pagination/link, and for parameters of any size, a page that is
  -- served is a non-empty run of consecutive items inside the dataset, at most per_page of them.
  pub link-IsSlice :
      (b : LinkResponse) → (link sha256 r).body ≡ json b → IsSlice sha256 b.per_page b.total b.items
  unfolding link
  link-IsSlice b h =
      link_from-IsSlice _ _ _ b (positive_default-AcceptedFrom (values_get r.query (text "page")))
        (bounded_default-AcceptedIn (values_get r.query (text "per_page")) (text "per_page") 10 1000
          (omega arith) (omega arith))
        (bounded_default-AcceptedIn (values_get r.query (text "total")) (text "total") 100 10000
          (omega arith) (omega arith))
        h
