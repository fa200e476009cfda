-- ===== src/Pagination/Tests.antt =====
-- Inputs at which the theorems on pagination apply, and the handlers run.
use api_test.Prelude.{◌≡◌, refl, some, false, [], ◌∷◌, arith}
use api_test.Prelude.Int.{pos}
use api_test.Std.Text.{Text, text, str_eq}
use api_test.Std.Http.{Request, json, values_get}
use api_test.Std.Strconv.{itoa_int, atoi, itoa}
use api_test.Std.Base64.{hex}
use api_test.Pagination.Params.{last_page_for, bounded_default, positive_default}
use api_test.Pagination.Handlers.{
  LinkResponse, link, link_page, slice_items, slice_loop, item, deterministic_value,
}
use api_test.Pagination.Window.{window}
use api_test.Pagination.Crawl.{crawl, crawl_complete}
use api_test.Pagination.Pages.{link_request}
use api_test.Prelude.Int.{add_int, sub_int, mul_int, div_int}

-- A stand-in for the hash.
abbrev same : Text → Text
same s = s

abbrev sample : Request
sample = record {
  method = text "GET";
  path = text "/v1/pagination";
  host = text "h";
  tls = false;
  header = [];
  query = [];
}

crawl_complete_example : crawl same sample 3 7 7 [] ≡ some (window same 0 7)
crawl_complete_example = crawl_complete same sample 3 7 (omega arith)

abbrev page_two : LinkResponse
page_two = record {
  items = record { id = pos 2; value = text "32" } ∷ [];
  page = pos 2;
  per_page = pos 2;
  total = pos 3;
}

second_page : (link same (link_request sample 2 2 3)).body ≡ json page_two
unfolding link link_page link_request slice_items slice_loop item deterministic_value hex itoa_int
    itoa atoi values_get str_eq positive_default bounded_default last_page_for add_int sub_int
    mul_int div_int
second_page = refl
