-- ===== src/Pagination/Params.antt =====
-- The query parameters of pagination.go: their bounds, defaults and errors.
use api_test.Prelude.{Bool, not, ◌||◌, ◌++◌, if◌then◌else◌}
use api_test.Prelude.Int.{ℤ, pos, ltb_ℤ, leb_ℤ, add_int, sub_int, div_int}
use api_test.Prelude.Result.{Result, ok, err, ◌>>=◌}
use api_test.Std.Text.{Text, text, is_empty}
use api_test.Std.Strconv.{itoa_int, atoi}

abbrev pub default_total : ℤ
default_total = pos 100

abbrev pub default_page_size : ℤ
default_page_size = pos 10

abbrev pub max_total : ℤ
max_total = pos 10000

abbrev pub max_page_size : ℤ
max_page_size = pos 1000

-- The texts of the errors.
pub must_be_positive : Text → Text
must_be_positive name = name ++ text " must be a positive integer"

pub exceeds_max : Text → ℤ → ℤ → Text
exceeds_max name n upper = name ++ text " " ++ itoa_int n ++ text " exceeds max " ++ itoa_int upper

pub past_end : Text → ℤ → ℤ → Text
past_end what n total =
    what
    ++ text " "
    ++ itoa_int n
    ++ text " is past end of dataset (total="
    ++ itoa_int total
    ++ text ")"

pub page_past_end : ℤ → ℤ → ℤ → ℤ → Text
page_past_end page total per_page last_page =
    text "page "
    ++ itoa_int page
    ++ text " is past end of dataset (total="
    ++ itoa_int total
    ++ text ", per_page="
    ++ itoa_int per_page
    ++ text ", last_page="
    ++ itoa_int last_page
    ++ text ")"

unfoldable pub at_least : ℤ → Text → ℤ × Bool → Result Text ℤ
at_least low message (n, parsed) = if not parsed || ltb_ℤ n low then err message else ok n

unfoldable pub positive_default : Text → ℤ → Result Text ℤ
unfolding at_least
positive_default raw def =
    if is_empty raw then ok def else at_least (pos 1) (text "must be a positive integer") (atoi raw)

unfoldable pub non_negative_default : Text → ℤ → Result Text ℤ
unfolding at_least
non_negative_default raw def =
    if is_empty raw
    then ok def
    else at_least (pos 0) (text "must be a non-negative integer") (atoi raw)

unfoldable pub bounded_default : Text → ℤ → ℤ → Text → Result Text ℤ
unfolding at_least
bounded_default raw def upper name = if is_empty raw then ok def else do
  n ← at_least (pos 1) (must_be_positive name) (atoi raw)
  if ltb_ℤ upper n then err (exceeds_max name n upper) else ok n

unfoldable pub last_page_for : ℤ → ℤ → ℤ
last_page_for total per_page =
    if leb_ℤ total (pos 0)
    then pos 1
    else div_int (sub_int (add_int total per_page) (pos 1)) per_page
