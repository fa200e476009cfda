-- ===== src/Std/Redirect.antt =====
-- The Location that http.Redirect sends for a path that starts with a slash, and not with two: what
-- url.Parse accepts goes through path.Clean.
use api_test.Prelude.{
  ℕ, ◌+◌, ◌/◌, ◌%◌, ◌≡◌, refl, Bool, true, false, not, ◌&&◌, ◌||◌, List, [], ◌∷◌, ◌++◌, leb, ltb,
  ◌==◌, if◌then◌else◌,
}
use api_test.Std.Text.{Text, text, str_eq, is_empty, split}

-- strings.Cut at a byte: what is before it, and what is behind.
unfoldable pub cut : ℕ → Text → Text × Text
cut b [] = ([], [])
cut b (c ∷ s) = let (before, behind) = cut b s in if c == b then ([], s) else (c ∷ before, behind)

-- What stands from the first `b` on.
unfoldable pub from_byte : ℕ → Text → Text
from_byte b [] = []
from_byte b (c ∷ s) = let rest = from_byte b s in if c == b then c ∷ s else rest

unfoldable pub has_control : Text → Bool
has_control [] = false
has_control (c ∷ s) = ltb c 32 || (c == 127) || has_control s

abbrev pub is_hex : ℕ → Bool
is_hex c = (leb b'0' c && leb c b'9') || (leb b'a' c && leb c b'f') || (leb b'A' c && leb c b'F')

abbrev pub two_hex : Text → Bool
two_hex (a ∷ b ∷ s) = is_hex a && is_hex b
two_hex (a ∷ []) = false
two_hex [] = false

-- Every percent sign is followed by two hexadecimal digits.
unfoldable pub escapes_well : Text → Bool
escapes_well [] = true
escapes_well (c ∷ s) = (not (c == b'%') || two_hex s) && escapes_well s

-- url.Parse succeeds.
unfoldable pub parses : Text → Bool
unfolding cut has_control escapes_well
parses url =
    let (before, fragment) = cut b'#' url in
    not (has_control before) && escapes_well (cut b'?' before).0 && escapes_well fragment

abbrev pub parent : List Text → List Text
parent [] = []
parent (_ ∷ seen) = seen

-- The elements of a rooted path, the last first, onto those that have been seen.
unfoldable pub clean_onto : List Text → List Text → List Text
unfolding str_eq
clean_onto [] seen = seen
clean_onto (s ∷ parts) seen = clean_onto parts (
    if is_empty s || str_eq s (text ".")
    then seen
    else if str_eq s (text "..")
    then parent seen
    else s ∷ seen)

-- The elements with a slash between them, from the last one on.
unfoldable pub joined : List Text → Text → Text
joined [] behind = behind
joined (s ∷ seen) behind = joined seen (b'/' ∷ s ++ behind)

-- path.Clean of a rooted path
unfoldable pub clean : Text → Text
unfolding clean_onto joined
clean path =
    let out = joined (clean_onto (split b'/' path) []) [] in if is_empty out then text "/" else out

unfoldable pub ends_in_slash : Text → Bool
ends_in_slash [] = false
ends_in_slash (c ∷ []) = c == b'/'
ends_in_slash (c ∷ d ∷ s) = ends_in_slash (d ∷ s)

-- path.Clean, with a trailing slash kept.
unfoldable pub clean_path : Text → Text
unfolding clean ends_in_slash
clean_path path =
    let out = clean path in
    if ends_in_slash path && not (ends_in_slash out) then out ++ text "/" else out

abbrev pub hex_digit : ℕ → ℕ
hex_digit d = if leb 10 d then 87 + d else 48 + d

-- hexEscapeNonASCII
unfoldable pub hex_escape : Text → Text
hex_escape [] = []
hex_escape (c ∷ s) =
    let rest = hex_escape s in
    if leb 128 c then b'%' ∷ hex_digit (c / 16) ∷ hex_digit (c % 16) ∷ rest else c ∷ rest

unfoldable pub rooted_location : Text → Text
unfolding parses cut from_byte clean_path hex_escape
rooted_location url =
    hex_escape (if parses url then clean_path (cut b'?' url).0 ++ from_byte b'?' url else url)

-- A backslash behind a removed dot comes first; a tab keeps url.Parse, and so path.Clean, away.
location_tests :
    (rooted_location (text "/a/../b//c/./?x=/../") ≡ text "/b/c/?x=/../")
    × (rooted_location (text "/./\\evil.com") ≡ text "/\\evil.com")
    × (rooted_location (b'/' ∷ 9 ∷ text "/evil.com/./") ≡ b'/' ∷ 9 ∷ text "/evil.com/./")
unfolding rooted_location parses has_control escapes_well cut from_byte clean_path clean clean_onto
    joined ends_in_slash hex_escape split str_eq
location_tests = (refl, refl, refl)
