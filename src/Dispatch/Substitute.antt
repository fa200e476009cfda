-- ===== src/Dispatch/Substitute.antt =====
-- The placeholders of a route's path (pathParamRe and substitutePathParams of
-- pkg/httpsrv/portal_tryit.go).
use api_test.Prelude.{
  ℕ, zero, suc, ◌+◌, ◌/◌, ◌%◌, Bool, ◌&&◌, ◌||◌, List, [], ◌∷◌, ◌++◌, Option, none, some, leb,
  length, if◌then◌else◌, ◌==◌,
}
use api_test.Prelude.Result.{Result, ok, err}
use api_test.Std.Text.{Text, text, is_empty, contains}
use api_test.Std.Http.{Table, lookup}
use api_test.Pagination.Handlers.{join}

unreserved : ℕ → Bool
unreserved c =
    (leb b'a' c && leb c b'z')
    || (leb b'A' c && leb c b'Z')
    || (leb b'0' c && leb c b'9')
    || contains (text "-_.~$&+=:@") (c ∷ [])

abbrev hex_digit : ℕ → ℕ
hex_digit d = if leb 10 d then 55 + d else 48 + d

unfoldable pub escape_byte : ℕ → Text
unfolding unreserved
escape_byte c = if unreserved c then c ∷ [] else b'%' ∷ hex_digit (c / 16) ∷ hex_digit (c % 16) ∷ []

-- url.PathEscape
unfoldable pub path_escape : Text → Text
unfolding escape_byte
path_escape [] = []
path_escape (c ∷ s) = escape_byte c ++ path_escape s

abbrev pub longer : ℕ → Option Text → Option Text
longer c none = none
longer c (some name) = some (c ∷ name)

-- The bytes before the next closing brace, unless a slash comes first.
unfoldable pub until_brace : Text → Option Text
until_brace [] = none
until_brace (c ∷ s) =
    if c == b'}' then some [] else if c == b'/' then none else longer c (until_brace s)

unfoldable pub unless_empty : Option Text → Option Text
unless_empty none = none
unless_empty (some []) = none
unless_empty (some (c ∷ name)) = some (c ∷ name)

-- The name of a placeholder that starts at the byte `c`.
unfoldable pub placeholder : ℕ → Text → Option Text
unfolding until_brace unless_empty
placeholder c s = if c == b'{' then unless_empty (until_brace s) else none

abbrev pub kept : Text → Text
kept name = text "{" ++ name ++ text "}"

-- The text for a placeholder, and what is noted of it.
unfoldable pub fill : Table Text → Text → Text × List Text
unfolding lookup contains path_escape
fill params name = elim (lookup name params) [
  | none ↦ (kept name, name ∷ [])
  | some v ↦
      if is_empty v
      then (kept name, name ∷ [])
      else if contains v (text "/")
      then (kept name, (name ++ text " (contains '/')") ∷ [])
      else (path_escape v, [])
]

abbrev pub followed : Text × List Text → Text × List Text → Text × List Text
followed (piece, noted) (out, missing) = (piece ++ out, noted ++ missing)

-- pathParamRe.ReplaceAllStringFunc, where `skip` bytes of a match are left to pass.
unfoldable pub replace_all : Table Text → ℕ → Text → Text × List Text
unfolding placeholder fill
replace_all params skip [] = ([], [])
replace_all params (suc skip) (c ∷ s) = replace_all params skip s
replace_all params zero (c ∷ s) = elim (placeholder c s) [
  | none ↦ followed (c ∷ [], []) (replace_all params zero s)
  | some name ↦ followed (fill params name) (replace_all params (suc (length name)) s)
]

unfoldable pub unless_missing : Text × List Text → Result Text Text
unless_missing (out, []) = ok out
unless_missing (out, m ∷ missing) =
    err (text "missing or invalid path params: " ++ join (text ", ") (m ∷ missing))

unfoldable pub substitute_path_params : Text → Table Text → Result Text Text
unfolding replace_all unless_missing
substitute_path_params template params = unless_missing (replace_all params zero template)
