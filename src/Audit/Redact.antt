-- ===== src/Audit/Redact.antt =====
-- The redaction of headers and query parameters: pkg/audit/event.go and pkg/auth/context.go.
use api_test.Prelude.{Bool, not, ◌&&◌, List, [], ◌∷◌, any, Option, none, some, if◌then◌else◌}
use api_test.Std.Text.{Text, text, str_eq, is_empty, contains, to_lower}
use api_test.Std.Http.{Table, canonical_key}

abbrev pub redacted : List Text
redacted = text "[redacted]" ∷ []

unfoldable pub matches_redact_key : Text → List Text → Bool
matches_redact_key key keys =
    any (λ rk. not (is_empty rk) && contains (to_lower key) (to_lower rk)) keys

-- The loop over a map that replaces the values of the keys that `secret` names.
unfoldable pub redact_where : (Text → Bool) → Table (List Text) → Table (List Text)
redact_where secret [] = []
redact_where secret ((k, v) ∷ h) = (k, (if secret k then redacted else v)) ∷ redact_where secret h

unfoldable pub sanitize_headers : Table (List Text) → List Text → Table (List Text)
unfolding redact_where matches_redact_key
sanitize_headers h [] = h
sanitize_headers h keys = redact_where (λ k. matches_redact_key k keys) h

unfoldable pub sanitize_query : Table (List Text) → List Text → Table (List Text)
unfolding redact_where matches_redact_key
sanitize_query q [] = q
sanitize_query q keys = redact_where (λ k. matches_redact_key k keys) q

abbrev pub sensitive_headers : List Text
sensitive_headers =
    text "Authorization"
    ∷ text "Proxy-Authorization"
    ∷ text "Cookie"
    ∷ text "Set-Cookie"
    ∷ text "X-Api-Key"
    ∷ []

unfoldable pub is_sensitive : Text → Bool
unfolding str_eq canonical_key
is_sensitive k = any (str_eq (canonical_key k)) sensitive_headers

unfoldable pub redact_headers : Option (Table (List Text)) → Option (Table (List Text))
unfolding redact_where is_sensitive
redact_headers none = none
redact_headers (some h) = some (redact_where is_sensitive h)
