-- ===== src/Audit/Hidden.antt =====
-- What redaction keeps and what it hides.
use api_test.Prelude.{◌≡◌, refl, ap, Bool, true, List, [], ◌∷◌, if◌then◌else◌, Bool-cases, inl, inr}
use mathlib.Core.Option as O
use api_test.Std.Text.{Text, str_eq, eq_of_str_eq}
use api_test.Std.Http.{Table, lookup}
use api_test.Audit.Redact.{
  redacted, matches_redact_key, redact_where, sanitize_headers, sanitize_query,
}

-- Two tables with the same keys that differ only in the values of secret keys.
pub data SameBut (secret : Text → Bool) : Table (List Text) → Table (List Text) → Type 0 where
  none_left : SameBut secret [] []
  kept :
      (k : Text) (v : List Text) {h h' : Table (List Text)}
      → SameBut secret h h'
      → SameBut secret ((k, v) ∷ h) ((k, v) ∷ h')
  hidden :
      (k : Text) (v v' : List Text) {h h' : Table (List Text)}
      → secret k ≡ true
      → SameBut secret h h'
      → SameBut secret ((k, v) ∷ h) ((k, v') ∷ h')

redact_where-SameBut :
    (secret : Text → Bool) {h h' : Table (List Text)}
    → SameBut secret h h'
    → redact_where secret h ≡ redact_where secret h'
unfolding redact_where
redact_where-SameBut secret none_left = refl
redact_where-SameBut secret (kept k v same) =
    ap (λ r. (k, (if secret k then redacted else v)) ∷ r) (redact_where-SameBut secret same)
redact_where-SameBut secret (hidden k v v' is same) =
    rw (is) (ap (λ r. (k, redacted) ∷ r) (redact_where-SameBut secret same))

lookup-redact_where :
    (secret : Text → Bool) (k : Text) (h : Table (List Text))
    → lookup k (redact_where secret h)
      ≡ (if secret k then O.map (λ v. redacted) (lookup k h) else lookup k h)
unfolding lookup redact_where
lookup-redact_where secret k [] = elim (Bool-cases (secret k)) [
  | inl is ↦ rw is refl
  | inr isnt ↦ rw isnt refl
]
lookup-redact_where secret k ((j, v) ∷ h) = elim (Bool-cases (str_eq j k)) [
  | inl same ↦
      rw (same, eq_of_str_eq j k same)
        (elim (Bool-cases (secret k)) [ inl is ↦ rw is refl | inr isnt ↦ rw isnt refl ])
  | inr other ↦ rw other (lookup-redact_where secret k h)
]

-- A sanitized table has the keys of the original; a key that contains one of the configured
-- substrings, in whatever case, has the value [redacted], and any other key its own values.
pub lookup-sanitize_headers :
    (keys : List Text) (k : Text) (h : Table (List Text))
    → lookup k (sanitize_headers h keys)
      ≡ (if matches_redact_key k keys then O.map (λ v. redacted) (lookup k h) else lookup k h)
unfolding sanitize_headers matches_redact_key
lookup-sanitize_headers [] k h = refl
lookup-sanitize_headers (rk ∷ keys) k h =
    lookup-redact_where (λ j. matches_redact_key j (rk ∷ keys)) k h

pub sanitize_query_same :
    (keys : List Text) (q : Table (List Text)) → sanitize_query q keys ≡ sanitize_headers q keys
unfolding sanitize_query sanitize_headers
sanitize_query_same [] q = refl
sanitize_query_same (rk ∷ keys) q = refl

sanitize_headers_none :
    {h h' : Table (List Text)} → SameBut (λ k. matches_redact_key k []) h h' → h ≡ h'
unfolding matches_redact_key
sanitize_headers_none none_left = refl
sanitize_headers_none (kept k v same) = ap (λ r. (k, v) ∷ r) (sanitize_headers_none same)
sanitize_headers_none (hidden k v v' is same) = cc

-- Two requests that differ only in the values of headers and parameters whose names a redaction
-- substring matches leave the same sanitized headers and query.
pub sanitize_hides :
    (keys : List Text) (h h' q q' : Table (List Text))
    → SameBut (λ k. matches_redact_key k keys) h h'
    → SameBut (λ k. matches_redact_key k keys) q q'
    → (sanitize_headers h keys ≡ sanitize_headers h' keys)
      × (sanitize_query q keys ≡ sanitize_query q' keys)
unfolding sanitize_headers sanitize_query
sanitize_hides [] h h' q q' sh sq = (sanitize_headers_none sh, sanitize_headers_none sq)
sanitize_hides (rk ∷ keys) h h' q q' sh sq = (redact_where-SameBut _ sh, redact_where-SameBut _ sq)
