-- ===== src/Dispatch/Dropped.antt =====
-- The credentials that a replay leaves out of its tables, and the marker that it adds.
use api_test.Prelude.{
  ◌≡◌, refl, ◌∙◌, true, false, not, ◌&&◌, List, [], ◌∷◌, none, some, Bool-cases, inl, inr,
}
use api_test.Std.Text.{
  Text, text, str_eq, str_eq_refl, eq_of_str_eq, is_empty, to_lower, equal_fold,
}
use api_test.Std.Http.{
  Table, lookup, lookup-insert, canonical_key, to_lower-canonical_key, header_get,
}
use api_test.Dispatch.Sent.{add_values, header_add, header_set}
use api_test.Dispatch.Replay.{
  replay_marker, is_redacted_credential_header, is_redacted_credential_query, replay_query,
  replay_headers, marked_headers, with_content_type,
}
use api_test.Dispatch.Lookup.{lookup-add_values, other_key}

-- A key in canonical form is a credential's as it stands.
canonical_credential :
    (k : Text) → is_redacted_credential_header (canonical_key k) ≡ is_redacted_credential_header k
unfolding is_redacted_credential_header
canonical_credential k = rw (to_lower-canonical_key k) refl

other_header :
    (k secret : Text)
    → is_redacted_credential_header k ≡ false
    → is_redacted_credential_header secret ≡ true
    → str_eq (canonical_key k) secret ≡ false
other_header = other_key is_redacted_credential_header canonical_credential

lookup-header_set :
    (k secret v : Text) (h : Table (List Text))
    → is_redacted_credential_header k ≡ false
    → is_redacted_credential_header secret ≡ true
    → lookup secret (header_set k v h) ≡ lookup secret h
unfolding header_set
lookup-header_set k secret v h plain hidden =
    lookup-insert (canonical_key k) secret (v ∷ []) h ∙ rw (other_header k secret plain hidden) refl

pub lookup-replay_headers :
    (secret : Text) (h out : Table (List Text)) (copied : Table (List Text))
    → is_redacted_credential_header secret ≡ true
    → replay_headers h out ≡ some copied
    → lookup secret out ≡ none
    → lookup secret copied ≡ none
unfolding replay_headers
lookup-replay_headers secret [] out copied hidden done before = rw (some_eq done) at before
  where
    some_eq : some out ≡ some copied → out ≡ copied
    some_eq e = cc
lookup-replay_headers secret ((k, vs) ∷ h) out copied hidden done before =
    elim (Bool-cases (equal_fold k replay_marker)) [
      | inl marked ↦ absurd (no_copy (rw marked at done))
      | inr plain ↦ elim (Bool-cases (is_redacted_credential_header k)) [
        | inl dropped ↦
            lookup-replay_headers secret h out copied hidden (rw (plain, dropped) at done) before
        | inr kept ↦
            lookup-replay_headers secret h (header_add k vs out) copied hidden
              (rw (plain, kept) at done)
              (unfold header_add in
                (lookup-add_values (canonical_key k) secret vs out
                    (other_header k secret kept hidden)
                  ∙ before))
      ]
    ]
  where
    no_copy : none ≡ some copied → ⊥
    no_copy e = cc

other_name : (k : Text) → is_redacted_credential_query k ≡ false → str_eq k (text "api_key") ≡ false
unfolding is_redacted_credential_query equal_fold to_lower str_eq
other_name k kept = elim (Bool-cases (str_eq k (text "api_key"))) [
  | inr differs ↦ differs
  | inl same ↦ absurd (clash (rw (eq_of_str_eq k (text "api_key") same) at kept))
]
  where
    clash : is_redacted_credential_query (text "api_key") ≡ false → ⊥
    clash e = cc

pub lookup-replay_query :
    (q out : Table (List Text))
    → lookup (text "api_key") out ≡ none
    → lookup (text "api_key") (replay_query q out) ≡ none
unfolding replay_query
lookup-replay_query [] out before = before
lookup-replay_query ((k, vs) ∷ q) out before = elim (Bool-cases (is_redacted_credential_query k)) [
  | inl dropped ↦ rw dropped (lookup-replay_query q out before)
  | inr kept ↦ rw kept (
      lookup-replay_query q (add_values k vs out)
        (lookup-add_values k (text "api_key") vs out (other_name k kept) ∙ before))
]

-- What is set besides the copied headers is no credential.
pub lookup-marked_headers :
    (secret id content_type : Text) (copied : Table (List Text))
    → is_redacted_credential_header secret ≡ true
    → lookup secret (marked_headers id content_type copied) ≡ lookup secret copied
unfolding marked_headers with_content_type
lookup-marked_headers secret id content_type copied hidden =
    let marked = header_set replay_marker id copied in
    let set =
      lookup-header_set replay_marker secret id copied
        (unfold is_redacted_credential_header in (unfold to_lower in (unfold str_eq in refl)))
        hidden in
    elim (Bool-cases
      (not (is_empty content_type) && is_empty (header_get marked (text "Content-Type")))) [
        | inl added ↦ rw added (
            lookup-header_set (text "Content-Type") secret content_type marked
              (unfold is_redacted_credential_header in (unfold to_lower in (unfold str_eq in refl)))
              hidden
            ∙ set)
        | inr left ↦ rw left set
      ]

pub hidden_names :
    (is_redacted_credential_header (text "X-Api-Key") ≡ true)
    × (is_redacted_credential_header (text "Authorization") ≡ true)
unfolding is_redacted_credential_header to_lower str_eq
hidden_names = (refl, refl)

lookup-with_content_type :
    (key content_type : Text) (h : Table (List Text))
    → str_eq (canonical_key (text "Content-Type")) key ≡ false
    → lookup key (with_content_type content_type h) ≡ lookup key h
unfolding with_content_type header_set
lookup-with_content_type key content_type h differs =
    elim (Bool-cases
      (not (is_empty content_type) && is_empty (header_get h (text "Content-Type")))) [
        | inl added ↦ rw added (
            lookup-insert (canonical_key (text "Content-Type")) key (content_type ∷ []) h
            ∙ rw differs refl)
        | inr left ↦ rw left refl
      ]

pub lookup-marker :
    (id content_type : Text) (copied : Table (List Text))
    → lookup (canonical_key replay_marker) (marked_headers id content_type copied) ≡ some (id ∷ [])
unfolding marked_headers header_set
lookup-marker id content_type copied =
    lookup-with_content_type (canonical_key replay_marker) content_type _
      (unfold canonical_key in (unfold str_eq in refl))
    ∙ (lookup-insert (canonical_key replay_marker) (canonical_key replay_marker) (id ∷ []) copied
        ∙ rw (str_eq_refl (canonical_key replay_marker)) refl)
