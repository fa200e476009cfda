-- ===== src/Dispatch/Asked.antt =====
-- What an operator's own request carries into the mux.
use api_test.Prelude.{
  ◌≡◌, refl, ◌∙◌, Bool, true, false, ◌||◌, List, [], ◌∷◌, none, Bool-cases, inl, inr,
}
use api_test.Std.Text.{Text, text, str_eq, str_eq_refl}
use api_test.Std.Http.{
  Table, lookup, lookup-insert, canonical_key, to_lower-canonical_key, header_get,
}
use api_test.Dispatch.Sent.{add_values, header_add, header_set}
use api_test.Dispatch.TryIt.{try_it_marker, is_disallowed_header, try_query, try_headers}
use api_test.Dispatch.Lookup.{lookup-add_values, other_key}

-- A table has a key that is the given one in the form of `form`.
unfoldable pub names : (Text → Text) → Text → Table (List Text) → Bool
names form key [] = false
names form key ((k, vs) ∷ t) = str_eq (form k) key || names form key t

or_false : (a b : Bool) → (a || b) ≡ false → (a ≡ false) × (b ≡ false)
or_false true b h = cc
or_false false b h = (refl, h)

pub lookup-try_query :
    (key : Text) (q out : Table (List Text))
    → names (λ k. k) key q ≡ false
    → lookup key out ≡ none
    → lookup key (try_query q out) ≡ none
unfolding try_query names
lookup-try_query key [] out absent before = before
lookup-try_query key ((k, vs) ∷ q) out absent before =
    let (differs, rest) = or_false (str_eq k key) (names (λ j. j) key q) absent in
    lookup-try_query key q (add_values k vs out) rest
      (lookup-add_values k key vs out differs ∙ before)

canonical_disallowed : (k : Text) → is_disallowed_header (canonical_key k) ≡ is_disallowed_header k
unfolding is_disallowed_header
canonical_disallowed k = rw (to_lower-canonical_key k) refl

-- A header that no key gives stays away.
pub lookup-try_headers :
    (key : Text) (h out : Table (List Text))
    → names canonical_key key h ≡ false
    → lookup key out ≡ none
    → lookup key (try_headers h out) ≡ none
unfolding try_headers names
lookup-try_headers key [] out absent before = before
lookup-try_headers key ((k, vs) ∷ h) out absent before =
    let (differs, rest) =
      or_false (str_eq (canonical_key k) key) (names canonical_key key h) absent in
    elim (Bool-cases (is_disallowed_header k)) [
      | inl dropped ↦ rw dropped (lookup-try_headers key h out rest before)
      | inr kept ↦ rw kept (
          lookup-try_headers key h (header_add k vs out) rest (
            unfold header_add in (lookup-add_values (canonical_key k) key vs out differs ∙ before)))
    ]

-- A header that is not allowed never gets through.
pub disallowed-try_headers :
    (key : Text) (h out : Table (List Text))
    → is_disallowed_header key ≡ true
    → lookup key out ≡ none
    → lookup key (try_headers h out) ≡ none
unfolding try_headers
disallowed-try_headers key [] out hidden before = before
disallowed-try_headers key ((k, vs) ∷ h) out hidden before =
    elim (Bool-cases (is_disallowed_header k)) [
      | inl dropped ↦ rw dropped (disallowed-try_headers key h out hidden before)
      | inr kept ↦ rw kept (
          disallowed-try_headers key h (header_add k vs out) hidden (
            unfold header_add in
            (lookup-add_values (canonical_key k) key vs out
                (other_key is_disallowed_header canonical_disallowed k key kept hidden)
              ∙ before)))
    ]

pub lookup-marked :
    (key : Text) (h : Table (List Text))
    → str_eq (canonical_key try_it_marker) key ≡ false
    → lookup key h ≡ none
    → lookup key (header_set try_it_marker (text "true") h) ≡ none
unfolding header_set
lookup-marked key h differs absent =
    lookup-insert (canonical_key try_it_marker) key (text "true" ∷ []) h ∙ rw differs absent

pub lookup-marker :
    (h : Table (List Text))
    → header_get (header_set try_it_marker (text "true") h) try_it_marker ≡ text "true"
unfolding header_set header_get
lookup-marker h =
    rw
      (
        lookup-insert (canonical_key try_it_marker) (canonical_key try_it_marker) (text "true" ∷ [])
            h,
        str_eq_refl (canonical_key try_it_marker),
      )
      refl
