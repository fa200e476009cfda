-- ===== src/Portal/Location.antt =====
-- The Location of a redirect to a path that starts with one slash.
use api_test.Prelude.{
  ℕ, ◌≡◌, refl, ◌⊎◌, inl, inr, Bool, true, false, ◌||◌, List, [], ◌∷◌, ◌++◌, if◌then◌else◌, ◌==◌,
  All, arith, Bool-cases,
}
use api_test.Std.Text.{Text, text, str_eq, is_empty, has_prefix, split}
use api_test.Std.Redirect.{
  cut, from_byte, parses, parent, clean_onto, joined, clean, ends_in_slash, clean_path, hex_escape,
  rooted_location,
}

-- A text that starts with a slash, and not with two.
abbrev pub IsRooted : Text → Type 0
IsRooted t = (has_prefix t (text "/") ≡ true) × (has_prefix t (text "//") ≡ false)

abbrev IsPart : Text → Type 0
IsPart t = has_prefix t (text "/") ≡ false

abbrev IsElement : Text → Type 0
IsElement t = (is_empty t ≡ false) × IsPart t

List-cases : (xs : List Text) → (xs ≡ []) ⊎ ((y : Text) × (ys : List Text) × (xs ≡ y ∷ ys))
List-cases [] = inl refl
List-cases (y ∷ ys) = inr (y, ys, refl)

split-IsPart : (s : Text) → All IsPart (split b'/' s)
unfolding split has_prefix
split-IsPart [] = (refl, tt)
split-IsPart (c ∷ s) =
    let rest = split-IsPart s in
    elim (Bool-cases (c == b'/')) [
      | inl slash ↦ rw slash (refl, rest)
      | inr plain ↦ elim (List-cases (split b'/' s)) [
        | inl none_left ↦ rw (plain, none_left) (plain_part c [] plain, tt)
        | inr (y, ys, parts) ↦ rw (plain, parts) (plain_part c y plain, (rw parts at rest).1)
      ]
    ]
  where
    plain_part : (c : ℕ) (t : Text) → (c == b'/') ≡ false → has_prefix (c ∷ t) (text "/") ≡ false
    plain_part c t h = ground arith

parent-All : (seen : List Text) → All IsElement seen → All IsElement (parent seen)
parent-All [] h = tt
parent-All (s ∷ seen) (_, h) = h

clean_onto-All :
    (parts seen : List Text)
    → All IsPart parts
    → All IsElement seen
    → All IsElement (clean_onto parts seen)
unfolding clean_onto
clean_onto-All [] seen h hs = hs
clean_onto-All (s ∷ parts) seen (h, rest) hs =
    elim (Bool-cases (is_empty s || str_eq s (text "."))) [
      | inl skipped ↦ rw skipped (clean_onto-All parts seen rest hs)
      | inr named ↦ rw named (elim (Bool-cases (str_eq s (text ".."))) [
        | inl up ↦ rw up (clean_onto-All parts (parent seen) rest (parent-All seen hs))
        | inr down ↦
            rw down (clean_onto-All parts (s ∷ seen) rest ((or_false (is_empty s) _ named, h), hs))
      ])
    ]
  where
    or_false : (x y : Bool) → (x || y) ≡ false → x ≡ false
    or_false x y e = ground arith

element-IsRooted : (s behind : Text) → IsElement s → IsRooted (b'/' ∷ s ++ behind)
unfolding has_prefix
element-IsRooted [] behind (given, h) = cc
element-IsRooted (c ∷ s) behind (given, h) = (refl, ground arith)

joined-IsRooted :
    (seen : List Text) (behind : Text)
    → All IsElement seen
    → (behind ≡ []) ⊎ IsRooted behind
    → (joined seen behind ≡ []) ⊎ IsRooted (joined seen behind)
unfolding joined
joined-IsRooted [] behind h hb = hb
joined-IsRooted (s ∷ seen) behind (h, hs) hb =
    joined-IsRooted seen (b'/' ∷ s ++ behind) hs (inr (element-IsRooted s behind h))

slash-IsRooted : IsRooted (text "/")
unfolding has_prefix
slash-IsRooted = (refl, refl)

clean-IsRooted : (path : Text) → IsRooted (clean path)
unfolding clean
clean-IsRooted path =
    let out = joined (clean_onto (split b'/' path) []) [] in
    elim (joined-IsRooted (clean_onto (split b'/' path) []) []
      (clean_onto-All (split b'/' path) [] (split-IsPart path) tt) (inl refl)) [
        | inl nothing_left ↦ rw nothing_left slash-IsRooted
        | inr rooted ↦ elim (Bool-cases (is_empty out)) [
          | inl gone ↦ rw gone slash-IsRooted
          | inr given ↦ rw given rooted
        ]
      ]

append-IsRooted : (t u : Text) → IsRooted t → IsPart u → IsRooted (t ++ u)
unfolding has_prefix
append-IsRooted [] u (h, _) hu = cc
append-IsRooted (c ∷ []) u (h, _) hu = (h, ground (arith, hu))
append-IsRooted (c ∷ d ∷ t) u h hu = h

append_slash-IsRooted : (t : Text) → IsRooted t → ends_in_slash t ≡ false → IsRooted (t ++ text "/")
unfolding has_prefix ends_in_slash
append_slash-IsRooted [] (h, _) open_end = cc
append_slash-IsRooted (c ∷ []) (h, _) open_end = ground arith
append_slash-IsRooted (c ∷ d ∷ t) h open_end = h

clean_path-IsRooted : (path : Text) → IsRooted (clean_path path)
unfolding clean_path
clean_path-IsRooted path = elim (Bool-cases (ends_in_slash (clean path))) [
  | inl closed ↦ elim (Bool-cases (ends_in_slash path)) [
    | inl trailing ↦ rw (closed, trailing) (clean-IsRooted path)
    | inr bare ↦ rw (closed, bare) (clean-IsRooted path)
  ]
  | inr open_end ↦ elim (Bool-cases (ends_in_slash path)) [
    | inl trailing ↦
        rw (open_end, trailing) (append_slash-IsRooted (clean path) (clean-IsRooted path) open_end)
    | inr bare ↦ rw (open_end, bare) (clean-IsRooted path)
  ]
]

from_byte-IsPart : (url : Text) → IsPart (from_byte b'?' url)
unfolding from_byte has_prefix
from_byte-IsPart [] = refl
from_byte-IsPart (c ∷ s) = ground (arith, from_byte-IsPart s)

hex_escape-IsRooted : (t : Text) → IsRooted t → IsRooted (hex_escape t)
unfolding hex_escape has_prefix
hex_escape-IsRooted [] (h, _) = cc
hex_escape-IsRooted (c ∷ []) (h, h2) = ground arith
hex_escape-IsRooted (c ∷ d ∷ t) (h, h2) = ground arith

pub rooted_location-IsRooted : (url : Text) → IsRooted url → IsRooted (rooted_location url)
unfolding rooted_location
rooted_location-IsRooted url h =
    hex_escape-IsRooted
      (if parses url then clean_path (cut b'?' url).0 ++ from_byte b'?' url else url)
      (elim (Bool-cases (parses url)) [
        | inl read ↦ rw read (
            append-IsRooted (clean_path (cut b'?' url).0) (from_byte b'?' url)
              (clean_path-IsRooted (cut b'?' url).0) (from_byte-IsPart url))
        | inr failed ↦ rw failed h
      ])
