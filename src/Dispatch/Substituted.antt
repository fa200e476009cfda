-- ===== src/Dispatch/Substituted.antt =====
-- A substituted path has the segments of its template.
use api_test.Prelude.{
  ℕ, zero, suc, ◌≤◌, ◌≡◌, refl, sym, ap, false, List, [], ◌∷◌, ◌++◌, Option, none, some, length,
  drop, ◌==◌, arith, Bool-cases, Option-cases, inl, inr,
}
use api_test.Prelude.Result.{ok}
use api_test.Std.Text.{Text, text, is_empty, contains, split}
use api_test.Std.Http.{Table, lookup}
use api_test.Dispatch.Substitute.{
  path_escape, longer, until_brace, unless_empty, placeholder, fill, followed, replace_all,
  unless_missing, substitute_path_params,
}
use api_test.Dispatch.Counted.{
  count, count-append, length-split, contains-count, count-contains, slash-Escaped,
  question-Escaped, count-path_escape, count-drop,
}

longer-some :
    (c : ℕ) (o : Option Text) (name : Text)
    → longer c o ≡ some name
    → (rest : Text) × (o ≡ some rest) × (name ≡ c ∷ rest)
longer-some c none name h = cc
longer-some c (some rest) name h = (rest, refl, cc)

until_brace-slashes :
    (s name : Text)
    → until_brace s ≡ some name
    → count b'/' (drop (suc (length name)) s) ≡ count b'/' s
unfolding until_brace count
until_brace-slashes [] name h = cc
until_brace-slashes (c ∷ s) name h = elim (Bool-cases (c == b'}')) [
  | inl close ↦ rw (sym (some_eq (rw close at h))) (ground arith)
  | inr open_yet ↦ elim (Bool-cases (c == b'/')) [
    | inl slash ↦ absurd (no_name (rw (open_yet, slash) at h))
    | inr plain ↦
        let (rest, h1, same) = longer-some c (until_brace s) name (rw (open_yet, plain) at h) in
        rw (same, plain) (until_brace-slashes s rest h1)
  ]
]
  where
    some_eq : some [] ≡ some name → [] ≡ name
    some_eq e = cc

    no_name : none ≡ some name → ⊥
    no_name e = cc

-- A placeholder that is noted nowhere is filled with an escaped value.
fill-path_escape :
    (params : Table Text) (name : Text)
    → (fill params name).1 ≡ []
    → (v : Text) × ((fill params name).0 ≡ path_escape v)
unfolding fill
fill-path_escape params name clean = elim (Option-cases (lookup name params)) [
  | inl missing ↦ absurd (noted (rw (fill, missing) at clean))
  | inr (v, found) ↦ elim (Bool-cases (is_empty v)) [
    | inl empty ↦ absurd (noted (rw (fill, found, empty) at clean))
    | inr given ↦ elim (Bool-cases (contains v (text "/"))) [
      | inl slash ↦ absurd (noted (rw (fill, found, given, slash) at clean))
      | inr plain ↦ (v, rw (fill, found, given, plain) refl)
    ]
  ]
]
  where
    noted : {t : Text} {ts : List Text} → t ∷ ts ≡ [] → ⊥
    noted e = cc

unless_empty-some : (o : Option Text) (name : Text) → unless_empty o ≡ some name → o ≡ some name
unfolding unless_empty
unless_empty-some none name h = h
unless_empty-some (some []) name h = cc
unless_empty-some (some (c ∷ n)) name h = h

placeholder-slashes :
    (c : ℕ) (s name : Text)
    → placeholder c s ≡ some name
    → count b'/' (c ∷ s) ≡ count b'/' (drop (suc (length name)) s)
unfolding placeholder count
placeholder-slashes c s name h = elim (Bool-cases (c == b'{')) [
  | inr other_byte ↦ absurd (no_name (rw other_byte at h))
  | inl opens ↦
      let found = unless_empty-some (until_brace s) name (rw opens at h) in
      ground (arith, until_brace-slashes s name found)
]
  where
    no_name : none ≡ some name → ⊥
    no_name e = cc

-- The marks of a text: its slashes, and a question mark only where the template has one.
record Marks (out template : Text) : Type 0 where
  slashes : count b'/' out ≡ count b'/' template
  questions : count b'?' out ≤ count b'?' template

replace_all-skip :
    (params : Table Text) (skip c : ℕ) (s : Text)
    → replace_all params (suc skip) (c ∷ s) ≡ replace_all params skip s
unfolding replace_all
replace_all-skip params skip c s = refl

replace_all-plain :
    (params : Table Text) (c : ℕ) (s : Text)
    → placeholder c s ≡ none
    → replace_all params zero (c ∷ s) ≡ followed (c ∷ [], []) (replace_all params zero s)
unfolding replace_all
replace_all-plain params c s plain = rw (replace_all, plain) refl

replace_all-filled :
    (params : Table Text) (c : ℕ) (s name : Text)
    → placeholder c s ≡ some name
    → replace_all params zero (c ∷ s)
      ≡ followed (fill params name) (replace_all params (suc (length name)) s)
unfolding replace_all
replace_all-filled params c s name found = rw (replace_all, found) refl

-- Marks of the two parts.
followed-plain :
    (c : ℕ) (s : Text) (rest : Text × List Text)
    → Marks rest.0 s
    → Marks (followed (c ∷ [], []) rest).0 (c ∷ s)
unfolding count
followed-plain c s rest m = record {
  slashes = ground (arith, m.slashes);
  questions = ground (arith, m.questions);
}

append-nil_parts : (xs ys : List Text) → xs ++ ys ≡ [] → (xs ≡ []) × (ys ≡ [])
append-nil_parts [] ys h = (refl, h)
append-nil_parts (x ∷ xs) ys h = cc

followed-filled :
    (params : Table Text) (c : ℕ) (s name : Text) (rest : Text × List Text)
    → placeholder c s ≡ some name
    → (fill params name).1 ≡ []
    → Marks rest.0 (drop (suc (length name)) s)
    → Marks (followed (fill params name) rest).0 (c ∷ s)
followed-filled params c s name rest found clean m =
    let (v, filled) = fill-path_escape params name clean in
    rw filled (record {
      slashes = omega (
        arith,
        m.slashes,
        count-append b'/' (path_escape v) rest.0,
        count-path_escape b'/' slash-Escaped v,
        placeholder-slashes c s name found,
      );
      questions = omega (
        arith,
        m.questions,
        count-append b'?' (path_escape v) rest.0,
        count-path_escape b'?' question-Escaped v,
        count-drop b'?' (suc (length name)) s,
        count-drop b'?' 1 (c ∷ s),
      );
    })

replace_all-Marks :
    (params : Table Text) (skip : ℕ) (s : Text)
    → (replace_all params skip s).1 ≡ []
    → Marks (replace_all params skip s).0 (drop skip s)
replace_all-Marks params zero [] clean =
    unfold replace_all in (record { slashes = refl; questions = omega arith })
replace_all-Marks params (suc skip) [] clean =
    unfold replace_all in (record { slashes = refl; questions = omega arith })
replace_all-Marks params (suc skip) (c ∷ s) clean =
    let step = replace_all-skip params skip c s in
    rw step (replace_all-Marks params skip s (rw step at clean))
replace_all-Marks params zero (c ∷ s) clean = elim (Option-cases (placeholder c s)) [
  | inl plain ↦
      let step = replace_all-plain params c s plain in
      rw step (
        followed-plain c s (replace_all params zero s)
          (replace_all-Marks params zero s (rw step at clean)))
  | inr (name, found) ↦
      let step = replace_all-filled params c s name found in
      let (filled, rest) =
        append-nil_parts (fill params name).1 (replace_all params (suc (length name)) s).1
          (rw step at clean) in
      rw step (
        followed-filled params c s name (replace_all params (suc (length name)) s) found filled
          (replace_all-Marks params (suc (length name)) s rest))
]

unless_missing-eq-ok :
    (r : Text × List Text) (path : Text) → unless_missing r ≡ ok path → (r.1 ≡ []) × (path ≡ r.0)
unfolding unless_missing
unless_missing-eq-ok (out, []) path h = (refl, cc)
unless_missing-eq-ok (out, m ∷ missing) path h = cc

-- Whatever the values are, a path that is answered for a template has as many segments as the template,
-- and where the template has no question mark, it has none: a value can neither move to another
-- route's segments nor start a query.
pub same_segments :
    (template : Text) (params : Table Text) (path : Text)
    → contains template (text "?") ≡ false
    → substitute_path_params template params ≡ ok path
    → (length (split b'/' path) ≡ length (split b'/' template)) × (contains path (text "?") ≡ false)
unfolding substitute_path_params
same_segments template params path plain h =
    let (clean, same) = unless_missing-eq-ok (replace_all params zero template) path h in
    let m = replace_all-Marks params zero template clean in
    rw same (
      rw (length-split b'/' (replace_all params zero template).0, length-split b'/' template)
          (ap suc m.slashes),
      count-contains b'?' (replace_all params zero template).0
          (omega (arith, m.questions, contains-count b'?' template plain)),
    )
