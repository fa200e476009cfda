-- ===== src/ApiKeys/Rows.antt =====
-- What a row that answers has: it is delivered, live, and of the hash that fits.
use api_test.Prelude.{
  ℕ, ◌≡◌, refl, sym, ap, ◌∙◌, true, false, List, [], ◌∷◌, Option, none, some, Bool-cases, inl, inr,
  ◌⊎◌,
}
use mathlib.Core.List.{Memᴰ}
use api_test.Prelude.Result.{ok}
use api_test.Std.Text.{Text, str_eq}
use api_test.ApiKeys.Store.{Key, Row, Reply, Library, is_live, select_live, without, scan}

-- The rows that a reply delivers are rows of the query.
pub record Sound (reply : Reply) : Type 0 where
  pub delivered :
      (selected rows : List Row) (last : Option Text) (r : Row)
      → reply selected ≡ ok (rows, last)
      → Memᴰ r rows
      → Memᴰ r selected

-- A reply delivers all rows of the query, in some order, and no error.
pub record Whole (reply : Reply) : Type 0 where
  pub answer : List Row → List Row
  pub answers : (selected : List Row) → reply selected ≡ ok (answer selected, none)
  pub only : (selected : List Row) (r : Row) → Memᴰ r (answer selected) → Memᴰ r selected
  pub all : (selected : List Row) (r : Row) → Memᴰ r selected → Memᴰ r (answer selected)

pub cons-cases : (r s : Row) (rows : List Row) → Memᴰ r (s ∷ rows) → (r ≡ s) ⊎ Memᴰ r rows
cons-cases r s rows m = elim m [ Memᴰ.head e ↦ inl e | Memᴰ.tail rest ↦ inr rest ]

pub select_live-Memᴰ :
    (now : ℕ) (table : List Row) (r : Row)
    → Memᴰ r (select_live now table)
    → Memᴰ r table × (is_live now r.key ≡ true)
unfolding select_live
select_live-Memᴰ now [] r m = elim m [ ]
select_live-Memᴰ now (s ∷ table) r m = elim (Bool-cases (is_live now s.key)) [
  | inr dead ↦ let (at, live) = select_live-Memᴰ now table r (rw dead at m) in (Memᴰ.tail at, live)
  | inl alive ↦ elim (cons-cases r s (select_live now table) (rw alive at m)) [
    | inl same ↦ (Memᴰ.head same, ap (λ (q : Row). is_live now q.key) same ∙ alive)
    | inr rest ↦ let (at, live) = select_live-Memᴰ now table r rest in (Memᴰ.tail at, live)
  ]
]

pub without-Memᴰ :
    (name : Text) (table : List Row) (r : Row)
    → Memᴰ r (without name table)
    → str_eq r.key.name name ≡ false
unfolding without
without-Memᴰ name [] r m = elim m [ ]
without-Memᴰ name (s ∷ table) r m = elim (Bool-cases (str_eq s.key.name name)) [
  | inl gone ↦ without-Memᴰ name table r (rw gone at m)
  | inr stays ↦ elim (cons-cases r s (without name table) (rw stays at m)) [
    | inl same ↦ ap (λ (q : Row). str_eq q.key.name name) same ∙ stays
    | inr rest ↦ without-Memᴰ name table r rest
  ]
]

pub Memᴰ-select_live :
    (now : ℕ) (table : List Row) (r : Row)
    → Memᴰ r table
    → is_live now r.key ≡ true
    → Memᴰ r (select_live now table)
unfolding select_live
Memᴰ-select_live now [] r m live = elim m [ ]
Memᴰ-select_live now (s ∷ table) r m live = elim (Bool-cases (is_live now s.key)) [
  | inl alive ↦ rw alive (elim (cons-cases r s table m) [
    | inl same ↦ Memᴰ.head same
    | inr rest ↦ Memᴰ.tail (Memᴰ-select_live now table r rest live)
  ])
  | inr dead ↦ rw dead (elim (cons-cases r s table m) [
    | inl same ↦ absurd (clash (sym dead ∙ (ap (λ (q : Row). is_live now q.key) (sym same) ∙ live)))
    | inr rest ↦ Memᴰ-select_live now table r rest live
  ])
]
  where
    clash : false ≡ true → ⊥
    clash e = cc

pub scan-Memᴰ :
    (lib : Library) (plaintext : Text) (rows : List Row) (last : Option Text) (k : Key)
    → scan lib plaintext rows last ≡ ok k
    → (r : Row) × Memᴰ r rows × (r.key ≡ k) × (lib.compare_hash r.hash plaintext ≡ true)
unfolding scan
scan-Memᴰ lib plaintext [] none k h = cc
scan-Memᴰ lib plaintext [] (some e) k h = cc
scan-Memᴰ lib plaintext (s ∷ rows) last k h =
    elim (Bool-cases (lib.compare_hash s.hash plaintext)) [
      | inl fits ↦ let answered = rw fits at h in (s, Memᴰ.head refl, cc, fits)
      | inr differs ↦
          let (r, at, same, fits) = scan-Memᴰ lib plaintext rows last k (rw differs at h) in
          (r, Memᴰ.tail at, same, fits)
    ]

pub Memᴰ-scan :
    (lib : Library) (plaintext : Text) (rows : List Row) (last : Option Text) (r : Row)
    → ((s : Row) → Memᴰ s rows → lib.compare_hash s.hash plaintext ≡ true → s ≡ r)
    → lib.compare_hash r.hash plaintext ≡ true
    → Memᴰ r rows
    → scan lib plaintext rows last ≡ ok r.key
unfolding scan
Memᴰ-scan lib plaintext [] last r only fits m = elim m [ ]
Memᴰ-scan lib plaintext (s ∷ rows) last r only fits m =
    elim (Bool-cases (lib.compare_hash s.hash plaintext)) [
      | inl first ↦ rw first (ap (λ (q : Row). ok q.key) (only s (Memᴰ.head refl) first))
      | inr differs ↦ rw differs (elim (cons-cases r s rows m) [
        | inl same ↦ absurd (
            clash (
              sym differs
              ∙ (ap (λ (q : Row). lib.compare_hash q.hash plaintext) (sym same) ∙ fits)))
        | inr rest ↦ Memᴰ-scan lib plaintext rows last r (λ q at. only q (Memᴰ.tail at)) fits rest
      ])
    ]
  where
    clash : false ≡ true → ⊥
    clash e = cc
