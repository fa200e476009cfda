-- ===== src/ApiKeys/Issued.antt =====
-- Keys that are issued, that expire and that are revoked.
use api_test.Prelude.{
  ℕ, ◌≡◌, ◌≢◌, refl, sym, ap, ◌∙◌, true, false, not, List, [], ◌∷◌, Option, none, some, Bool-cases,
  inl, inr,
}
use mathlib.Core.List.{Memᴰ}
use mathlib.Core.Path.{subst}
use api_test.Prelude.Result.{
  Result, ok, err, ◌>>=◌, ◌>>◌, ensure, >>=-eq-ok, ensure-eq-ok, Result-cases,
}
use api_test.Std.Text.{Text, text, is_empty, str_eq, str_eq_refl}
use api_test.ApiKeys.Store.{
  Key, Created, Row, StoreError, Reply, Library, is_live, has_name, select_live, without, scanned,
  found, authenticate, adapted, inbound_store, delete, unless_failed, not_found, failed, create,
  new_key, generate_plaintext, with_prefix, insert_row, labelled_insert,
}
use api_test.ApiKeys.Rows.{
  Sound, Whole, cons-cases, select_live-Memᴰ, without-Memᴰ, Memᴰ-select_live, scan-Memᴰ, Memᴰ-scan,
}

not_ok : (e : StoreError) (k : Key) → err e ≡ ok k → ⊥
not_ok e k h = cc

-- Where the database delivers rows of the query only, a candidate is answered with the key of a row of
-- the table that is not expired and whose hash fits the candidate.
found-Memᴰ :
    (lib : Library) (reply : Reply) (now : ℕ) (plaintext : Text) (table : List Row) (k : Key)
    → Sound reply
    → found lib reply now plaintext table ≡ ok k
    → (r : Row) × Memᴰ r table
      × (r.key ≡ k)
      × (is_live now k ≡ true)
      × (lib.compare_hash r.hash plaintext ≡ true)
unfolding found scanned
found-Memᴰ lib reply now plaintext table k sound h = elim (Bool-cases (is_empty plaintext)) [
  | inl empty ↦ absurd (not_ok _ k (rw empty at h))
  | inr given ↦ elim (Result-cases (reply (select_live now table))) [
    | inr (e, fault) ↦ absurd (not_ok _ k (rw (given, fault) at h))
    | inl ((rows, last), delivered) ↦
        let (r, at, same, fits) =
          scan-Memᴰ lib plaintext rows last k (rw (given, delivered) at h) in
        let (stored, live) =
          select_live-Memᴰ now table r
            (sound.delivered (select_live now table) rows last r delivered at) in
        (r, stored, same, rw (sym same) live, fits)
  ]
]

adapted-name :
    (answer : Result StoreError Key) (name : Text)
    → adapted answer ≡ ok name
    → (k : Key) × (answer ≡ ok k) × (k.name ≡ name)
unfolding adapted
adapted-name (ok k) name h = (k, refl, cc)
adapted-name (err not_found) name h = cc
adapted-name (err (failed e)) name h = cc

-- Where the database delivers rows of a query only, a candidate that the inbound chain is answered a name
-- for is not empty to bcrypt: the table has a row of that name, not expired, whose hash fits it.
pub inbound_store-Memᴰ :
    (lib : Library) (reply : Reply) (now : ℕ) (plaintext name : Text) (table : List Row)
    → Sound reply
    → inbound_store lib reply now table plaintext ≡ ok name
    → (r : Row) × Memᴰ r table
      × (r.key.name ≡ name)
      × (is_live now r.key ≡ true)
      × (lib.compare_hash r.hash plaintext ≡ true)
unfolding inbound_store authenticate
inbound_store-Memᴰ lib reply now plaintext name table sound h =
    let (k, answered, named) = adapted-name (found lib reply now plaintext table) name h in
    let (r, at, same, live, fits) = found-Memᴰ lib reply now plaintext table k sound answered in
    (r, at, ap (λ (q : Key). q.name) same ∙ named, ap (is_live now) same ∙ live, fits)

unless_failed-eq-ok :
    {A : Type 0} (o : Option Text) (next : Result StoreError A) {a : A}
    → (unless_failed o >> next) ≡ ok a
    → next ≡ ok a
unfolding unless_failed
unless_failed-eq-ok none next h = h
unless_failed-eq-ok (some e) next h = cc

delete-without :
    (lib : Library) (name : Text) (table left : List Row)
    → delete lib name table ≡ ok left
    → left ≡ without name table
unfolding delete
delete-without lib name table left h =
    let (_, same) =
      ensure-eq-ok (has_name name table) not_found _ (unless_failed-eq-ok lib.exec _ h) in
    cc

-- Once a name is deleted, no candidate is answered with it, at any time and whatever the database
-- delivers of the rows that a query selects.
pub delete_revokes :
    (lib : Library) (reply : Reply) (now : ℕ) (plaintext name : Text) (table left : List Row)
    → Sound reply
    → delete lib name table ≡ ok left
    → inbound_store lib reply now left plaintext ≢ ok name
delete_revokes lib reply now plaintext name table left sound deleted answered =
    let (r, stored, named, _, _) =
      inbound_store-Memᴰ lib reply now plaintext name left sound answered in
    let gone =
      without-Memᴰ name table r
        (subst (Memᴰ r) (delete-without lib name table left deleted) stored) in
    clash (sym gone ∙ (ap (λ n. str_eq n name) named ∙ str_eq_refl name))
  where
    clash : false ≡ true → ⊥
    clash e = cc

with_prefix-eq-ok :
    (prefix : Text) (r : Result Text Text) {t : Text} → with_prefix prefix r ≡ ok t → r ≡ ok t
unfolding with_prefix
with_prefix-eq-ok prefix (ok t) h = cc
with_prefix-eq-ok prefix (err e) h = cc

-- The row behind a key that is made.
record Made (lib : Library) (created : Created) (table grown : List Row) : Type 0 where
  hash : Text
  hashed : lib.generate created.plaintext ≡ ok hash
  given : is_empty created.plaintext ≡ false
  rows : grown ≡ record { key = created.key; hash = hash } ∷ table

create_steps :
    (lib : Library) (now : ℕ) (name description created_by : Text) (expires_at : Option ℕ)
    (table : List Row)
    → create lib now name description created_by expires_at table ≡ (
        ensure (not (is_empty name)) (failed (text "name is required"))
        >> (generate_plaintext lib >>= λ plaintext.
            with_prefix (text "hash: ") (lib.generate plaintext) >>= λ hash.
            labelled_insert lib (
              insert_row lib
                (record {
                  key = new_key lib.new_id name description created_by now expires_at;
                  hash = hash;
                })
                table)
            >>= λ rows. ok (
              record {
                key = new_key lib.new_id name description created_by now expires_at;
                plaintext = plaintext;
              },
              rows,
            )))
unfolding create
create_steps lib now name description created_by expires_at table = refl

generate_plaintext-given :
    (lib : Library) (plaintext : Text)
    → generate_plaintext lib ≡ ok plaintext
    → is_empty plaintext ≡ false
unfolding generate_plaintext
generate_plaintext-given lib plaintext h =
    let (buf, _, same) = >>=-eq-ok (with_prefix [] lib.random) _ h in cc

labelled_insert-eq-ok :
    (lib : Library) (r : Result StoreError (List Row)) {rows : List Row}
    → labelled_insert lib r ≡ ok rows
    → r ≡ ok rows
unfolding labelled_insert
labelled_insert-eq-ok lib (ok rows) h = cc
labelled_insert-eq-ok lib (err not_found) h = cc
labelled_insert-eq-ok lib (err (failed e)) h = cc

labelled_insert-row :
    (lib : Library) (r : Row) (table grown : List Row)
    → labelled_insert lib (insert_row lib r table) ≡ ok grown
    → grown ≡ r ∷ table
unfolding insert_row
labelled_insert-row lib r table grown h =
    let (_, same) =
      ensure-eq-ok (not (has_name r.key.name table)) (failed lib.duplicate) _
        (unless_failed-eq-ok lib.exec _ (labelled_insert-eq-ok lib (insert_row lib r table) h)) in
    cc

create-Made :
    (lib : Library) (now : ℕ) (name description created_by : Text) (expires_at : Option ℕ)
    (table grown : List Row) (created : Created)
    → create lib now name description created_by expires_at table ≡ ok (created, grown)
    → Made lib created table grown
create-Made lib now name description created_by expires_at table grown created h =
    let (_, h1) =
      ensure-eq-ok (not (is_empty name)) (failed (text "name is required")) _
        (rw (create_steps lib now name description created_by expires_at table) at h) in
    let (plaintext, made, h2) = >>=-eq-ok (generate_plaintext lib) _ h1 in
    let (hash, hashed, h3) =
      >>=-eq-ok (with_prefix (text "hash: ") (lib.generate plaintext)) _ h2 in
    let (rows, inserted, h4) =
      >>=-eq-ok
        (labelled_insert lib (
          insert_row lib
            (record {
              key = new_key lib.new_id name description created_by now expires_at;
              hash = hash;
            })
            table))
        _ h3 in
    let given = generate_plaintext-given lib plaintext made in
    let grew = labelled_insert-row lib _ table rows inserted in
    let fitting = with_prefix-eq-ok (text "hash: ") (lib.generate plaintext) hashed in
    record { hash = hash; hashed = cc; given = cc; rows = cc }

-- Where bcrypt accepts what it has hashed, the fresh key fits no hash of the table, and the database
-- delivers the rows that a query selects, a key that is made is answered to its plaintext at every time
-- before it expires.
pub create_answers :
    (lib : Library) (reply : Reply) (now later : ℕ) (name description created_by : Text)
    (expires_at : Option ℕ) (table grown : List Row) (created : Created)
    → ((p hash : Text) → lib.generate p ≡ ok hash → lib.compare_hash hash p ≡ true)
    → Whole reply
    → create lib now name description created_by expires_at table ≡ ok (created, grown)
    → ((r : Row) → Memᴰ r table → lib.compare_hash r.hash created.plaintext ≡ false)
    → is_live later created.key ≡ true
    → (authenticate lib reply later created.plaintext grown).0 ≡ ok created.key
unfolding authenticate found scanned
create_answers lib reply now later name description created_by expires_at table grown created hashes
      whole h fresh live =
    let m = create-Made lib now name description created_by expires_at table grown created h in
    let row : Row = record { key = created.key; hash = m.hash } in
    let selected = select_live later grown in
    let stored = subst (Memᴰ row) (sym m.rows) (Memᴰ.head refl) in
    rw (m.given, whole.answers selected)
      (Memᴰ-scan lib created.plaintext (whole.answer selected) none row
        (λ s delivered fits.
          elim (cons-cases s row table (
            subst (Memᴰ s) m.rows
              (select_live-Memᴰ later grown s (whole.only selected s delivered)).0)) [
                | inl same ↦ same
                | inr old ↦ absurd (clash (sym (fresh s old) ∙ fits))
              ])
        (hashes created.plaintext m.hash m.hashed)
        (whole.all selected row (Memᴰ-select_live later grown row stored live)))
  where
    clash : false ≡ true → ⊥
    clash e = cc
