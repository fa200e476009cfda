-- ===== src/ApiKeys/Store.antt =====
-- The store of API keys and its use by the inbound chain (pkg/apikeys/store.go and inbound.go), over
-- the rows of the table api_keys, each of whose statements reads or changes them as its SQL says.
use api_test.Prelude.{
  ℕ, Bool, true, false, not, List, [], ◌∷◌, ◌++◌, Option, none, some, if◌then◌else◌, ltb, map,
}
use api_test.Prelude.Result.{Result, ok, err, ◌>>=◌, ◌>>◌, ensure}
use api_test.Std.Text.{Text, text, is_empty, str_eq}
use api_test.Std.Base64.{encode}
use api_test.Inbound.Types.{AuthError, invalid_credential, other, KeyStore}

pub record Key : Type 0 where
  pub id : Text
  pub name : Text
  pub description : Text
  pub created_by : Text
  pub created_at : ℕ
  pub expires_at : Option ℕ
  pub last_used_at : Option ℕ

pub record Created : Type 0 where
  pub key : Key
  pub plaintext : Text

-- A row of the table.
pub record Row : Type 0 where
  pub key : Key
  pub hash : Text

-- ErrNotFound, and every other error with its text.
pub data StoreError : Type 0 where
  not_found : StoreError
  failed : Text → StoreError

-- The rows that a query delivers, in an order of the database's choice, and the error that it ends
-- with; or the error of the query itself.
abbrev pub Reply : Type 0
Reply = List Row → Result Text (List Row × Option Text)

-- The library's part: rand.Read, bcrypt, uuid.NewString, and the error of a statement's execution.
pub record Library : Type 0 where
  pub random : Result Text Text
  pub generate : Text → Result Text Text
  pub compare_hash : Text → Text → Bool
  pub new_id : Text
  pub exec : Option Text
  pub duplicate : Text

unfoldable pub is_live : ℕ → Key → Bool
is_live now k = elim (k.expires_at) [ none ↦ true | some at ↦ ltb now at ]

unfoldable pub has_name : Text → List Row → Bool
unfolding str_eq
has_name name [] = false
has_name name (r ∷ rows) = if str_eq r.key.name name then true else has_name name rows

-- The rows that are not yet expired.
unfoldable pub select_live : ℕ → List Row → List Row
unfolding is_live
select_live now [] = []
select_live now (r ∷ rows) =
    let rest = select_live now rows in if is_live now r.key then r ∷ rest else rest

-- The rows of other names.
unfoldable pub without : Text → List Row → List Row
unfolding str_eq
without name [] = []
without name (r ∷ rows) =
    let rest = without name rows in if str_eq r.key.name name then rest else r ∷ rest

-- The row of an identifier, used just now.
unfoldable pub touch : Text → ℕ → List Row → List Row
unfolding str_eq
touch id now [] = []
touch id now (r ∷ rows) =
    (if str_eq r.key.id id
      then record r { key = record (r.key) { last_used_at = some now } }
      else r)
    ∷ touch id now rows

unfoldable pub with_prefix : Text → Result Text Text → Result StoreError Text
with_prefix prefix (ok a) = ok a
with_prefix prefix (err e) = err (failed (prefix ++ e))

unfoldable pub unless_failed : Option Text → Result StoreError (Unit {0})
unless_failed none = ok tt
unless_failed (some e) = err (failed e)

unfoldable pub new_key : Text → Text → Text → Text → ℕ → Option ℕ → Key
new_key id name description created_by now expires_at = record {
  id = id;
  name = name;
  description = description;
  created_by = created_by;
  created_at = now;
  expires_at = expires_at;
  last_used_at = none;
}

module _ (lib : Library) where
  unfoldable pub generate_plaintext : Result StoreError Text
  unfolding with_prefix encode
  generate_plaintext = do buf ← with_prefix [] lib.random; ok (text "at_" ++ encode buf)

  -- The insertion, where the names of the table are unique.
  unfoldable pub insert_row : Row → List Row → Result StoreError (List Row)
  unfolding unless_failed has_name
  insert_row r table = do
    unless_failed lib.exec
    ensure (not (has_name r.key.name table)) (failed lib.duplicate)
    ok (r ∷ table)

  unfoldable pub labelled_insert : Result StoreError (List Row) → Result StoreError (List Row)
  labelled_insert (ok table) = ok table
  labelled_insert (err not_found) = err not_found
  labelled_insert (err (failed e)) = err (failed (text "insert api key: " ++ e))

  -- The key that is made, and the table with its row.
  unfoldable pub create :
      ℕ → Text → Text → Text → Option ℕ → List Row → Result StoreError (Created × List Row)
  unfolding new_key generate_plaintext with_prefix insert_row labelled_insert
  create now name description created_by expires_at table = do
    ensure (not (is_empty name)) (failed (text "name is required"))
    plaintext ← generate_plaintext
    hash ← with_prefix (text "hash: ") (lib.generate plaintext)
    let key = new_key lib.new_id name description created_by now expires_at
    rows ← labelled_insert (insert_row (record { key = key; hash = hash }) table)
    ok (record { key = key; plaintext = plaintext }, rows)

  -- The table without the name, unless no row has it.
  unfoldable pub delete : Text → List Row → Result StoreError (List Row)
  unfolding unless_failed has_name without
  delete name table = do
    unless_failed lib.exec
    ensure (has_name name table) not_found
    ok (without name table)

  -- The loop over the rows that are delivered.
  unfoldable pub scan : Text → List Row → Option Text → Result StoreError Key
  scan plaintext [] none = err not_found
  scan plaintext [] (some e) = err (failed e)
  scan plaintext (r ∷ rows) last =
      let rest = scan plaintext rows last in
      if lib.compare_hash r.hash plaintext then ok r.key else rest

  unfoldable pub scanned : Text → Result Text (List Row × Option Text) → Result StoreError Key
  unfolding scan
  scanned plaintext (err e) = err (failed e)
  scanned plaintext (ok (rows, last)) = scan plaintext rows last

  unfoldable pub found : Reply → ℕ → Text → List Row → Result StoreError Key
  unfolding scanned select_live
  found reply now plaintext table =
      if is_empty plaintext
      then err not_found
      else scanned plaintext (reply (select_live now table))

  touched : ℕ → List Row → Result StoreError Key → List Row
  unfolding touch
  touched now table (err e) = table
  touched now table (ok k) = elim (lib.exec) [ none ↦ touch k.id now table | some e ↦ table ]

  -- The answer, and the table afterwards.
  unfoldable pub authenticate : Reply → ℕ → Text → List Row → Result StoreError Key × List Row
  unfolding found touched
  authenticate reply now plaintext table =
      let answer = found reply now plaintext table in (answer, touched now table answer)

-- List, where the statement orders the rows by the time of their creation.
unfoldable pub list_keys : Reply → List Row → Result StoreError (List Key)
list_keys reply table = elim (reply table) [
  | err e ↦ err (failed e)
  | ok delivered ↦ elim (delivered.1) [
    | none ↦ ok (map (λ (r : Row). r.key) delivered.0)
    | some e ↦ err (failed e)
  ]
]

unfoldable pub adapted : Result StoreError Key → Result AuthError Text
adapted (ok k) = ok k.name
adapted (err not_found) = err invalid_credential
adapted (err (failed e)) = err (other e)

-- AsInboundStore: the names that it answers, at a time and for a table.
unfoldable pub inbound_store : Library → Reply → ℕ → List Row → KeyStore
unfolding authenticate adapted
inbound_store lib reply now table plaintext = adapted (authenticate lib reply now plaintext table).0
