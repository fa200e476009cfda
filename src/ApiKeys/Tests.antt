-- ===== src/ApiKeys/Tests.antt =====
-- A table, a library and a reply at which the theorems on the store of keys apply.
use api_test.Prelude.{
  ◌≡◌, ◌≢◌, refl, sym, ap, ◌∙◌, true, false, List, [], ◌∷◌, ◌++◌, Option, none, some,
}
use mathlib.Core.List.{Memᴰ}
use mathlib.Core.Path.{subst}
use api_test.Prelude.Result.{ok}
use api_test.Std.Text.{Text, text, str_eq, str_eq_refl}
use api_test.Std.Base64.{encode}
use api_test.ApiKeys.Store.{
  Created, Row, Reply, Library, is_live, has_name, without, authenticate, inbound_store, delete,
  unless_failed, create, new_key, generate_plaintext, with_prefix, insert_row, labelled_insert,
}
use api_test.ApiKeys.Rows.{Sound, Whole}
use api_test.ApiKeys.Issued.{delete_revokes, create_answers}

-- A hash that is the password behind a mark.
abbrev library : Library
library = record {
  random = ok (text "abc");
  generate = λ p. ok (text "$" ++ p);
  compare_hash = λ hash p. str_eq hash (text "$" ++ p);
  new_id = text "id2";
  exec = none;
  duplicate = text "duplicate key";
}

abbrev all_rows : Reply
all_rows selected = ok (selected, none)

abbrev old_row : Row
old_row = record {
  key = record {
    id = text "id1";
    name = text "old";
    description = [];
    created_by = [];
    created_at = 1;
    expires_at = none;
    last_used_at = none;
  };
  hash = text "$at_old";
}

abbrev table : List Row
table = old_row ∷ []

all_rows-eq :
    (selected rows : List Row) (last : Option Text)
    → all_rows selected ≡ ok (rows, last)
    → rows ≡ selected
all_rows-eq selected rows last e = cc

hashes : (p hash : Text) → library.generate p ≡ ok hash → library.compare_hash hash p ≡ true
hashes p hash made =
    ap (λ h. str_eq h (text "$" ++ p)) (sym (hash_of p hash made)) ∙ str_eq_refl (text "$" ++ p)
  where
    hash_of : (p hash : Text) → library.generate p ≡ ok hash → text "$" ++ p ≡ hash
    hash_of p hash made = cc

all_rows-Sound : Sound all_rows
all_rows-Sound = record {
  delivered = λ selected rows last r e m. subst (Memᴰ r) (all_rows-eq selected rows last e) m;
}

all_rows-Whole : Whole all_rows
all_rows-Whole = record {
  answer = λ selected. selected;
  answers = λ selected. refl;
  only = λ selected r m. m;
  all = λ selected r m. m;
}

abbrev ada : Created
ada = record {
  key = new_key (text "id2") (text "ada") [] [] 5 (some 9);
  plaintext = text "at_YWJj";
}

abbrev ada_row : Row
ada_row = record { key = ada.key; hash = text "$at_YWJj" }

ada_made : create library 5 (text "ada") [] [] (some 9) table ≡ ok (ada, ada_row ∷ table)
unfolding create generate_plaintext with_prefix labelled_insert insert_row unless_failed has_name
    str_eq encode
ada_made = refl

ada_live : is_live 8 ada.key ≡ true
unfolding is_live new_key
ada_live = refl

ada_fresh : (r : Row) → Memᴰ r table → library.compare_hash r.hash ada.plaintext ≡ false
ada_fresh r m = elim m [
  | Memᴰ.head same ↦
      ap (λ (q : Row). library.compare_hash q.hash ada.plaintext) same ∙ (unfold str_eq in refl)
  | Memᴰ.tail rest ↦ elim rest [ ]
]

create_answers_example :
    (authenticate library all_rows 8 ada.plaintext (ada_row ∷ table)).0 ≡ ok ada.key
create_answers_example =
    create_answers library all_rows 5 8 (text "ada") [] [] (some 9) table (ada_row ∷ table) ada
      hashes all_rows-Whole ada_made ada_fresh ada_live

ada_deleted : delete library (text "ada") (ada_row ∷ table) ≡ ok table
unfolding delete unless_failed has_name without str_eq new_key
ada_deleted = refl

delete_revokes_example : inbound_store library all_rows 8 table (text "at_YWJj") ≢ ok (text "ada")
delete_revokes_example =
    delete_revokes library all_rows 8 (text "at_YWJj") (text "ada") (ada_row ∷ table) table
      all_rows-Sound ada_deleted
