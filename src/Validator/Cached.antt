-- ===== src/Validator/Cached.antt =====
-- Which keys come into the cache.
use api_test.Prelude.{
  ℕ, suc, ◌≡◌, ◌⊎◌, inl, inr, refl, sym, ap, ◌∙◌, true, List, [], ◌∷◌, none, some, get_elem?,
  Bool-cases,
}
use api_test.Prelude.Result.{ok, Result-cases}
use api_test.Std.Text.{Text, str_eq, eq_of_str_eq}
use api_test.Std.Http.{Table, lookup, lookup-insert}
use api_test.Validator.Keys.{
  PublicKey, Jwk, Validator, may_sign, decode_rsa, with_key, keys_from, install,
}

-- The key set has an entry for the identifier that may sign and holds the key.
pub record HasKey (jwks : List Jwk) (kid : Text) (k : PublicKey) : Type 0 where
  pub index : ℕ
  pub jwk : Jwk
  pub listed : get_elem? jwks index ≡ some jwk
  pub signs : may_sign jwk ≡ true
  pub named : jwk.kid ≡ kid
  pub holds : decode_rsa jwk.n jwk.e ≡ ok k

HasKey-cons :
    (j : Jwk) (jwks : List Jwk) (kid : Text) (k : PublicKey)
    → HasKey jwks kid k
    → HasKey (j ∷ jwks) kid k
HasKey-cons j jwks kid k h = record {
  index = suc h.index;
  jwk = h.jwk;
  listed = h.listed;
  signs = h.signs;
  named = h.named;
  holds = h.holds;
}

-- One round of the loop: the key was there before, or the entry holds it.
with_key-lookup :
    (j : Jwk) (jwks : List Jwk) (kid : Text) (k : PublicKey) (keys : Table PublicKey)
    → may_sign j ≡ true
    → lookup kid (with_key j.kid (decode_rsa j.n j.e) keys) ≡ some k
    → HasKey (j ∷ jwks) kid k ⊎ (lookup kid keys ≡ some k)
unfolding with_key
with_key-lookup j jwks kid k keys signs h = elim (Result-cases (decode_rsa j.n j.e)) [
  | inr (e, bad) ↦ inr (rw bad at h)
  | inl (key, good) ↦ elim (Bool-cases (str_eq j.kid kid)) [
    | inr other ↦ inr (sym (lookup-insert j.kid kid key keys ∙ rw other refl) ∙ rw good at h)
    | inl same ↦ inl (record {
      index = 0;
      jwk = j;
      listed = refl;
      signs = signs;
      named = eq_of_str_eq j.kid kid same;
      holds =
          good
          ∙ ap ok (
              some_eq key k (sym (lookup-insert j.kid kid key keys ∙ rw same refl) ∙ rw good at h));
    })
  ]
]
  where
    some_eq : (a b : PublicKey) → some a ≡ some b → a ≡ b
    some_eq a b e = cc

keys_from-lookup :
    (jwks : List Jwk) (kid : Text) (k : PublicKey) (keys : Table PublicKey)
    → lookup kid (keys_from jwks keys) ≡ some k
    → HasKey jwks kid k ⊎ (lookup kid keys ≡ some k)
unfolding keys_from
keys_from-lookup [] kid k keys h = inr h
keys_from-lookup (j ∷ jwks) kid k keys h = elim (Bool-cases (may_sign j)) [
  | inr other ↦ elim (keys_from-lookup jwks kid k keys (rw other at h)) [
    | inl found ↦ inl (HasKey-cons j jwks kid k found)
    | inr before ↦ inr before
  ]
  | inl signs ↦
      elim (keys_from-lookup jwks kid k (with_key j.kid (decode_rsa j.n j.e) keys)
        (rw signs at h)) [
          | inl found ↦ inl (HasKey-cons j jwks kid k found)
          | inr before ↦ with_key-lookup j jwks kid k keys signs before
        ]
]

-- A key in an installed set stands in the document, under its identifier, with the type RSA and the
-- use and the algorithm, where they are given, of a signature.
pub install-HasKey :
    (now : ℕ) (jwks : List Jwk) (v : Validator) (kid : Text) (k : PublicKey)
    → lookup kid (install now jwks v).keys ≡ some k
    → HasKey jwks kid k
unfolding install
install-HasKey now jwks v kid k h = elim (keys_from-lookup jwks kid k [] h) [
  | inl found ↦ found
  | inr absent ↦ absurd (unfold lookup in (none_some absent))
]
  where
    none_some : {k : PublicKey} → none ≡ some k → ⊥
    none_some e = cc
