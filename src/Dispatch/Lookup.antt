-- ===== src/Dispatch/Lookup.antt =====
-- Tables that grow by values, and requests without a credential in them.
use api_test.Prelude.{
  ℕ, ◌≡◌, refl, sym, ap, ◌∙◌, Bool, Bool-cases, inl, inr, true, false, List, [], ◌∷◌, Option, none,
  some,
}
use api_test.Prelude.Result.{Result, ok, err}
use api_test.Std.Text.{Text, text, str_eq, eq_of_str_eq, is_empty}
use api_test.Std.Http.{Request, Table, lookup, lookup-insert, canonical_key, header_get, values_get}
use api_test.Middleware.Identity.{has_inbound_credential, is_bearer}
use api_test.Dispatch.Sent.{Refusal, add_value, add_values}
use api_test.Dispatch.Replay.{refuse_with, unless_none}

lookup-add_value :
    (k j v : Text) (t : Table (List Text))
    → str_eq k j ≡ false
    → lookup j (add_value k v t) ≡ lookup j t
unfolding add_value
lookup-add_value k j v t differs = lookup-insert k j _ t ∙ rw differs refl

pub lookup-add_values :
    (k j : Text) (vs : List Text) (t : Table (List Text))
    → str_eq k j ≡ false
    → lookup j (add_values k vs t) ≡ lookup j t
unfolding add_values
lookup-add_values k j [] t differs = refl
lookup-add_values k j (v ∷ vs) t differs =
    lookup-add_values k j vs (add_value k v t) differs ∙ lookup-add_value k j v t differs

-- A test that does not see a key's case tells two keys apart in canonical form as well.
pub other_key :
    (test : Text → Bool)
    → ((k : Text) → test (canonical_key k) ≡ test k)
    → (k secret : Text) → test k ≡ false
    → test secret ≡ true
    → str_eq (canonical_key k) secret ≡ false
other_key test canonical k secret plain hidden =
    elim (Bool-cases (str_eq (canonical_key k) secret)) [
      | inr differs ↦ differs
      | inl same ↦
          absurd (clash (sym (canonical k) ∙ ap test (eq_of_str_eq (canonical_key k) secret same)))
    ]
  where
    clash : test k ≡ test secret → ⊥
    clash e = cc

first_credential :
    (h : Table (List Text))
    → lookup (text "X-Api-Key") h ≡ none
    → is_empty (header_get h (text "X-API-Key")) ≡ true
unfolding header_get canonical_key
first_credential h absent = rw absent refl

scheme_credential :
    (h : Table (List Text))
    → lookup (text "Authorization") h ≡ none
    → is_bearer (header_get h (text "Authorization")) ≡ false
unfolding header_get canonical_key is_bearer
scheme_credential h absent = rw absent refl

query_credential :
    (q : Table (List Text))
    → lookup (text "api_key") q ≡ none
    → is_empty (values_get q (text "api_key")) ≡ true
unfolding values_get
query_credential q absent = rw absent refl

pub no_credential :
    (r : Request)
    → lookup (text "X-Api-Key") r.header ≡ none
    → lookup (text "Authorization") r.header ≡ none
    → lookup (text "api_key") r.query ≡ none
    → has_inbound_credential r ≡ false
unfolding has_inbound_credential
no_credential r key scheme query =
    rw
      (
        first_credential r.header key,
        query_credential r.query query,
        scheme_credential r.header scheme,
      )
      refl

pub unless_none-eq-ok {ℓ} :
    {A : Type ℓ} (refusal : Refusal) (o : Option A) {t : A}
    → unless_none refusal o ≡ ok t
    → o ≡ some t
unfolding unless_none
unless_none-eq-ok refusal none h = cc
unless_none-eq-ok refusal (some t) h = cc

pub refuse_with-eq-ok {ℓ} :
    {A : Type ℓ} (status : ℕ) (prefix : Text) (r : Result Text A) {u : A}
    → refuse_with status prefix r ≡ ok u
    → r ≡ ok u
unfolding refuse_with
refuse_with-eq-ok status prefix (ok u) h = cc
refuse_with-eq-ok status prefix (err e) h = cc
