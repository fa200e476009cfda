-- ===== src/Validator/Accepted.antt =====
-- What holds of claims that the validator accepts.
use api_test.Prelude.{
  ℕ, suc, ◌≡◌, ◌≢◌, ◌⊎◌, inl, inr, refl, ap, Bool, true, false, not, ◌||◌, List, [], ◌∷◌, Option,
  none, some, get_elem?, any, arith, Bool-cases,
}
use api_test.Prelude.Result.{ok, ensure-eq-ok}
use api_test.Std.Text.{Text, text, is_empty, str_eq, eq_of_str_eq}
use api_test.Std.Http.{lookup}
use api_test.Validator.Keys.{OidcConfig}
use api_test.Validator.Claims.{
  Claim, string, array, value, Claims, is_wanted, audience_matches, text_claim, names_client,
  client_allowed, is_none, claims_allowed,
}

-- The claim is the audience, or a list with it.
abbrev pub HasAudience : Option Claim → Text → Type 0
HasAudience aud want =
    (aud ≡ some (string want))
    ⊎ ((es : List (Option Text)) × (i : ℕ) × (aud ≡ some (array es))
        × (get_elem? es i ≡ some (some want)))

-- A claim names one of the clients, and not with an empty text.
pub record NamesClient (claims : Claims) (allowed : List Text) : Type 0 where
  pub claim : Text
  pub client : Text
  pub index : ℕ
  pub among : (claim ≡ text "azp") ⊎ ((claim ≡ text "client_id") ⊎ (claim ≡ text "appid"))
  pub held : lookup claim claims ≡ some (string client)
  pub given : client ≢ []
  pub listed : get_elem? allowed index ≡ some client

any_wanted :
    (want : Text) (es : List (Option Text))
    → any (is_wanted want) es ≡ true
    → (i : ℕ) × (get_elem? es i ≡ some (some want))
unfolding is_wanted
any_wanted want [] h = cc
any_wanted want (none ∷ es) h = let (i, e) = any_wanted want es h in (suc i, e)
any_wanted want (some s ∷ es) h = elim (Bool-cases (str_eq s want)) [
  | inl same ↦ (0, ap (λ t. some (some t)) (eq_of_str_eq s want same))
  | inr differs ↦ let (i, e) = any_wanted want es (rw differs at h) in (suc i, e)
]

audience_matches-HasAudience :
    (aud : Option Claim) (want : Text) → audience_matches aud want ≡ true → HasAudience aud want
unfolding audience_matches
audience_matches-HasAudience none want h = cc
audience_matches-HasAudience (some (string s)) want h =
    inl (ap (λ t. some (string t)) (eq_of_str_eq s want h))
audience_matches-HasAudience (some (array es)) want h =
    let (i, e) = any_wanted want es h in inr (es, i, refl, e)
audience_matches-HasAudience (some value) want h = cc

any_equal :
    (v : Text) (allowed : List Text)
    → any (λ a. str_eq a v) allowed ≡ true
    → (i : ℕ) × (get_elem? allowed i ≡ some v)
any_equal v [] h = cc
any_equal v (a ∷ allowed) h = elim (Bool-cases (str_eq a v)) [
  | inl same ↦ (0, ap some (eq_of_str_eq a v same))
  | inr differs ↦ let (i, e) = any_equal v allowed (rw differs at h) in (suc i, e)
]

text_claim_given : (c : Option Claim) → text_claim c ≢ [] → c ≡ some (string (text_claim c))
unfolding text_claim
text_claim_given none h = absurd (h refl)
text_claim_given (some (string s)) h = refl
text_claim_given (some (array es)) h = absurd (h refl)
text_claim_given (some value) h = absurd (h refl)

pub not_empty : (s : Text) → not (is_empty s) ≡ true → s ≢ []
not_empty [] h e = absurd (cc)
not_empty (c ∷ s) h e = cc

module _ (claims : Claims) (allowed : List Text) where
  names_client-NamesClient :
      (claim : Text)
      → (claim ≡ text "azp") ⊎ ((claim ≡ text "client_id") ⊎ (claim ≡ text "appid"))
      → names_client allowed (text_claim (lookup claim claims)) ≡ true
      → NamesClient claims allowed
  unfolding names_client
  names_client-NamesClient claim among h =
      let client = text_claim (lookup claim claims) in
      let given = not_empty client (ground arith) in
      let (i, listed) = any_equal client allowed (ground arith) in
      record {
        claim = claim;
        client = client;
        index = i;
        among = among;
        held = text_claim_given (lookup claim claims) given;
        given = given;
        listed = listed;
      }

  client_allowed-NamesClient : client_allowed claims allowed ≡ true → NamesClient claims allowed
  unfolding client_allowed
  client_allowed-NamesClient h =
      let azp = names_client allowed (text_claim (lookup (text "azp") claims)) in
      let client_id = names_client allowed (text_claim (lookup (text "client_id") claims)) in
      elim (Bool-cases azp) [
        | inl a ↦ names_client-NamesClient (text "azp") (inl refl) a
        | inr na ↦ elim (Bool-cases client_id) [
          | inl c ↦ names_client-NamesClient (text "client_id") (inr (inl refl)) c
          | inr nc ↦ names_client-NamesClient (text "appid") (inr (inr refl)) (rw (na, nc) at h)
        ]
      ]

is_none_nil {ℓ} : {A : Type ℓ} (xs : List A) → is_none xs ≡ true → xs ≡ []
unfolding is_none
is_none_nil [] h = refl
is_none_nil (x ∷ xs) h = cc

empty_nil : (s : Text) → is_empty s ≡ true → s ≡ []
empty_nil [] h = refl
empty_nil (c ∷ s) h = cc

-- The claims meet the checks that are configured.
abbrev pub ClaimsAllowed : OidcConfig → Claims → Type 0
ClaimsAllowed cfg claims =
    ((cfg.audience ≡ []) ⊎ HasAudience (lookup (text "aud") claims) cfg.audience)
    × ((cfg.allowed_clients ≡ []) ⊎ NamesClient claims cfg.allowed_clients)

either : (a b : Bool) → (a || b) ≡ true → (a ≡ true) ⊎ (b ≡ true)
either true b h = inl refl
either false b h = inr h

audience_allowed :
    (cfg : OidcConfig) (claims : Claims)
    → (is_empty cfg.audience || audience_matches (lookup (text "aud") claims) cfg.audience) ≡ true
    → (cfg.audience ≡ []) ⊎ HasAudience (lookup (text "aud") claims) cfg.audience
audience_allowed cfg claims h = elim (either (is_empty cfg.audience) _ h) [
  | inl none_wanted ↦ inl (empty_nil cfg.audience none_wanted)
  | inr matches ↦ inr (audience_matches-HasAudience _ cfg.audience matches)
]

clients_allowed :
    (cfg : OidcConfig) (claims : Claims)
    → (is_none cfg.allowed_clients || client_allowed claims cfg.allowed_clients) ≡ true
    → (cfg.allowed_clients ≡ []) ⊎ NamesClient claims cfg.allowed_clients
clients_allowed cfg claims h = elim (either (is_none cfg.allowed_clients) _ h) [
  | inl any_client ↦ inl (is_none_nil cfg.allowed_clients any_client)
  | inr allowed ↦ inr (client_allowed-NamesClient claims cfg.allowed_clients allowed)
]

pub claims_allowed-ClaimsAllowed :
    (quote : Text → Text) (cfg : OidcConfig) (claims : Claims)
    → claims_allowed quote cfg claims ≡ ok tt
    → ClaimsAllowed cfg claims
unfolding claims_allowed
claims_allowed-ClaimsAllowed quote cfg claims h =
    let (audience, h1) = ensure-eq-ok _ _ _ h in
    let (clients, _) = ensure-eq-ok _ _ _ h1 in
    (audience_allowed cfg claims audience, clients_allowed cfg claims clients)
