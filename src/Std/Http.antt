-- ===== src/Std/Http.antt =====
-- net/http: requests as handlers read them, and what a handler has written when it returns.
use api_test.Prelude.{
  ℕ, ◌+◌, ◌-◌, ◌≡◌, refl, Bool, true, false, ◌&&◌, ◌||◌, List, [], ◌∷◌, Option, none, some, leb,
  ◌==◌, if◌then◌else◌, any, arith, Bool-cases, inl, inr,
}
use api_test.Std.Text.{Text, text, str_eq, str_eq_iff, to_lower}

-- A Go map with text keys, as an association list; no key stands twice.
abbrev pub Table {ℓ} : Type ℓ → Type ℓ
Table V = List (Text × V)

module _ {ℓ} {V : Type ℓ} where
  unfoldable pub lookup : Text → Table V → Option V
  lookup k [] = none
  lookup k ((j, v) ∷ m) = if str_eq j k then some v else lookup k m

  unfoldable pub insert : Text → V → Table V → Table V
  insert k v [] = (k, v) ∷ []
  insert k v ((j, w) ∷ m) = if str_eq j k then (k, v) ∷ m else (j, w) ∷ insert k v m

  pub lookup-insert :
      (k j : Text) (v : V) (m : Table V)
      → lookup j (insert k v m) ≡ (if str_eq k j then some v else lookup j m)
  unfolding lookup insert
  lookup-insert k j v [] = refl
  lookup-insert k j v ((i, w) ∷ m) =
      ground (arith, str_eq_iff k j, str_eq_iff i k, str_eq_iff i j, lookup-insert k j v m)

abbrev first : Option (List Text) → Text
first none = []
first (some []) = []
first (some (v ∷ vs)) = v

-- url.Values.Get
unfoldable pub values_get : Table (List Text) → Text → Text
unfolding lookup
values_get q key = first (lookup key q)

-- The bytes of an HTTP token, besides letters and digits.
abbrev token_marks : List ℕ
token_marks = text "!#$%&'*+-.^_`|~"

is_token : ℕ → Bool
is_token c =
    (leb b'0' c && leb c b'9')
    || (leb b'A' c && leb c b'Z')
    || (leb b'a' c && leb c b'z')
    || any (λ t. c == t) token_marks

all_tokens : Text → Bool
unfolding is_token
all_tokens [] = true
all_tokens (c ∷ s) = is_token c && all_tokens s

-- Upper case at the start and behind a dash, lower case elsewhere.
recase : Bool → Text → Text
recase upper [] = []
recase true (c ∷ s) = (if leb b'a' c && leb c b'z' then c - 32 else c) ∷ recase (c == b'-') s
recase false (c ∷ s) = (if leb b'A' c && leb c b'Z' then c + 32 else c) ∷ recase (c == b'-') s

-- http.CanonicalHeaderKey
unfoldable pub canonical_key : Text → Text
unfolding all_tokens recase
canonical_key key = if all_tokens key then recase true key else key

lower-recase : (upper : Bool) (s : Text) → to_lower (recase upper s) ≡ to_lower s
unfolding to_lower recase
lower-recase upper [] = refl
lower-recase true (c ∷ s) = ground (arith, lower-recase (c == b'-') s)
lower-recase false (c ∷ s) = ground (arith, lower-recase (c == b'-') s)

pub to_lower-canonical_key : (key : Text) → to_lower (canonical_key key) ≡ to_lower key
unfolding canonical_key
to_lower-canonical_key key = elim (Bool-cases (all_tokens key)) [
  | inl tokens ↦ rw tokens (lower-recase true key)
  | inr no_tokens ↦ rw no_tokens refl
]

-- http.Header.Get; the keys of a header table are canonical.
unfoldable pub header_get : Table (List Text) → Text → Text
unfolding lookup canonical_key
header_get h key = first (lookup (canonical_key key) h)

pub record Request : Type 0 where
  pub method : Text
  pub path : Text
  pub host : Text
  pub tls : Bool
  pub header : Table (List Text)
  pub query : Table (List Text)

-- What the encoder is given. `failure` is the envelope {"error": message}.
pub data Body {ℓ} (A : Type ℓ) : Type ℓ where
  json : A → Body A
  failure : Text → Body A
  raw : Text → Body A
  nothing : Body A

pub record Response {ℓ} (A : Type ℓ) : Type ℓ where
  pub status : ℕ
  pub headers : Table Text
  pub body : Body A

abbrev pub json_headers : Table Text
json_headers = (text "Content-Type", text "application/json") ∷ []

-- Content-Type, the status line and a JSON body.
abbrev pub write_json {ℓ} : {A : Type ℓ} → ℕ → A → Response A
write_json status body = record { status = status; headers = json_headers; body = json body }

abbrev pub write_error {ℓ} : {A : Type ℓ} → ℕ → Text → Response A
write_error status message = record {
  status = status;
  headers = json_headers;
  body = failure message;
}

canonical_tests :
    (canonical_key (text "x-api-KEY") ≡ text "X-Api-Key")
    × (canonical_key (text "bad key") ≡ text "bad key")
unfolding canonical_key
canonical_tests = (refl, refl)
