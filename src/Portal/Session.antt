-- ===== src/Portal/Session.antt =====
-- Signed cookies (pkg/httpsrv/session.go).
use api_test.Prelude.{
  ℕ, ◌+◌, Bool, [], ◌∷◌, ◌++◌, Option, none, some, ltb, ◌==◌, length, if◌then◌else◌,
}
use api_test.Prelude.Result.{Result, ok, err, ◌>>=◌, ◌>>◌, ensure}
use api_test.Std.Text.{Text, text, str_eq, is_empty}
use api_test.Std.Base64.{encode, decode}

-- What a cookie carries; times are nanoseconds.
pub record SessionPayload (I : Type 0) : Type 0 where
  pub identity : Option I
  pub expires : ℕ

-- Code from outside: encoding/json on payloads, and HMAC-SHA256 of a secret and a message.
pub record Crypto (I : Type 0) : Type 0 where
  pub marshal : SessionPayload I → Option Text
  pub unmarshal : Text → Option (SessionPayload I)
  pub hmac : Text → Text → Text

pub record SessionStore : Type 0 where
  pub cookie_name : Text
  pub secret : Text
  pub secure : Bool
  pub max_age : ℕ

unfoldable pub new_session_store : Text → Text → Bool → ℕ → Result Text SessionStore
new_session_store cookie_name secret secure max_age =
    if ltb (length secret) 16
    then err (text "session secret too short (need >= 16 bytes)")
    else ok (record {
      cookie_name = if is_empty cookie_name then text "api_test_session" else cookie_name;
      secret = secret;
      secure = secure;
      max_age = if max_age == 0 then 43200000000000 else max_age;
    })

-- A cookie as it is set; `max_age` is none where the attribute is left out, and `delete` stands for
-- a negative one.
pub data MaxAge : Type 0 where
  unset : MaxAge
  delete : MaxAge
  seconds : ℕ → MaxAge

pub record Cookie : Type 0 where
  pub name : Text
  pub value : Text
  pub path : Text
  pub expires : Option ℕ
  pub max_age : MaxAge
  pub secure : Bool

-- strings.SplitN(v, ".", 2), where it has two parts.
unfoldable pub cut_dot : Text → Option (Text × Text)
cut_dot [] = none
cut_dot (c ∷ s) =
    let rest = cut_dot s in
    if c == b'.' then some ([], s) else elim rest [ none ↦ none | some (a, b) ↦ some (c ∷ a, b) ]

unfoldable pub required {ℓ} : {A : Type ℓ} → Text → Option A → Result Text A
required message none = err message
required message (some a) = ok a

unfoldable pub unless_expired : {I : Type 0} → ℕ → Result Text (SessionPayload I) → Option I
unless_expired now (ok pl) = if ltb pl.expires now then none else pl.identity
unless_expired now (err e) = none

module _ {I : Type 0} (crypto : Crypto I) where
  unfoldable pub encode_payload : SessionStore → SessionPayload I → Result Text Text
  unfolding required
  encode_payload s pl = do
    body ← required (text "marshal") (crypto.marshal pl)
    ok (encode body ++ b'.' ∷ encode (crypto.hmac s.secret (encode body)))

  unfoldable pub decode_payload : SessionStore → Text → Result Text (SessionPayload I)
  unfolding required
  decode_payload s v = do
    parts ← required (text "malformed cookie") (cut_dot v)
    got ← required (text "decode sig") (decode parts.1)
    want ← required (text "decode want") (decode (encode (crypto.hmac s.secret parts.0)))
    ensure (str_eq got want) (text "bad signature")
    body ← required (text "decode body") (decode parts.0)
    required (text "unmarshal") (crypto.unmarshal body)

  unfoldable pub issue : SessionStore → ℕ → I → Result Text Cookie
  unfolding encode_payload
  issue s now id = do
    value ← encode_payload s (record { identity = some id; expires = now + s.max_age })
    ok (record {
      name = s.cookie_name;
      value = value;
      path = text "/";
      expires = some (now + s.max_age);
      max_age = unset;
      secure = s.secure;
    })

  -- SessionStore.Read, on the value of the request's cookie of that name.
  unfoldable pub read : SessionStore → ℕ → Option Text → Option I
  unfolding decode_payload unless_expired
  read s now none = none
  read s now (some []) = none
  read s now (some (c ∷ v)) = unless_expired now (decode_payload s (c ∷ v))

unfoldable pub clear : SessionStore → Cookie
clear s = record {
  name = s.cookie_name;
  value = [];
  path = text "/";
  expires = some 0;
  max_age = delete;
  secure = s.secure;
}
