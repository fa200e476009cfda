-- ===== src/Portal/Tests.antt =====
-- Sessions and logins at which the theorems on them apply.
use api_test.Prelude.{arith, ℕ, ◌≡◌, ◌≢◌, refl, true, List, [], ◌∷◌, ◌++◌, none, some}
use api_test.Prelude.Result.{ok}
use api_test.Std.Text.{Text, text, str_eq, has_prefix, split}
use api_test.Std.Base64.{encode, decode, IsBytes}
use api_test.Std.Http.{Table, lookup, values_get}
use api_test.Inbound.Oidc.{PortalIdentity}
use api_test.Portal.Session.{
  SessionPayload, Crypto, SessionStore, Cookie, cut_dot, required, encode_payload, decode_payload,
  issue, read,
}
use api_test.Portal.Signed.{decode_payload_signed, read-issue}
use api_test.Portal.Login.{
  Claims, redirect, External, BrowserAuth, login_claims, handle_login, login_cookie,
  handle_callback, sanitize_return_path,
}
use api_test.Portal.Replay.{Attempt, callback_once, after_all}
use api_test.Portal.Home.{handle_login-ReturnsHome, ReturnsHome}
use api_test.Std.Redirect.{
  rooted_location, parses, has_control, escapes_well, cut, from_byte, clean_path, clean, clean_onto,
  joined, ends_in_slash, hex_escape,
}

abbrev store : SessionStore
store = record {
  cookie_name = text "s";
  secret = text "0123456789abcdef";
  secure = true;
  max_age = 10;
}

-- A codec that knows one payload, and a MAC of three bytes.
abbrev knows : {I : Type 0} → SessionPayload I → Crypto I
knows pl = record {
  marshal = λ _. some (text "{}");
  unmarshal = λ _. some pl;
  hmac = λ secret message. text "mac";
}

abbrev until_ten : SessionPayload ℕ
until_ten = record { identity = some 7; expires = 10 }

abbrev bytes_body : IsBytes (text "{}")
bytes_body = (omega arith, (omega arith, tt))

abbrev bytes_mac : IsBytes (text "mac")
bytes_mac = (omega arith, (omega arith, (omega arith, tt)))

read-issue_example :
    (cookie : Cookie) × (issue (knows until_ten) store 0 7 ≡ ok cookie)
    × (read (knows until_ten) store 11 (some cookie.value) ≡ none)
read-issue_example =
    read-issue (knows until_ten) store 0 11 7 (text "{}") refl refl bytes_body bytes_mac

-- The texts "{}" and "mac" in base64, joined by a dot.
abbrev cookie_text : Text
cookie_text = text "e30.bWFj"

decoded : {I : Type 0} (pl : SessionPayload I) → decode_payload (knows pl) store cookie_text ≡ ok pl
unfolding decode_payload required cut_dot encode decode str_eq
decoded pl = refl

decode_payload_signed_example :
    (signed : Text) × (sig : Text) × (body : Text) × (cookie_text ≡ signed ++ b'.' ∷ sig)
    × (decode sig ≡ some (text "mac"))
    × (decode signed ≡ some body)
    × (some until_ten ≡ some until_ten)
decode_payload_signed_example =
    decode_payload_signed (knows until_ten) store cookie_text until_ten (λ message. bytes_mac)
      (decoded until_ten)

abbrev user : PortalIdentity
user = record {
  subject = text "u";
  email = [];
  name = [];
  auth_type = text "oidc";
  claims = none;
  api_key_id = [];
}

abbrev claims : Claims
claims =
    (text "state", text "r")
    ∷ (text "verifier", text "r")
    ∷ (text "nonce", text "r")
    ∷ (text "return", text "/portal/x")
    ∷ []

abbrev login_payload : SessionPayload Claims
login_payload = record { identity = some claims; expires = 0 }

abbrev pkce : Crypto Claims
pkce = knows login_payload

abbrev session : Crypto PortalIdentity
session = knows (record { identity = some user; expires = 0 })

abbrev external : External
external = record {
  random_string = λ n. some (text "r");
  pkce_challenge = λ verifier. verifier;
  query_encode = λ q. text "q";
  exchange_code = λ code verifier. some (text "token");
  validate_bearer = λ token. some user;
}

abbrev browser_auth : BrowserAuth
browser_auth = record {
  client_id = text "c";
  audience = [];
  base_url = text "https://h";
  redirect_path = text "/portal/auth/callback";
  authz_url = text "https://idp/authorize";
  sessions = store;
  pkce_cookie = store;
}

abbrev sent_query : Table (List Text)
sent_query =
    (text "return", text "/portal/x" ∷ [])
    ∷ (text "state", text "r" ∷ [])
    ∷ (text "code", text "c" ∷ [])
    ∷ []

abbrev first : Attempt
first = record { at_time = 5; cookie = some cookie_text; query = sent_query }

abbrev again : Attempt
again = record { at_time = 6; cookie = some cookie_text; query = sent_query }

first_redirects :
    (handle_callback pkce session external browser_auth 5 (some cookie_text) sent_query []).0.reply
    ≡ redirect (text "/portal/x")
unfolding handle_callback decode_payload required cut_dot encode decode str_eq values_get lookup
    issue encode_payload rooted_location parses has_control escapes_well cut from_byte clean_path
    clean clean_onto joined ends_in_slash hex_escape split
first_redirects = refl

callback_once_example :
    (handle_callback pkce session external browser_auth 6
      (some cookie_text)
      sent_query
      (handle_callback pkce session external browser_auth 5
        (some cookie_text)
        sent_query
        []).1).0.reply
    ≢ redirect (text "/portal/x")
unfolding after_all
callback_once_example =
    callback_once pkce session external browser_auth first again [] [] (text "/portal/x")
      first_redirects tt (omega arith) refl (text "/portal/x")

handle_login-ReturnsHome_example :
    (value : Text) × ((handle_login pkce session external browser_auth sent_query).cookies
      ≡ login_cookie pkce session external browser_auth value ∷ [])
    × ReturnsHome
        (handle_callback pkce session external browser_auth 5 (some value) sent_query []).0.reply
unfolding login_claims values_get lookup sanitize_return_path has_prefix str_eq
handle_login-ReturnsHome_example =
    handle_login-ReturnsHome pkce session external browser_auth sent_query sent_query 5 []
      (text "r") (text "r") (text "r") (text "{}") refl refl refl refl refl bytes_body bytes_mac
