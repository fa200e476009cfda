-- ===== src/Dispatch/Sent.antt =====
-- What both handlers share: the request that they send, the identity that it carries
-- (portalIdentityToInbound of pkg/httpsrv/portal_tryit.go), and tables that grow by one value at a
-- time.
use api_test.Prelude.{ℕ, List, [], ◌∷◌, ◌++◌, Option, none, some, if◌then◌else◌, take, ltb, length}
use api_test.Prelude.Result.{Result, ok, err}
use api_test.Std.Text.{Text, text, is_empty}
use api_test.Std.Http.{Request, Table, Response, write_error, lookup, insert, canonical_key}
use api_test.Inbound.Types.{Identity}
use api_test.Inbound.Oidc.{PortalIdentity}
use api_test.Audit.Capture.{Call}

-- A request with the identity in its context.
pub record Sent : Type 0 where
  pub request : Request
  pub identity : Option Identity
  pub body : Text

-- The mux: the calls of its writer, and the headers that it leaves.
abbrev pub Target : Type 0
Target = Sent → List Call × Table (List Text)

-- replayMaxBodyBytes and tryItMaxBodyBytes
abbrev pub max_body_bytes : ℕ
max_body_bytes = 1048576

unfoldable pub inbound_identity : PortalIdentity → Identity
inbound_identity id = record {
  subject = id.subject;
  email = id.email;
  auth_type = if is_empty id.auth_type then text "portal" else id.auth_type;
  key_name = id.api_key_id;
  scopes = [];
  claims = id.claims;
}

unfoldable pub portal_identity_to_inbound : Option PortalIdentity → Option Identity
unfolding inbound_identity
portal_identity_to_inbound none = none
portal_identity_to_inbound (some id) = some (inbound_identity id)

abbrev pub values_of : Option (List Text) → List Text
values_of none = []
values_of (some vs) = vs

-- url.Values.Add
unfoldable pub add_value : Text → Text → Table (List Text) → Table (List Text)
unfolding lookup insert
add_value k v t = insert k (values_of (lookup k t) ++ v ∷ []) t

unfoldable pub add_values : Text → List Text → Table (List Text) → Table (List Text)
unfolding add_value
add_values k [] t = t
add_values k (v ∷ vs) t = add_values k vs (add_value k v t)

-- http.Header.Add, for each value
unfoldable pub header_add : Text → List Text → Table (List Text) → Table (List Text)
unfolding add_values canonical_key
header_add k vs h = add_values (canonical_key k) vs h

-- http.Header.Set
unfoldable pub header_set : Text → Text → Table (List Text) → Table (List Text)
unfolding insert canonical_key
header_set k v h = insert (canonical_key k) (v ∷ []) h

-- The first bytes of a body.
abbrev pub cut_body : Text → Text
cut_body body = if ltb max_body_bytes (length body) then take max_body_bytes body else body

-- A status and a message, where a handler refuses.
abbrev pub Refusal : Type 0
Refusal = ℕ × Text

abbrev pub answer {ℓ} : {A : Type 0} {B : Type ℓ} → (A → Response B) → Result Refusal A → Response B
answer go (ok a) = go a
answer go (err (status, message)) = write_error status message
