-- ===== src/Inbound/Chain.antt =====
-- The ordered list of authenticators (chain.go).
pub mod Decides
use api_test.Prelude.{Bool, true, false, List, [], ◌∷◌, Option, none, some, if◌then◌else◌}
use api_test.Prelude.Result.{Result, ok, err}
use api_test.Std.Http.{Request}
use api_test.Inbound.Types.{
  Identity, AuthError, no_credential, is_no_credential, anonymous, Authenticator,
}

pub record Chain : Type 0 where
  pub authenticators : List Authenticator
  pub allow_anonymous : Bool

-- The authenticators that are not nil.
present : List (Option Authenticator) → List Authenticator
present [] = []
present (none ∷ auths) = present auths
present (some a ∷ auths) = a ∷ present auths

unfoldable pub new_chain : Bool → List (Option Authenticator) → Chain
unfolding present
new_chain allow_anonymous auths = record {
  authenticators = present auths;
  allow_anonymous = allow_anonymous;
}

walk : Bool → Request → List Authenticator → Result AuthError Identity
walk allow r [] = if allow then ok anonymous else err no_credential
walk allow r (a ∷ auths) = elim (a r) [
  | ok id ↦ ok id
  | err e ↦ if is_no_credential e then walk allow r auths else err e
]

-- Chain.Authenticate
unfoldable pub authenticate : Chain → Request → Result AuthError Identity
unfolding walk
authenticate c r = walk c.allow_anonymous r c.authenticators
