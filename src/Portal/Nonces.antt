-- ===== src/Portal/Nonces.antt =====
-- The ledger of the nonces that callbacks have used (consumeNonce of pkg/httpsrv/browserauth.go).
use api_test.Prelude.{ℕ, ◌-◌, Bool, true, false, [], ◌∷◌, Option, none, some, ltb, if◌then◌else◌}
use api_test.Std.Text.{Text}
use api_test.Std.Http.{Table, lookup, insert}

-- The ledger of used nonces, each with the time of its use; ten minutes in nanoseconds.
abbrev pub nonce_ttl : ℕ
nonce_ttl = 600000000000

unfoldable pub evict : ℕ → Table ℕ → Table ℕ
evict now [] = []
evict now ((k, t) ∷ ledger) =
    let rest = evict now ledger in if ltb nonce_ttl (now - t) then rest else (k, t) ∷ rest

unfoldable pub record_nonce : Text → ℕ → Table ℕ → Option ℕ → Bool × Table ℕ
unfolding insert
record_nonce nonce now ledger (some _) = (false, ledger)
record_nonce nonce now ledger none = (true, insert nonce now ledger)

unfoldable pub consume_nonce : ℕ → Text → Table ℕ → Bool × Table ℕ
unfolding evict record_nonce
consume_nonce now [] ledger = (false, ledger)
consume_nonce now (c ∷ nonce) ledger =
    record_nonce (c ∷ nonce) now (evict now ledger) (lookup (c ∷ nonce) (evict now ledger))
