-- ===== src/Inbound/Keys/Lookup.antt =====
-- What a key lookup finds.
use api_test.Prelude.{
  ◌≡◌, refl, ◌∙◌, true, false, List, [], ◌∷◌, ◌++◌, Option, none, some, arith, All, if◌then◌else◌,
}
use api_test.Prelude.Result.{ok, err}
use api_test.Std.Text.{Text, str_eq, str_eq_refl, is_empty, trim_space}
use api_test.Std.Http.{Request, header_get}
use api_test.Inbound.Types.{AuthError, invalid_credential, is_invalid_credential, KeyStore}
use api_test.Inbound.Keys.{FileKey, last_match, file_store, first_hit, combine, api_key, key_header}

-- No key of the list is the candidate.
abbrev pub NoKey : Text → List FileKey → Type 0
NoKey candidate = All (λ k. str_eq candidate k.key ≡ false)

last_match_none :
    (candidate matched : Text) (keys : List FileKey)
    → NoKey candidate keys
    → last_match candidate matched keys ≡ matched
unfolding last_match
last_match_none candidate matched [] h = refl
last_match_none candidate matched (k ∷ keys) (h, hs) =
    rw h (last_match_none candidate matched keys hs)

last_match_some :
    (candidate matched : Text) (before after : List FileKey) (k : FileKey)
    → k.key ≡ candidate
    → NoKey candidate after
    → last_match candidate matched (before ++ k ∷ after) ≡ k.name
unfolding last_match
last_match_some candidate matched [] after k e h =
    rw e (rw (str_eq_refl candidate) (last_match_none candidate k.name after h))
last_match_some candidate matched (j ∷ before) after k e h =
    last_match_some candidate (if str_eq candidate j.key then j.name else matched) before after k e
      h

-- Of the entries that hold the candidate the last gives its name; an empty candidate and an empty
-- name are invalid credentials.
pub file_store_last :
    (before after : List FileKey) (k : FileKey) (candidate : Text)
    → k.key ≡ candidate
    → NoKey candidate after
    → file_store (before ++ k ∷ after) candidate ≡ (
        if is_empty candidate
        then err invalid_credential
        else if is_empty k.name
        then err invalid_credential
        else ok k.name)
unfolding file_store
file_store_last before after k candidate same last =
    rw (last_match_some candidate [] before after k same last)

-- Without such an entry the credential is invalid.
pub file_store_none :
    (keys : List FileKey) (candidate : Text)
    → NoKey candidate keys
    → file_store keys candidate ≡ err invalid_credential
unfolding file_store
file_store_none keys candidate absent = ground (arith, last_match_none candidate [] keys absent)

-- Every store fails; every store fails with ErrInvalidCredential.
abbrev pub Fails : Text → KeyStore → Type 0
Fails p s = (e : AuthError) × (s p ≡ err e)

abbrev pub Invalid : Text → KeyStore → Type 0
Invalid p s = (e : AuthError) × (s p ≡ err e) × (is_invalid_credential e ≡ true)

first_hit-Invalid :
    (p : Text) (last : Option AuthError) (stores : List KeyStore)
    → All (Invalid p) stores
    → first_hit p last stores ≡ first_hit p last []
unfolding first_hit
first_hit-Invalid p last [] h = refl
first_hit-Invalid p none (s ∷ stores) ((e, failed, invalid), h) =
    rw (failed, first_hit) (rw invalid (first_hit-Invalid p none stores h))
first_hit-Invalid p (some l) (s ∷ stores) ((e, failed, invalid), h) =
    rw (failed, first_hit) (rw invalid (first_hit-Invalid p (some l) stores h))

-- What the stores in front have left behind does not matter to a store that answers.
first_hit_skip :
    (p : Text) (last : Option AuthError) (before after : List KeyStore)
    → All (Fails p) before
    → (last' : Option AuthError) × (first_hit p last (before ++ after) ≡ first_hit p last' after)
unfolding first_hit
first_hit_skip p last [] after h = (last, refl)
first_hit_skip p none (s ∷ before) after ((e, failed), h) =
    let (last', same) =
      first_hit_skip p (if is_invalid_credential e then none else some e) before after h in
    (last', rw (failed, first_hit) same)
first_hit_skip p (some l) (s ∷ before) after ((e, failed), h) =
    let (last', same) =
      first_hit_skip p (if is_invalid_credential e then some l else some e) before after h in
    (last', rw (failed, first_hit) same)

first_hit_found :
    (p name : Text) (last : Option AuthError) (s : KeyStore) (after : List KeyStore)
    → s p ≡ ok name
    → first_hit p last (s ∷ after) ≡ ok name
unfolding first_hit
first_hit_found p name none s after h = rw (h, first_hit)
first_hit_found p name (some l) s after h = rw (h, first_hit)

first_hit_error :
    (p : Text) (last : Option AuthError) (s : KeyStore) (after : List KeyStore) (e : AuthError)
    → s p ≡ err e
    → is_invalid_credential e ≡ false
    → All (Invalid p) after
    → first_hit p last (s ∷ after) ≡ err e
unfolding first_hit
first_hit_error p none s after e h k invalid =
    rw (h, first_hit) (rw k (first_hit-Invalid p (some e) after invalid))
first_hit_error p (some l) s after e h k invalid =
    rw (h, first_hit) (rw k (first_hit-Invalid p (some e) after invalid))

-- Behind stores that fail, in whatever way, the first store that knows the key answers.
pub combine_found :
    (p name : Text) (before after : List KeyStore) (s : KeyStore)
    → All (Fails p) before
    → s p ≡ ok name
    → combine (before ++ s ∷ after) p ≡ ok name
unfolding combine first_hit
combine_found p name before after s fails found =
    let (last, same) = first_hit_skip p none before (s ∷ after) fails in
    same ∙ first_hit_found p name last s after found

-- If no store knows the key, the last error that is no ErrInvalidCredential is returned.
pub combine_error :
    (p : Text) (before after : List KeyStore) (s : KeyStore) (e : AuthError)
    → All (Fails p) before
    → s p ≡ err e
    → is_invalid_credential e ≡ false
    → All (Invalid p) after
    → combine (before ++ s ∷ after) p ≡ err e
unfolding combine first_hit
combine_error p before after s e fails failed serious invalid =
    let (last, same) = first_hit_skip p none before (s ∷ after) fails in
    same ∙ first_hit_error p last s after e failed serious invalid

-- If every store finds the key invalid, so does the combination.
pub combine-Invalid :
    (p : Text) (stores : List KeyStore)
    → All (Invalid p) stores
    → combine stores p ≡ err invalid_credential
unfolding combine first_hit
combine-Invalid p stores invalid = first_hit-Invalid p none stores invalid

-- A key in the header decides alone: no query parameter changes the result.
pub api_key_header_wins :
    (store : KeyStore) (header_name query_param : Text) (r q : Request)
    → is_empty (trim_space (header_get r.header (key_header header_name))) ≡ false
    → q.header ≡ r.header
    → api_key store header_name query_param q ≡ api_key store header_name query_param r
unfolding api_key
api_key_header_wins store header_name query_param r q h same = rw (same, h)
