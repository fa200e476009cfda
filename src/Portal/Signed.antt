-- ===== src/Portal/Signed.antt =====
-- Cookies read back, and what a cookie has to carry to be accepted.
use api_test.Prelude.{
  ℕ, ◌+◌, ◌≡◌, refl, ap, sym, ◌∙◌, [], ◌∷◌, ◌++◌, Option, none, some, ltb, if◌then◌else◌, All,
  arith, inl, inr, Option-cases,
}
use api_test.Prelude.Result.{ok, >>=-eq-ok, ensure-eq-ok}
use api_test.Std.Text.{Text, text, str_eq, str_eq_refl, eq_of_str_eq}
use api_test.Std.Base64.{encode, decode, decode-encode, IsBytes, IsSymbol, encode-IsSymbol}
use api_test.Portal.Session.{
  SessionPayload, Crypto, SessionStore, Cookie, unset, cut_dot, required, encode_payload,
  decode_payload, issue, read, unless_expired,
}

-- The first dot parts what has none from the rest.
cut_dot_first : (a b : Text) → All IsSymbol a → cut_dot (a ++ b'.' ∷ b) ≡ some (a, b)
unfolding cut_dot
cut_dot_first [] b h = refl
cut_dot_first (c ∷ a) b h = rw (cut_dot_first a b h.1) (ground arith)

cut_dot_join : (v a b : Text) → cut_dot v ≡ some (a, b) → v ≡ a ++ b'.' ∷ b
unfolding cut_dot
cut_dot_join [] a b h = cc
cut_dot_join (c ∷ v) a b h = elim (Option-cases (cut_dot v)) [
  | inl e ↦ grind (arith, e)
  | inr (parts, e) ↦ grind (arith, e, cut_dot_join v parts.0 parts.1 e)
]

required-eq-ok {ℓ} :
    {A : Type ℓ} (message : Text) (o : Option A) {a : A} → required message o ≡ ok a → o ≡ some a
unfolding required
required-eq-ok message none h = cc
required-eq-ok message (some a) h = cc

module _ {I : Type 0} (crypto : Crypto I) where
  pub decode_payload-encode_payload :
      (s : SessionStore) (pl : SessionPayload I) (body : Text)
      → crypto.marshal pl ≡ some body
      → crypto.unmarshal body ≡ some pl
      → IsBytes body
      → IsBytes (crypto.hmac s.secret (encode body))
      → (value : Text) × (encode_payload crypto s pl ≡ ok value)
        × (decode_payload crypto s value ≡ ok pl)
  unfolding encode_payload decode_payload required
  decode_payload-encode_payload s pl body marshals unmarshals bytes mac =
      let sig = encode (crypto.hmac s.secret (encode body)) in
      (
        encode body ++ b'.' ∷ sig,
        rw marshals refl,
        rw
            (
              cut_dot_first (encode body) sig (encode-IsSymbol body bytes),
              decode-encode (crypto.hmac s.secret (encode body)) mac,
              str_eq_refl (crypto.hmac s.secret (encode body)),
              decode-encode body bytes,
              unmarshals,
            )
            refl,
      )

  -- A cookie that is accepted consists of two parts around a dot, the second decodes to the MAC of
  -- the first under the store's secret, and the payload is what the first decodes to.
  pub decode_payload_signed :
      (s : SessionStore) (v : Text) (pl : SessionPayload I)
      → ((message : Text) → IsBytes (crypto.hmac s.secret message))
      → decode_payload crypto s v ≡ ok pl
      → (signed : Text) × (sig : Text) × (body : Text) × (v ≡ signed ++ b'.' ∷ sig)
        × (decode sig ≡ some (crypto.hmac s.secret signed))
        × (decode signed ≡ some body)
        × (crypto.unmarshal body ≡ some pl)
  unfolding decode_payload required
  decode_payload_signed s v pl mac h =
      let (parts, cut, h1) = >>=-eq-ok (required (text "malformed cookie") (cut_dot v)) _ h in
      let (got, decoded, h2) = >>=-eq-ok (required (text "decode sig") (decode parts.1)) _ h1 in
      let mac_text = crypto.hmac s.secret parts.0 in
      let (want, wanted, h3) =
        >>=-eq-ok (required (text "decode want") (decode (encode mac_text))) _ h2 in
      let (same, h4) = ensure-eq-ok (str_eq got want) (text "bad signature") _ h3 in
      let (body, signed, unmarshals) =
        >>=-eq-ok (required (text "decode body") (decode parts.0)) _ h4 in
      (
        parts.0,
        parts.1,
        body,
        cut_dot_join v parts.0 parts.1 (required-eq-ok (text "malformed cookie") (cut_dot v) cut),
        required-eq-ok (text "decode sig") (decode parts.1) decoded
            ∙ ap some (eq_of_str_eq got want same)
            ∙ sym (required-eq-ok (text "decode want") (decode (encode mac_text)) wanted)
            ∙ decode-encode mac_text (mac parts.0),
        required-eq-ok (text "decode body") (decode parts.0) signed,
        required-eq-ok (text "unmarshal") (crypto.unmarshal body) unmarshals,
      )

  read_decoded :
      (s : SessionStore) (later : ℕ) (v : Text) (pl : SessionPayload I)
      → decode_payload crypto s v ≡ ok pl
      → read crypto s later (some v) ≡ unless_expired later (ok pl)
  unfolding read decode_payload required cut_dot
  read_decoded s later [] pl h = cc
  read_decoded s later (c ∷ v) pl h = ap (unless_expired later) h

  -- A session that is issued is read back as the same identity until its age is over, and as no
  -- identity afterwards, if the payload's JSON form is read back as the payload.
  pub read-issue :
      (s : SessionStore) (now later : ℕ) (id : I) (body : Text)
      → crypto.marshal (record { identity = some id; expires = now + s.max_age }) ≡ some body
      → crypto.unmarshal body ≡ some (record { identity = some id; expires = now + s.max_age })
      → IsBytes body
      → IsBytes (crypto.hmac s.secret (encode body))
      → (cookie : Cookie) × (issue crypto s now id ≡ ok cookie)
        × (read crypto s later (some cookie.value)
            ≡ (if ltb (now + s.max_age) later then none else some id))
  unfolding issue
  read-issue s now later id body marshals unmarshals bytes mac =
      let pl : SessionPayload I = record { identity = some id; expires = now + s.max_age } in
      let (value, encoded, decoded) =
        decode_payload-encode_payload s pl body marshals unmarshals bytes mac in
      let cookie : Cookie = record {
        name = s.cookie_name;
        value = value;
        path = text "/";
        expires = some (now + s.max_age);
        max_age = unset;
        secure = s.secure;
      } in
      (cookie, rw encoded refl, unfold unless_expired in read_decoded s later value pl decoded)
