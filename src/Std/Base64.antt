-- ===== src/Std/Base64.antt =====
-- base64.RawURLEncoding (no padding, not strict) and hex.EncodeToString.
use api_test.Prelude.{
  ℕ, ◌+◌, ◌-◌, ◌*◌, ◌/◌, ◌%◌, ◌<◌, ◌≡◌, refl, ap, ◌&&◌, ◌||◌, ◌≢◌, ◌∙◌, [], ◌∷◌, Option, none, some,
  arith, ltb, leb, ◌==◌, if◌then◌else◌, All, length,
}
use api_test.Std.Text.{Text, text}

-- The i-th character of the alphabet A-Z a-z 0-9 - _
symbol : ℕ → ℕ
symbol i =
    if ltb i 26
    then 65 + i
    else if ltb i 52
    then 71 + i
    else if ltb i 62
    then i - 4
    else if i == 62
    then b'-'
    else b'_'

-- Its place in the alphabet.
place : ℕ → Option ℕ
place c =
    if leb 65 c && leb c 90
    then some (c - 65)
    else if leb 97 c && leb c 122
    then some (c - 71)
    else if leb 48 c && leb c 57
    then some (c + 4)
    else if c == b'-'
    then some 62
    else if c == b'_'
    then some 63
    else none

-- EncodeToString
unfoldable pub encode : Text → Text
unfolding symbol
encode [] = []
encode (a ∷ []) = symbol (a / 4) ∷ symbol (a % 4 * 16) ∷ []
encode (a ∷ b ∷ []) = symbol (a / 4) ∷ symbol (a % 4 * 16 + b / 16) ∷ symbol (b % 16 * 4) ∷ []
encode (a ∷ b ∷ c ∷ s) =
    symbol (a / 4)
    ∷ symbol (a % 4 * 16 + b / 16)
    ∷ symbol (b % 16 * 4 + c / 64)
    ∷ symbol (c % 64)
    ∷ encode s

infixl 5 ◌>>=◌
abbrev ◌>>=◌ {ℓ κ} : {A : Type ℓ} {B : Type κ} → Option A → (A → Option B) → Option B
none >>= k = none
some a >>= k = k a

-- Groups of four symbols, and a last group of two or three.
quanta : Text → Option Text
unfolding place
quanta [] = some []
quanta (p ∷ []) = none
quanta (p ∷ q ∷ []) = do i ← place p; j ← place q; some ((i * 4 + j / 16) ∷ [])
quanta (p ∷ q ∷ r ∷ []) = do
  i ← place p
  j ← place q
  k ← place r
  some ((i * 4 + j / 16) ∷ (j % 16 * 16 + k / 4) ∷ [])
quanta (p ∷ q ∷ r ∷ t ∷ s) = do
  i ← place p
  j ← place q
  k ← place r
  l ← place t
  rest ← quanta s
  some ((i * 4 + j / 16) ∷ (j % 16 * 16 + k / 4) ∷ (k % 4 * 64 + l) ∷ rest)

without_line_ends : Text → Text
without_line_ends [] = []
without_line_ends (c ∷ s) =
    let rest = without_line_ends s in if c == 13 || c == 10 then rest else c ∷ rest

-- DecodeString; `none` is any of its errors.
unfoldable pub decode : Text → Option Text
unfolding quanta without_line_ends
decode s = quanta (without_line_ends s)

abbrev pub IsSymbol : ℕ → Type 0
IsSymbol c = (c ≢ 13) × (c ≢ 10) × (c ≢ 46)

place-symbol : (i : ℕ) → i < 64 → place (symbol i) ≡ some i
unfolding place symbol
place-symbol i h = ground arith

symbol-IsSymbol : (i : ℕ) → i < 64 → IsSymbol (symbol i)
unfolding symbol
symbol-IsSymbol i h = ground arith

without_line_ends_of : (s : Text) → All IsSymbol s → without_line_ends s ≡ s
unfolding without_line_ends
without_line_ends_of [] h = refl
without_line_ends_of (c ∷ s) h = ground (arith, without_line_ends_of s h.1)

abbrev pub IsBytes : Text → Type 0
IsBytes = All (λ c. c < 256)

pub encode-IsSymbol : (s : Text) → IsBytes s → All IsSymbol (encode s)
unfolding encode
encode-IsSymbol [] h = tt
encode-IsSymbol (a ∷ []) (ha, _) =
    (symbol-IsSymbol (a / 4) (omega arith), (symbol-IsSymbol (a % 4 * 16) (omega arith), tt))
encode-IsSymbol (a ∷ b ∷ []) (ha, (hb, _)) = (
  symbol-IsSymbol (a / 4) (omega arith),
  (
    symbol-IsSymbol (a % 4 * 16 + b / 16) (omega arith),
    (symbol-IsSymbol (b % 16 * 4) (omega arith), tt),
  ),
)
encode-IsSymbol (a ∷ b ∷ c ∷ s) (ha, (hb, (hc, hs))) = (
  symbol-IsSymbol (a / 4) (omega arith),
  (
    symbol-IsSymbol (a % 4 * 16 + b / 16) (omega arith),
    (
      symbol-IsSymbol (b % 16 * 4 + c / 64) (omega arith),
      (symbol-IsSymbol (c % 64) (omega arith), encode-IsSymbol s hs),
    ),
  ),
)

-- The groups of four symbols give back the groups of three bytes.
quanta-encode : (s : Text) → IsBytes s → quanta (encode s) ≡ some s
unfolding quanta encode
quanta-encode [] h = refl
quanta-encode (a ∷ []) (ha, _) =
    rw (place-symbol (a / 4) (omega arith), place-symbol (a % 4 * 16) (omega arith))
      (ap some (ap (λ x. x ∷ []) (omega arith)))
quanta-encode (a ∷ b ∷ []) (ha, (hb, _)) =
    rw
      (
        place-symbol (a / 4) (omega arith),
        place-symbol (a % 4 * 16 + b / 16) (omega arith),
        place-symbol (b % 16 * 4) (omega arith),
      )
      (ground arith)
quanta-encode (a ∷ b ∷ c ∷ s) (ha, (hb, (hc, hs))) =
    rw
      (
        place-symbol (a / 4) (omega arith),
        place-symbol (a % 4 * 16 + b / 16) (omega arith),
        place-symbol (b % 16 * 4 + c / 64) (omega arith),
        place-symbol (c % 64) (omega arith),
        quanta-encode s hs,
      )
      (ground arith)

-- Decoding an encoded text of bytes gives the text.
pub decode-encode : (s : Text) → IsBytes s → decode (encode s) ≡ some s
unfolding decode
decode-encode s h =
    ap quanta (without_line_ends_of (encode s) (encode-IsSymbol s h)) ∙ quanta-encode s h

-- Only the empty text encodes to the empty text.
pub encode-ne-nil : (c : ℕ) (s : Text) → encode (c ∷ s) ≢ []
unfolding encode
encode-ne-nil a [] h = cc
encode-ne-nil a (b ∷ []) h = cc
encode-ne-nil a (b ∷ c ∷ s) h = cc

hex_digit : ℕ → ℕ
hex_digit d = if ltb d 10 then 48 + d else 87 + d

-- hex.EncodeToString
unfoldable pub hex : Text → Text
unfolding hex_digit
hex [] = []
hex (b ∷ s) = hex_digit (b / 16) ∷ hex_digit (b % 16) ∷ hex s

encode_test : encode (text "10") ≡ text "MTA"
unfolding encode
encode_test = refl

decode_test : (decode (text "MTA") ≡ some (text "10")) × (decode (text "M=") ≡ none)
unfolding decode
decode_test = (refl, refl)

pub length-hex : (s : Text) → length (hex s) ≡ 2 * length s
unfolding hex
length-hex [] = omega arith
length-hex (c ∷ s) = omega (arith, length-hex s)
