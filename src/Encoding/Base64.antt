-- ===== src/Encoding/Base64.antt =====
-- base64.RawURLEncoding: no padding, the URL alphabet, and a decoder that skips line breaks and
-- does not look at trailing bits.
use herdr_telegram_agents.Common.{
  ℕ, ◌+◌, ◌-◌, ◌*◌, ◌/◌, ◌%◌, ◌<◌, ◌≡◌, refl, Bool, true, false, ◌&&◌, ◌||◌, not, Option, none,
  some, [], ◌∷◌, arith, nat_eq, ◌==◌, ltb, leb, if◌then◌else◌, elem, select,
}
use herdr_telegram_agents.Common.Text.{Text, IsBytes}

infixl 5 ◌>>=◌
abbrev ◌>>=◌ {ℓ κ} : {A : Type ℓ} {B : Type κ} → Option A → (A → Option B) → Option B
none >>= f = none
some a >>= f = f a

-- The character of a 6-bit value.
encode_digit : ℕ → ℕ
encode_digit v =
    if ltb v 26
    then v + b'A'
    else if ltb v 52
    then v - 26 + b'a'
    else if ltb v 62
    then v - 52 + b'0'
    else if v == 62
    then b'-'
    else b'_'

decode_digit : ℕ → Option ℕ
decode_digit c =
    if leb b'A' c && leb c b'Z'
    then some (c - b'A')
    else if leb b'a' c && leb c b'z'
    then some (c - b'a' + 26)
    else if leb b'0' c && leb c b'9'
    then some (c - b'0' + 52)
    else if c == b'-'
    then some 62
    else if c == b'_'
    then some 63
    else none

unfoldable pub encode : Text → Text
unfolding encode_digit
encode [] = []
encode (x ∷ []) = encode_digit (x / 4) ∷ encode_digit (x % 4 * 16) ∷ []
encode (x ∷ y ∷ []) =
    encode_digit (x / 4) ∷ encode_digit (x % 4 * 16 + y / 16) ∷ encode_digit (y % 16 * 4) ∷ []
encode (x ∷ y ∷ z ∷ s) =
    encode_digit (x / 4)
    ∷ encode_digit (x % 4 * 16 + y / 16)
    ∷ encode_digit (y % 16 * 4 + z / 64)
    ∷ encode_digit (z % 64)
    ∷ encode s

decode_groups : Text → Option Text
unfolding decode_digit
decode_groups [] = some []
decode_groups (a ∷ []) = none
decode_groups (a ∷ b ∷ []) = do u ← decode_digit a; v ← decode_digit b; some ((u * 4 + v / 16) ∷ [])
decode_groups (a ∷ b ∷ c ∷ []) = do
  u ← decode_digit a
  v ← decode_digit b
  w ← decode_digit c
  some ((u * 4 + v / 16) ∷ (v % 16 * 16 + w / 4) ∷ [])
decode_groups (a ∷ b ∷ c ∷ d ∷ s) =
    let rest = decode_groups s in
    do
      u ← decode_digit a
      v ← decode_digit b
      w ← decode_digit c
      x ← decode_digit d
      r ← rest
      some ((u * 4 + v / 16) ∷ (v % 16 * 16 + w / 4) ∷ (w % 4 * 64 + x) ∷ r)

abbrev is_line_break : ℕ → Bool
is_line_break c = c == 10 || c == 13

unfoldable pub decode : Text → Option Text
unfolding decode_groups
decode s = decode_groups (select (λ c. not (is_line_break c)) s)

decode_digit-encode_digit : (v : ℕ) → v < 64 → decode_digit (encode_digit v) ≡ some v
unfolding decode_digit encode_digit
decode_digit-encode_digit v h = ground arith

encode_digit_plain :
    (v : ℕ)
    → v < 64
    → (encode_digit v == 10 ≡ false)
      × (encode_digit v == 13 ≡ false)
      × (encode_digit v == b':' ≡ false)
unfolding encode_digit
encode_digit_plain v h = ground arith

abbrev all_plain : Text → Bool
all_plain [] = true
all_plain (c ∷ s) = not (c == b':') && not (is_line_break c) && all_plain s

-- What `encode` writes has no line break and no colon.
encode_plain : (s : Text) → IsBytes s → all_plain (encode s) ≡ true
unfolding encode
encode_plain [] h = refl
encode_plain (x ∷ []) h =
    ground (
      arith,
      encode_digit_plain (x / 4) (omega arith),
      encode_digit_plain (x % 4 * 16) (omega arith),
    )
encode_plain (x ∷ y ∷ []) h = ground (
  arith,
  encode_digit_plain (x / 4) (omega arith),
  encode_digit_plain (x % 4 * 16 + y / 16) (omega arith),
  encode_digit_plain (y % 16 * 4) (omega arith),
)
encode_plain (x ∷ y ∷ z ∷ s) h = ground (
  arith,
  encode_digit_plain (x / 4) (omega arith),
  encode_digit_plain (x % 4 * 16 + y / 16) (omega arith),
  encode_digit_plain (y % 16 * 4 + z / 64) (omega arith),
  encode_digit_plain (z % 64) (omega arith),
  encode_plain s h.1.1.1,
)

select_plain : (s : Text) → all_plain s ≡ true → select (λ c. not (is_line_break c)) s ≡ s
select_plain [] h = refl
select_plain (c ∷ s) h = ground (arith, select_plain s)

no_colon : (s : Text) → all_plain s ≡ true → elem b':' s ≡ false
no_colon [] h = refl
no_colon (c ∷ s) h = ground (arith, no_colon s)

decode_groups-encode : (s : Text) → IsBytes s → decode_groups (encode s) ≡ some s
unfolding encode decode_groups
decode_groups-encode [] h = refl
decode_groups-encode (x ∷ []) h =
    rw
      (
        decode_digit-encode_digit (x / 4) (omega arith),
        decode_digit-encode_digit (x % 4 * 16) (omega arith),
      )
      (ground arith)
decode_groups-encode (x ∷ y ∷ []) h =
    rw
      (
        decode_digit-encode_digit (x / 4) (omega arith),
        decode_digit-encode_digit (x % 4 * 16 + y / 16) (omega arith),
        decode_digit-encode_digit (y % 16 * 4) (omega arith),
      )
      (ground arith)
decode_groups-encode (x ∷ y ∷ z ∷ s) h =
    rw
      (
        decode_digit-encode_digit (x / 4) (omega arith),
        decode_digit-encode_digit (x % 4 * 16 + y / 16) (omega arith),
        decode_digit-encode_digit (y % 16 * 4 + z / 64) (omega arith),
        decode_digit-encode_digit (z % 64) (omega arith),
        decode_groups-encode s h.1.1.1,
      )
      (ground arith)

pub colon-encode : (s : Text) → IsBytes s → elem b':' (encode s) ≡ false
colon-encode s h = no_colon (encode s) (encode_plain s h)

pub decode-encode : (s : Text) → IsBytes s → decode (encode s) ≡ some s
unfolding decode
decode-encode s h = rw (select_plain (encode s) (encode_plain s h)) (decode_groups-encode s h)
