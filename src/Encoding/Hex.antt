-- ===== src/Encoding/Hex.antt =====
-- hex.EncodeToString and hex.DecodeString: two digits a byte, lower case out, both cases in.
use herdr_telegram_agents.Common.{
  ℕ, zero, suc, ◌+◌, ◌-◌, ◌*◌, ◌/◌, ◌%◌, ◌<◌, ◌≡◌, refl, Bool, true, ◌&&◌, ◌||◌, Option, none, some,
  [], ◌∷◌, arith, ltb, leb, if◌then◌else◌, all, length,
}
use herdr_telegram_agents.Common.Text.{Text}

infixl 5 ◌>>=◌
abbrev ◌>>=◌ {ℓ κ} : {A : Type ℓ} {B : Type κ} → Option A → (A → Option B) → Option B
none >>= f = none
some a >>= f = f a

encode_digit : ℕ → ℕ
encode_digit v = if ltb v 10 then v + b'0' else v - 10 + b'a'

decode_digit : ℕ → Option ℕ
decode_digit c =
    if leb b'0' c && leb c b'9'
    then some (c - b'0')
    else if leb b'a' c && leb c b'f'
    then some (c - b'a' + 10)
    else if leb b'A' c && leb c b'F'
    then some (c - b'A' + 10)
    else none

unfoldable pub encode : Text → Text
unfolding encode_digit
encode [] = []
encode (x ∷ s) = encode_digit (x / 16) ∷ encode_digit (x % 16) ∷ encode s

unfoldable pub decode : Text → Option Text
unfolding decode_digit
decode [] = some []
decode (a ∷ []) = none
decode (a ∷ b ∷ s) =
    let rest = decode s in
    do u ← decode_digit a; v ← decode_digit b; r ← rest; some ((u * 16 + v) ∷ r)

pub decode-nil : decode [] ≡ some []
unfolding decode
decode-nil = refl

abbrev pub is_lower_digit : ℕ → Bool
is_lower_digit c = (leb b'0' c && leb c b'9') || (leb b'a' c && leb c b'f')

-- A text of lower-case digits, two for each byte.
abbrev pub IsHex : ℕ → Text → Type 0
IsHex n s = (all is_lower_digit s ≡ true) × (length s ≡ n * 2)

value : ℕ → ℕ
value c = if leb c b'9' then c - b'0' else c - b'a' + 10

decode_lower :
    (c : ℕ)
    → is_lower_digit c ≡ true
    → (decode_digit c ≡ some (value c)) × (value c < 16) × (encode_digit (value c) ≡ c)
unfolding decode_digit value encode_digit
decode_lower c h = ground arith

-- Lower-case digits decode, and are what the decoded bytes are written with.
pub decode-IsHex :
    (n : ℕ) (s : Text)
    → IsHex n s
    → (r : Text) × (decode s ≡ some r) × (encode r ≡ s) × (length r ≡ n)
unfolding decode encode
decode-IsHex n [] h = ([], refl, refl, omega arith)
decode-IsHex n (a ∷ []) h = absurd (omega arith)
decode-IsHex zero (a ∷ b ∷ s) h = absurd (omega arith)
decode-IsHex (suc n) (a ∷ b ∷ s) h =
    let (r, found, back, size) = decode-IsHex n s (ground arith, ground arith) in
    let da = decode_lower a (ground arith) in
    let db = decode_lower b (ground arith) in
    ((value a * 16 + value b) ∷ r, rw (da.0, db.0, found), ground (arith, da, db), omega arith)
