-- ===== src/Encoding/Utf8.antt =====
-- `[]rune(s)` and `string(runes)`: UTF-8 with U+FFFD, one byte long, for what is malformed.
use herdr_telegram_agents.Common.{
  ℕ, zero, suc, ◌+◌, ◌-◌, ◌*◌, ◌/◌, ◌%◌, ◌≤◌, ◌<◌, ◌≡◌, refl, Bool, true, ◌&&◌, ◌||◌, List, [], ◌∷◌,
  ◌++◌, String, arith, nat_eq, ◌==◌, ltb, leb, if◌then◌else◌, All, Bool-cases, inl, inr, ◌∙◌, ap,
  take,
}
use herdr_telegram_agents.Common.Text.{Text, codes}

abbrev between : ℕ → ℕ → ℕ → Bool
between lo hi b = leb lo b && leb b hi

-- A continuation byte.
abbrev is_tail : ℕ → Bool
is_tail b = between 0x80 0xbf b

-- The byte at a position, 0 (which continues nothing) behind the end.
abbrev at : Text → ℕ → ℕ
at [] i = 0
at (b ∷ s) zero = b
at (b ∷ s) (suc i) = at s i

abbrev rune_error : ℕ
rune_error = 0xfffd

-- utf8.DecodeRuneInString of `b ∷ s`: the rune and its size.
pub decode_rune : ℕ → Text → ℕ × ℕ
decode_rune b s =
    if ltb b 0x80
    then (b, 1)
    else if between 0xc2 0xdf b && is_tail (at s 0)
    then (b % 32 * 64 + at s 0 % 64, 2)
    else if between 0xe0 0xef b
        && between (if b == 0xe0 then 0xa0 else 0x80) (if b == 0xed then 0x9f else 0xbf) (at s 0)
        && is_tail (at s 1)
    then (b % 16 * 4096 + at s 0 % 64 * 64 + at s 1 % 64, 3)
    else if between 0xf0 0xf4 b
        && between (if b == 0xf0 then 0x90 else 0x80) (if b == 0xf4 then 0x8f else 0xbf) (at s 0)
        && is_tail (at s 1)
        && is_tail (at s 2)
    then (b % 8 * 262144 + at s 0 % 64 * 4096 + at s 1 % 64 * 64 + at s 2 % 64, 4)
    else (rune_error, 1)

-- `skip` bytes are still of the rune before.
runes_from : ℕ → Text → List ℕ
runes_from skip [] = []
runes_from zero (b ∷ s) = let (r, size) = decode_rune b s in r ∷ runes_from (size - 1) s
runes_from (suc skip) (b ∷ s) = runes_from skip s

unfoldable pub runes : Text → List ℕ
unfolding runes_from decode_rune
runes s = runes_from 0 s

-- The bytes of each rune: what `strings.TrimFunc` and `strings.Fields` step over.
unfoldable pub chunks_from : ℕ → Text → List Text
chunks_from skip [] = []
chunks_from zero (b ∷ s) =
    let (r, size) = decode_rune b s in (b ∷ take (size - 1) s) ∷ chunks_from (size - 1) s
chunks_from (suc skip) (b ∷ s) = chunks_from skip s

unfoldable pub chunks : Text → List Text
unfolding chunks_from
chunks s = chunks_from 0 s

abbrev is_scalar : ℕ → Bool
is_scalar r = ltb r 0xd800 || (leb 0xe000 r && ltb r 0x110000)

encode_rune : ℕ → Text
encode_rune r =
    if ltb r 0x80
    then r ∷ []
    else if ltb r 0x800
    then (0xc0 + r / 64) ∷ (0x80 + r % 64) ∷ []
    else if ltb r 0x10000
    then (0xe0 + r / 4096) ∷ (0x80 + r / 64 % 64) ∷ (0x80 + r % 64) ∷ []
    else (0xf0 + r / 262144) ∷ (0x80 + r / 4096 % 64) ∷ (0x80 + r / 64 % 64) ∷ (0x80 + r % 64) ∷ []

-- A rune that is no scalar value is written as U+FFFD.
unfoldable pub of_runes : List ℕ → Text
unfolding encode_rune
of_runes [] = []
of_runes (r ∷ rs) = encode_rune (if is_scalar r then r else rune_error) ++ of_runes rs

-- The bytes of a literal.
abbrev pub utf8 : String → Text
unfolding of_runes
utf8 s = of_runes (codes s)

abbrev AreScalar : List ℕ → Type 0
AreScalar = All (λ r. is_scalar r ≡ true)

decode_rune-scalar : (b : ℕ) (s : Text) → is_scalar (decode_rune b s).0 ≡ true
unfolding decode_rune
decode_rune-scalar b s = ground arith

runes_from-AreScalar : (skip : ℕ) (s : Text) → AreScalar (runes_from skip s)
unfolding runes_from
runes_from-AreScalar skip [] = tt
runes_from-AreScalar zero (b ∷ s) =
    (decode_rune-scalar b s, runes_from-AreScalar ((decode_rune b s).1 - 1) s)
runes_from-AreScalar (suc skip) (b ∷ s) = runes_from-AreScalar skip s

decode_one : (r : ℕ) (s : Text) → r < 0x80 → decode_rune r s ≡ (r, 1)
unfolding decode_rune
decode_one r s h = ground arith

decode_two :
    (r : ℕ) (s : Text)
    → 0x80 ≤ r
    → r < 0x800
    → decode_rune (0xc0 + r / 64) ((0x80 + r % 64) ∷ s) ≡ (r, 2)
unfolding decode_rune
decode_two r s lo hi = ground arith

decode_three :
    (r : ℕ) (s : Text)
    → 0x800 ≤ r
    → r < 0x10000
    → is_scalar r ≡ true
    → decode_rune (0xe0 + r / 4096) ((0x80 + r / 64 % 64) ∷ (0x80 + r % 64) ∷ s) ≡ (r, 3)
unfolding decode_rune
decode_three r s lo hi h = ground arith

decode_four :
    (r : ℕ) (s : Text)
    → 0x10000 ≤ r
    → r < 0x110000
    → decode_rune
        (0xf0 + r / 262144)
        ((0x80 + r / 4096 % 64) ∷ (0x80 + r / 64 % 64) ∷ (0x80 + r % 64) ∷ s)
      ≡ (r, 4)
unfolding decode_rune
decode_four r s lo hi = ground arith

-- A written scalar value is read back, whatever follows.
runes_from-encode_rune :
    (r : ℕ) (s : Text) → is_scalar r ≡ true → runes_from 0 (encode_rune r ++ s) ≡ r ∷ runes_from 0 s
unfolding runes_from encode_rune
runes_from-encode_rune r s h = elim (Bool-cases (ltb r 0x80)) [
  | inl one ↦ rw (one, decode_one r s (ground arith))
  | inr more ↦ elim (Bool-cases (ltb r 0x800)) [
    | inl two ↦ rw (more, two, decode_two r s (ground arith) (ground arith))
    | inr more' ↦ elim (Bool-cases (ltb r 0x10000)) [
      | inl three ↦ rw (more, more', three, decode_three r s (ground arith) (ground arith) h)
      | inr four ↦ rw (more, more', four, decode_four r s (ground arith) (ground arith))
    ]
  ]
]

pub runes-of_runes : (rs : List ℕ) → AreScalar rs → runes (of_runes rs) ≡ rs
unfolding runes of_runes
runes-of_runes [] h = refl
runes-of_runes (r ∷ rs) h =
    rw h.0 (runes_from-encode_rune r (of_runes rs) h.0 ∙ ap (λ t. r ∷ t) (runes-of_runes rs h.1))

take-AreScalar : (n : ℕ) (rs : List ℕ) → AreScalar rs → AreScalar (take n rs)
take-AreScalar zero rs h = tt
take-AreScalar (suc n) [] h = tt
take-AreScalar (suc n) (r ∷ rs) h = (h.0, take-AreScalar n rs h.1)

-- What a clamped text reads back as.
pub runes-clamp : (n : ℕ) (s : Text) → runes (of_runes (take n (runes s))) ≡ take n (runes s)
unfolding runes
runes-clamp n s =
    runes-of_runes (take n (runes s)) (take-AreScalar n (runes s) (runes_from-AreScalar 0 s))
