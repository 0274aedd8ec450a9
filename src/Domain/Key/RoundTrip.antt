-- ===== src/Domain/Key/RoundTrip.antt =====
-- Keys against their strings, both ways.
use herdr_telegram_agents.Common.{
  ◌≡◌, refl, ap, sym, ◌∙◌, true, false, ◌⊎◌, inl, inr, none, some, List, [], ◌∷◌, ◌++◌, arith,
  nat_eq, all, elem, Option-cases,
}
use herdr_telegram_agents.Common.Text.{
  Text, text_eq, IsBytes, strip_prefix?, strip_prefix?-eq, strip_prefix?-append, cut, cut-append,
  cut-eq, split, split_one, split-append, join, join-split,
}
use herdr_telegram_agents.Encoding.Base64
use herdr_telegram_agents.Encoding.Hex
use herdr_telegram_agents.Domain.Key.{
  Key, is_empty, v2, key_string, decode_part, is_digest, parse_versioned, parse_legacy, parse_key,
}

-- The keys that a Herdr snapshot makes: ids that are not empty, and a digest that is a SHA-256 in
-- lower-case hexadecimal, or none; without one the ids must not read as the versioned form.
pub record IsWellFormed (k : Key) : Type 0 where
  pub pane_bytes : IsBytes k.pane_id
  pub terminal_bytes : IsBytes k.terminal_id
  pub has_pane : is_empty k.pane_id ≡ false
  pub has_terminal : is_empty k.terminal_id ≡ false
  pub digest_form :
      ((k.session_digest ≡ [])
        × (elem b'/' k.pane_id ≡ false)
        × (strip_prefix? v2 (key_string k) ≡ none))
      ⊎ Hex.IsHex 32 k.session_digest

decode_part-encode :
    (s : Text) → IsBytes s → is_empty s ≡ false → decode_part (Base64.encode s) ≡ some s
unfolding decode_part
decode_part-encode s b h = ground (arith, Base64.decode-encode s b)

is_digest-IsHex : (s : Text) → Hex.IsHex 32 s → is_digest s ≡ true
unfolding is_digest
is_digest-IsHex s h = let (d, found, back, size) = Hex.decode-IsHex 32 s h in ground arith

digest_known : (s : Text) → Hex.IsHex 32 s → is_empty s ≡ false
digest_known [] h = absurd (omega arith)
digest_known (c ∷ s) h = refl

colon-hex : (s : Text) → all Hex.is_lower_digit s ≡ true → elem b':' s ≡ false
colon-hex [] h = refl
colon-hex (c ∷ s) h = ground (arith, colon-hex s)

parse_key_legacy : (s : Text) → strip_prefix? v2 s ≡ none → parse_key s ≡ parse_legacy (cut b'/' s)
unfolding parse_key
parse_key_legacy s h = ground arith

parse_key_versioned :
    (s rest : Text)
    → strip_prefix? v2 s ≡ some rest
    → parse_key s ≡ parse_versioned (split b':' rest)
unfolding parse_key
parse_key_versioned s rest h = ground arith

split_three :
    (a b c : Text)
    → elem b':' a ≡ false
    → elem b':' b ≡ false
    → elem b':' c ≡ false
    → split b':' (a ++ (b':' ∷ (b ++ (b':' ∷ c)))) ≡ a ∷ b ∷ c ∷ []
split_three a b c ha hb hc =
    split-append b':' a (b ++ (b':' ∷ c)) ha
    ∙ ap (λ t. a ∷ t) (split-append b':' b c hb ∙ ap (λ t. b ∷ t) (split_one b':' c hc))

module _ (k : Key) (h : IsWellFormed k) where
  legacy_back :
      k.session_digest ≡ []
      → elem b'/' k.pane_id ≡ false
      → strip_prefix? v2 (key_string k) ≡ none
      → parse_key (key_string k) ≡ some k
  unfolding parse_legacy
  legacy_back none_known no_slash other_form =
      let text : key_string k ≡ k.pane_id ++ (b'/' ∷ k.terminal_id) =
        unfold key_string in ground arith in
      parse_key_legacy (key_string k) other_form
      ∙ ap (λ t. parse_legacy (cut b'/' t)) text
      ∙ ap parse_legacy (cut-append b'/' k.pane_id k.terminal_id no_slash)
      ∙ ground arith

  versioned_back : Hex.IsHex 32 k.session_digest → parse_key (key_string k) ≡ some k
  versioned_back digest =
      let rest =
        Base64.encode k.pane_id
        ++ (b':' ∷ (Base64.encode k.terminal_id ++ (b':' ∷ k.session_digest))) in
      let text : key_string k ≡ v2 ++ rest =
        unfold key_string in rw (digest_known k.session_digest digest) in
      ap parse_key text
      ∙ parse_key_versioned (v2 ++ rest) rest (strip_prefix?-append v2 rest)
      ∙ ap parse_versioned (
          split_three _ _ _ (Base64.colon-encode k.pane_id h.pane_bytes)
            (Base64.colon-encode k.terminal_id h.terminal_bytes)
            (colon-hex k.session_digest digest.0))
      ∙ unfold parse_versioned in
        rw (
          decode_part-encode k.pane_id h.pane_bytes h.has_pane,
          decode_part-encode k.terminal_id h.terminal_bytes h.has_terminal,
          is_digest-IsHex k.session_digest digest,
        )

-- ParseKey reads the string of a well-formed key back as that key, in the versioned and in the
-- older form.
pub parse_key-key_string : (k : Key) → IsWellFormed k → parse_key (key_string k) ≡ some k
parse_key-key_string k h = elim h.digest_form [
  | inl (none_known, no_slash, other_form) ↦ legacy_back k h none_known no_slash other_form
  | inr digest ↦ versioned_back k h digest
]

decode_part-eq :
    (p s : Text) → decode_part p ≡ some s → (Base64.encode s ≡ p) × (is_empty s ≡ false)
unfolding decode_part
decode_part-eq p s h = ground arith

is_digest_known : (d : Text) → is_digest d ≡ true → is_empty d ≡ false
unfolding is_digest
is_digest_known [] h = ground (arith, Hex.decode-nil)
is_digest_known (c ∷ d) h = refl

versioned_eq :
    (ps : List Text) (k : Key) → parse_versioned ps ≡ some k → key_string k ≡ v2 ++ join b':' ps
unfolding parse_versioned key_string
versioned_eq (p ∷ t ∷ d ∷ []) k h =
    ground (arith, decode_part-eq p k.pane_id, decode_part-eq t k.terminal_id, is_digest_known d)
versioned_eq _ k h = ground arith

legacy_eq :
    (s a b : Text) (k : Key)
    → cut b'/' s ≡ some (a, b)
    → parse_legacy (some (a, b)) ≡ some k
    → key_string k ≡ s
unfolding parse_legacy key_string
legacy_eq s a b k e h = ground (arith, cut-eq b'/' s a b)

-- If ParseKey reads a string as a key, that string is the key's own: no two strings are read as
-- one key.
pub key_string-parse_key : (s : Text) (k : Key) → parse_key s ≡ some k → key_string k ≡ s
unfolding parse_key parse_legacy
key_string-parse_key s k h = elim (Option-cases (strip_prefix? v2 s)) [
  | inl old ↦ elim (Option-cases (cut b'/' s)) [
    | inl bad ↦ ground (arith)
    | inr ((a, b), e) ↦ legacy_eq s a b k e (ground arith)
  ]
  | inr (rest, e) ↦
      versioned_eq (split b':' rest) k (ground arith)
      ∙ ap (λ t. v2 ++ t) (join-split b':' rest)
      ∙ sym (strip_prefix?-eq v2 s rest e)
]
