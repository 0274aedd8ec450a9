-- ===== src/Domain/Key.antt =====
-- `Key` of internal/domain/agent.go, and `ParseKey` of internal/domain/mapping.go.
pub mod RoundTrip
use herdr_telegram_agents.Common.{
  ℕ, ◌≡◌, Bool, true, false, not, ◌&&◌, ◌||◌, Option, none, some, List, [], ◌∷◌, ◌++◌, ℕ_discrete,
  DecEq, ◌==◌, nat_eq, if◌then◌else◌, length,
}
use herdr_telegram_agents.Common.Text.{
  Text, Text-discrete, text_eq, codes, strip_prefix?, cut, split,
}
use herdr_telegram_agents.Encoding.Base64
use herdr_telegram_agents.Encoding.Hex

pub record Key : Type 0 where
  pub pane_id : Text
  pub terminal_id : Text
  pub session_digest : Text

unfoldable pub Key-discrete : Discrete Key
unfolding ℕ_discrete
Key-discrete = hlevel ℕ_discrete

instance abbrev pub key_eq : DecEq Key
key_eq = record { dec = Key-discrete }

abbrev pub is_empty : Text → Bool
is_empty [] = true
is_empty (b ∷ s) = false

abbrev pub encode_key_part : Text → Text
encode_key_part s = Base64.encode s

abbrev pub v2 : Text
v2 = codes "v2:"

-- Key.String
unfoldable pub key_string : Key → Text
key_string k =
    if not (is_empty k.session_digest)
    then v2
      ++ (encode_key_part k.pane_id
          ++ (b':' ∷ (encode_key_part k.terminal_id ++ (b':' ∷ k.session_digest))))
    else k.pane_id ++ (b'/' ∷ k.terminal_id)

-- sha256.Size
abbrev digest_size : ℕ
digest_size = 32

-- A part of a versioned key: decoded, not empty, and written in the one canonical way.
unfoldable pub decode_part : Text → Option Text
decode_part part = elim (Base64.decode part) [
  | none ↦ none
  | some s ↦ if is_empty s || not (Base64.encode s == part) then none else some s
]

unfoldable pub is_digest : Text → Bool
is_digest part = elim (Hex.decode part) [
  | none ↦ false
  | some d ↦ length d == digest_size && Hex.encode d == part
]

abbrev versioned_key : Option Text → Option Text → Bool → Text → Option Key
versioned_key (some pane) (some term) true digest =
    some (record { pane_id = pane; terminal_id = term; session_digest = digest })
versioned_key _ _ _ _ = none

parse_versioned : List Text → Option Key
parse_versioned (p ∷ t ∷ d ∷ []) = versioned_key (decode_part p) (decode_part t) (is_digest d) d
parse_versioned _ = none

parse_legacy : Option (Text × Text) → Option Key
parse_legacy none = none
parse_legacy (some (pane, term)) =
    if is_empty pane || is_empty term
    then none
    else some (record { pane_id = pane; terminal_id = term; session_digest = [] })

-- ParseKey; `none` is the false of its second result.
unfoldable pub parse_key : Text → Option Key
unfolding parse_versioned parse_legacy
parse_key s = elim (strip_prefix? v2 s) [
  | some rest ↦ parse_versioned (split b':' rest)
  | none ↦ parse_legacy (cut b'/' s)
]

abbrev pub known : Text → Bool
known s = not (is_empty s)

unfoldable pub same_session : Key → Key → Bool
same_session k other =
    known k.pane_id
    && k.pane_id == other.pane_id
    && known k.session_digest
    && k.session_digest == other.session_digest

unfoldable pub conflicts_with : Key → Key → Bool
conflicts_with k other =
    known k.pane_id
    && k.pane_id == other.pane_id
    && known k.session_digest
    && known other.session_digest
    && not (k.session_digest == other.session_digest)

unfoldable pub same_identity : Key → Key → Bool
same_identity k other =
    if is_empty k.pane_id || not (k.pane_id == other.pane_id)
    then false
    else if known k.session_digest && known other.session_digest
    then k.session_digest == other.session_digest
    else known k.terminal_id && k.terminal_id == other.terminal_id
