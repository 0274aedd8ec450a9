-- ===== src/Domain/Status.antt =====
-- internal/domain/status.go: the status of an agent, and topic names.
use herdr_telegram_agents.Common.{
  ℕ, ◌≤◌, ◌≡◌, Bool, true, false, ◌||◌, none, some, List, [], ◌∷◌, arith, ℕ_discrete, DecEq, ◌==◌,
  nat_eq, leb, if◌then◌else◌, length, take, length-take-le, inl, inr, Bool-cases,
}
use herdr_telegram_agents.Common.Text.{Text, Text-discrete, text_eq, codes, strip_prefix?}
use herdr_telegram_agents.Encoding.Utf8.{runes, of_runes, utf8, runes-clamp}

-- `other` holds a string that is none of the six: only a mapping file can bring one in.
pub data Status : Type 0 where
  working idle blocked done unknown exited : Status
  other : Text → Status

unfoldable pub Status-discrete : Discrete Status
unfolding ℕ_discrete
Status-discrete = hlevel ℕ_discrete

instance abbrev pub status_eq : DecEq Status
status_eq = record { dec = Status-discrete }

unfoldable pub parse_status : Text → Status
unfolding Text-discrete
parse_status s =
    if s == codes "working"
    then working
    else if s == codes "idle"
    then idle
    else if s == codes "blocked"
    then blocked
    else if s == codes "done"
    then done
    else if s == codes "unknown"
    then unknown
    else unknown

-- Only `exited` is not live.
abbrev pub live : Status → Bool
live exited = false
live _ = true

unfoldable pub emoji : Status → Text
emoji working = utf8 "⚡"
emoji idle = utf8 "✅"
emoji blocked = utf8 "❓"
emoji done = utf8 "🏆"
emoji exited = utf8 "🏁"
emoji _ = utf8 "👀"

abbrev pub ready_for_input : Status → Bool
ready_for_input idle = true
ready_for_input done = true
ready_for_input _ = false

abbrev pub display_name_max_runes : ℕ
display_name_max_runes = 128

unfoldable pub display_name : Text → Text
display_name label =
    if leb (length (runes label)) display_name_max_runes
    then label
    else of_runes (take display_name_max_runes (runes label))

abbrev legacy_prefixes : List Text
legacy_prefixes =
    of_runes (0x2699 ∷ 0xfe0f ∷ []) ∷ utf8 "💤" ∷ utf8 "❓" ∷ utf8 "✅" ∷ utf8 "❔" ∷ utf8 "🏁" ∷ []

-- strings.TrimLeft(s, " \t")
abbrev pub trim_blanks : Text → Text
trim_blanks [] = []
trim_blanks (b ∷ s) = let rest = trim_blanks s in if b == b' ' || b == 9 then rest else b ∷ s

-- The loop of `StripPrefix` over the prefixes that are left.
strip_first : List Text → Text → Text
strip_first [] name = name
strip_first (p ∷ ps) name = elim (strip_prefix? p name) [
  | none ↦ strip_first ps name
  | some rest ↦ trim_blanks rest
]

unfoldable pub strip_prefix : Text → Text
unfolding strip_first
strip_prefix name = strip_first legacy_prefixes name

-- A topic name has at most 128 runes.
pub display_name_bound : (label : Text) → length (runes (display_name label)) ≤ 128
unfolding display_name
display_name_bound label = elim (Bool-cases (leb (length (runes label)) 128)) [
  | inl fits ↦ rw fits (ground arith)
  | inr long ↦ rw (long, runes-clamp) (length-take-le 128 (runes label))
]

display_name_short : (label : Text) → length (runes label) ≤ 128 → display_name label ≡ label
unfolding display_name
display_name_short label h = ground arith

-- Clamping a clamped name changes nothing.
pub display_name_idem : (label : Text) → display_name (display_name label) ≡ display_name label
display_name_idem label = display_name_short (display_name label) (display_name_bound label)
