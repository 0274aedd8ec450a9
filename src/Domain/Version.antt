-- ===== src/Domain/Version.antt =====
-- internal/domain/version.go: semantic versions and their order. The patterns that ParseVersion reads
-- versions with are regular expressions and not modelled.
pub mod Order
use herdr_telegram_agents.Common.{
  ℕ, Bool, true, false, not, ◌&&◌, ◌||◌, List, [], ◌∷◌, ltb, leb, if◌then◌else◌, length, all,
}
use herdr_telegram_agents.Common.Text.{Text, text_lt}
use herdr_telegram_agents.Common.Decimal.{is_digit}

-- The numbers are uint64, which no operation here changes.
pub record Version : Type 0 where
  pub major : ℕ
  pub minor : ℕ
  pub patch : ℕ
  pub pre : List Text

-- The answers -1, 0 and 1.
pub data Sign : Type 0 where
  less same greater : Sign

-- numeric; an empty text is numeric. A byte of a longer rune is no digit.
abbrev pub numeric : Text → Bool
numeric s = all is_digit s

abbrev pub compare_numbers : ℕ → ℕ → Sign
compare_numbers a b = if ltb a b then less else if ltb b a then greater else same

abbrev pub compare_texts : Text → Text → Sign
compare_texts a b = if text_lt a b then less else if text_lt b a then greater else same

-- The first answer that is not 0.
abbrev pub or_then : Sign → Sign → Sign
or_then less next = less
or_then same next = next
or_then greater next = greater

-- One round of the loop over the prerelease identifiers.
unfoldable pub compare_identifiers : Text → Text → Sign
compare_identifiers a b =
    if numeric a && numeric b
    then or_then (compare_numbers (length a) (length b)) (compare_texts a b)
    else if numeric a
    then less
    else if numeric b
    then greater
    else compare_texts a b

-- The loop, and the lengths behind it.
unfoldable pub compare_pre : List Text → List Text → Sign
compare_pre [] [] = same
compare_pre [] (b ∷ ys) = less
compare_pre (a ∷ xs) [] = greater
compare_pre (a ∷ xs) (b ∷ ys) = or_then (compare_identifiers a b) (compare_pre xs ys)

-- A version without prerelease identifiers comes behind the ones with them.
unfoldable pub compare_releases : List Text → List Text → Sign
compare_releases [] [] = same
compare_releases [] (b ∷ ys) = greater
compare_releases (a ∷ xs) [] = less
compare_releases (a ∷ xs) (b ∷ ys) = compare_pre (a ∷ xs) (b ∷ ys)

-- Version.Compare
unfoldable pub compare : Version → Version → Sign
compare v other = or_then (compare_numbers v.major other.major) (
    or_then (compare_numbers v.minor other.minor)
      (or_then (compare_numbers v.patch other.patch) (compare_releases v.pre other.pre)))
