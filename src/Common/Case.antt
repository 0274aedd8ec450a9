-- ===== src/Common/Case.antt =====
-- strings.ToLower and strings.EqualFold. The letters of ASCII are mapped here; `CaseTable` stands for the
-- tables of the package unicode for all other runes.
use herdr_telegram_agents.Common.{ℕ, ◌+◌, Bool, ◌&&◌, nat_eq, ◌==◌, ltb, leb, if◌then◌else◌, map}
use herdr_telegram_agents.Common.Text.{Text, text_eq}
use herdr_telegram_agents.Encoding.Utf8.{runes, of_runes}

-- unicode.ToLower, and a rune that stands for all that fold to the same one (unicode.SimpleFold).
pub record CaseTable : Type 0 where
  pub lower : ℕ → ℕ
  pub fold : ℕ → ℕ

abbrev pub ascii_lower : ℕ → ℕ
ascii_lower r = if leb 0x41 r && leb r 0x5a then r + 32 else r

lower_rune : CaseTable → ℕ → ℕ
lower_rune t r = if ltb r 0x80 then ascii_lower r else t.lower r

fold_rune : CaseTable → ℕ → ℕ
fold_rune t r = if ltb r 0x80 then ascii_lower r else t.fold r

-- strings.ToLower
unfoldable pub to_lower : CaseTable → Text → Text
unfolding lower_rune
to_lower t s = of_runes (map (lower_rune t) (runes s))

-- strings.EqualFold
unfoldable pub equal_fold : CaseTable → Text → Text → Bool
unfolding fold_rune
equal_fold t a b = map (fold_rune t) (runes a) == map (fold_rune t) (runes b)
