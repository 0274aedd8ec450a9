-- ===== src/Domain/Command/Texts.antt =====
-- internal/domain/command.go: text that goes to an agent or comes from its screen.
use herdr_telegram_agents.Common.{
  ℕ, Bool, true, false, not, ◌&&◌, Option, none, some, List, [], ◌∷◌, nat_eq, ◌==◌, leb,
  if◌then◌else◌, length, map, select, all,
}
use herdr_telegram_agents.Common.Text.{Text, split, join}
use herdr_telegram_agents.Common.Blanks.{trim_space}
use herdr_telegram_agents.Encoding.Utf8.{runes}
use herdr_telegram_agents.Domain.Key.{is_empty}

abbrev pub overlay_rule_min_runes : ℕ
overlay_rule_min_runes = 8

-- isOverlayRule; the rune is the upper one-eighth block.
unfoldable pub is_overlay_rule : Text → Bool
is_overlay_rule line =
    let rs = runes (trim_space line) in
    all (λ r. r == 0x2594) rs && leb overlay_rule_min_runes (length rs)

-- The lines after the last rule, if there is one.
unfoldable pub after_rule : List Text → Option (List Text)
after_rule [] = none
after_rule (l ∷ ls) = elim (after_rule ls) [
  | some rest ↦ some rest
  | none ↦ if is_overlay_rule l then some ls else none
]

-- CutOverlay
unfoldable pub cut_overlay : Text → Text
unfolding after_rule
cut_overlay text = elim (after_rule (split 10 text)) [ none ↦ text | some rest ↦ join 10 rest ]

-- strings.ReplaceAll(text, "\r\n", "\n")
unfoldable pub crlf : Text → Text
crlf [] = []
crlf (b ∷ []) = b ∷ []
crlf (b ∷ c ∷ s) = elim (b == 13 && c == 10) [ true ↦ 10 ∷ crlf s | false ↦ b ∷ crlf (c ∷ s) ]

-- strings.ReplaceAll(text, "\r", "\n")
abbrev pub cr : Text → Text
cr s = map (λ b. if b == 13 then 10 else b) s

abbrev pub is_text : Text → Bool
is_text p = not (is_empty p)

-- The lines of an answer, trimmed, without the empty ones.
unfoldable pub dialog_parts : Text → List Text
dialog_parts text = select is_text (map trim_space (split 10 (cr (crlf text))))

-- DialogText
unfoldable pub dialog_text : Text → Text × ℕ
unfolding dialog_parts crlf
dialog_text text = (join b' ' (dialog_parts text), length (dialog_parts text))
