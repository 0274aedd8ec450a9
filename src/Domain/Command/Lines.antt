-- ===== src/Domain/Command/Lines.antt =====
-- An answer of a dialog is one line, and nothing is cut twice.
use herdr_telegram_agents.Common.{
  ℕ, ◌≡◌, refl, sym, subst, ap, ◌∙◌, Bool, false, inl, inr, none, some, List, [], ◌∷◌, arith,
  nat_eq, ◌==◌, map, select, elem, elem-append, All, Option-cases,
}
use herdr_telegram_agents.Common.Text.{Text, split, join, split_one, split-append}
use herdr_telegram_agents.Common.Blanks.{trim_space, elem-trim_space}
use herdr_telegram_agents.Encoding.Utf8.{runes, chunks}
use herdr_telegram_agents.Domain.Command.Texts.{
  is_overlay_rule, after_rule, cut_overlay, crlf, cr, is_text, dialog_parts, dialog_text,
}

-- None of the texts holds the byte.
abbrev AreFree : ℕ → List Text → Type 0
AreFree c = All (λ p. elem c p ≡ false)

split-AreFree : (sep : ℕ) (s : Text) → AreFree sep (split sep s)
unfolding split
split-AreFree sep [] = (refl, tt)
split-AreFree sep (b ∷ s) = ground (arith, split-AreFree sep s)

split-AreFree_other : (sep c : ℕ) (s : Text) → elem c s ≡ false → AreFree c (split sep s)
unfolding split
split-AreFree_other sep c [] h = (refl, tt)
split-AreFree_other sep c (b ∷ s) h = ground (arith, split-AreFree_other sep c s)

trimmed-AreFree : (c : ℕ) (ps : List Text) → AreFree c ps → AreFree c (map trim_space ps)
trimmed-AreFree c [] h = tt
trimmed-AreFree c (p ∷ ps) h = (elem-trim_space c p h.0, trimmed-AreFree c ps h.1)

select-AreFree : (p : Text → Bool) (c : ℕ) (ps : List Text) → AreFree c ps → AreFree c (select p ps)
select-AreFree p c [] h = tt
select-AreFree p c (x ∷ ps) h = ground (arith, select-AreFree p c ps h.1)

join_free :
    (sep c : ℕ) (ps : List Text) → (sep == c) ≡ false → AreFree c ps → elem c (join sep ps) ≡ false
join_free sep c [] other h = refl
join_free sep c (p ∷ []) other h = h.0
join_free sep c (p ∷ q ∷ ps) other h =
    let e = elem-append c p (sep ∷ join sep (q ∷ ps)) in
    ground (arith, join_free sep c (q ∷ ps) other h.1)

cr_free : (s : Text) → elem 13 (cr s) ≡ false
cr_free [] = refl
cr_free (b ∷ s) = ground (arith, cr_free s)

-- The text that DialogText types into a dialog holds no line feed and no carriage return.
pub dialog_text_one_line :
    (text : Text) → (elem 10 (dialog_text text).0 ≡ false) × (elem 13 (dialog_text text).0 ≡ false)
unfolding dialog_text dialog_parts
dialog_text_one_line text =
    let s = cr (crlf text) in
    (
      join_free b' ' 10 (dialog_parts text) (ground arith)
          (select-AreFree is_text 10 _ (trimmed-AreFree 10 _ (split-AreFree 10 s))),
      join_free b' ' 13 (dialog_parts text) (ground arith) (
          select-AreFree is_text 13 _
            (trimmed-AreFree 13 _ (split-AreFree_other 10 13 s (cr_free (crlf text))))),
    )

-- Lines without the separator come back from their join.
split-join :
    (sep : ℕ) (l : Text) (ls : List Text)
    → AreFree sep (l ∷ ls)
    → split sep (join sep (l ∷ ls)) ≡ l ∷ ls
split-join sep l [] h = split_one sep l h.0
split-join sep l (m ∷ ls) h =
    split-append sep l (join sep (m ∷ ls)) h.0 ∙ ap (λ t. l ∷ t) (split-join sep m ls h.1)

after_rule-AreFree :
    (c : ℕ) (ls rest : List Text) → AreFree c ls → after_rule ls ≡ some rest → AreFree c rest
unfolding after_rule
after_rule-AreFree c [] rest h found = absurd (ground arith)
after_rule-AreFree c (l ∷ ls) rest h found = elim (Option-cases (after_rule ls)) [
  | inl none_later ↦ let same : ls ≡ rest = ground arith in subst (AreFree c) same h.1
  | inr (r, later) ↦ after_rule-AreFree c ls rest h.1 (ground arith)
]

-- Behind the last rule there is none.
after_rule-last : (ls rest : List Text) → after_rule ls ≡ some rest → after_rule rest ≡ none
unfolding after_rule
after_rule-last [] rest found = absurd (ground arith)
after_rule-last (l ∷ ls) rest found = elim (Option-cases (after_rule ls)) [
  | inl none_later ↦
      let same : ls ≡ rest = ground arith in subst (λ x. after_rule x ≡ none) same none_later
  | inr (r, later) ↦ after_rule-last ls rest (ground arith)
]

no_rule_in_nothing : after_rule (split 10 []) ≡ none
unfolding after_rule split is_overlay_rule trim_space chunks runes
no_rule_in_nothing = ground arith

-- After CutOverlay no line of the text is an overlay rule, and a second CutOverlay changes
-- nothing.
pub cut_overlay_again :
    (text : Text)
    → (after_rule (split 10 (cut_overlay text)) ≡ none)
      × (cut_overlay (cut_overlay text) ≡ cut_overlay text)
unfolding cut_overlay
cut_overlay_again text =
    let clean : after_rule (split 10 (cut_overlay text)) ≡ none =
      elim (Option-cases (after_rule (split 10 text))) [
        | inl no_rule ↦ ground arith
        | inr ([], found) ↦
            let emptied : cut_overlay text ≡ [] = ground arith in
            subst (λ t. after_rule (split 10 t) ≡ none) (sym emptied) no_rule_in_nothing
        | inr (l ∷ ls, found) ↦
            let free =
              after_rule-AreFree 10 (split 10 text) (l ∷ ls) (split-AreFree 10 text) found in
            let last = after_rule-last (split 10 text) (l ∷ ls) found in
            let back = split-join 10 l ls free in ground arith
      ] in
    (clean, ground arith)
