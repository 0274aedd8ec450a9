-- ===== src/Common/Blanks.antt =====
-- White space: unicode.IsSpace, strings.TrimSpace and strings.Fields.
use herdr_telegram_agents.Common.{
  ℕ, zero, suc, ◌-◌, ◌≡◌, refl, sym, ap, ◌∙◌, ◌⊎◌, inl, inr, Bool, true, false, ◌&&◌, ◌||◌, List,
  [], ◌∷◌, ◌++◌, arith, nat_eq, ◌==◌, leb, if◌then◌else◌, all, elem, elem-append, take, drop,
}
use herdr_telegram_agents.Common.Text.{Text}
use herdr_telegram_agents.Common.Slices.{drop-nil, take-append-drop}
use herdr_telegram_agents.Encoding.Utf8.{runes, chunks, chunks_from, decode_rune}

-- unicode.IsSpace
unfoldable pub is_space : ℕ → Bool
is_space r =
    leb 9 r && leb r 13
    || r == 0x20
    || r == 0x85
    || r == 0xa0
    || r == 0x1680
    || leb 0x2000 r && leb r 0x200a
    || r == 0x2028
    || r == 0x2029
    || r == 0x202f
    || r == 0x205f
    || r == 0x3000

-- strings.TrimSpace(s) == ""
unfoldable pub is_blank : Text → Bool
unfolding is_space
is_blank s = all is_space (runes s)

drop_blank : List Text → List Text
drop_blank [] = []
drop_blank (c ∷ cs) = let rest = drop_blank cs in if is_blank c then rest else c ∷ cs

-- The chunks up to the last one that is no space.
drop_blank_end : List Text → List Text
drop_blank_end [] = []
drop_blank_end (c ∷ cs) = elim (drop_blank_end cs) [
  | [] ↦ (if is_blank c then [] else c ∷ [])
  | d ∷ ds ↦ c ∷ d ∷ ds
]

concat : List Text → Text
concat [] = []
concat (c ∷ cs) = c ++ concat cs

-- strings.TrimSpace
unfoldable pub trim_space : Text → Text
unfolding is_blank drop_blank drop_blank_end concat
trim_space s = concat (drop_blank_end (drop_blank (chunks s)))

-- `open_word` holds the word that is being read.
fields_from : Text → List Text → List Text
fields_from [] [] = []
fields_from (b ∷ word) [] = (b ∷ word) ∷ []
fields_from [] (c ∷ cs) = fields_from (if is_blank c then [] else c) cs
fields_from (b ∷ word) (c ∷ cs) = elim (is_blank c) [
  | true ↦ (b ∷ word) ∷ fields_from [] cs
  | false ↦ fields_from (b ∷ word ++ c) cs
]

-- strings.Fields
unfoldable pub fields : Text → List Text
unfolding is_blank fields_from
fields s = fields_from [] (chunks s)

list_cases : (xs : List Text) → (xs ≡ []) ⊎ ((y : Text) × (ys : List Text) × (xs ≡ y ∷ ys))
list_cases [] = inl refl
list_cases (y ∷ ys) = inr (y, ys, refl)

concat-chunks_from : (skip : ℕ) (s : Text) → concat (chunks_from skip s) ≡ drop skip s
unfolding chunks_from concat
concat-chunks_from skip [] = sym (drop-nil skip)
concat-chunks_from zero (b ∷ s) =
    let rest = concat-chunks_from ((decode_rune b s).1 - 1) s in
    ap (λ t. b ∷ (take ((decode_rune b s).1 - 1) s ++ t)) rest
    ∙ ap (λ t. b ∷ t) (take-append-drop ((decode_rune b s).1 - 1) s)
concat-chunks_from (suc skip) (b ∷ s) = concat-chunks_from skip s

elem-drop_blank :
    (c : ℕ) (cs : List Text) → elem c (concat (drop_blank cs)) ≡ true → elem c (concat cs) ≡ true
unfolding drop_blank concat
elem-drop_blank c [] h = h
elem-drop_blank c (x ∷ cs) h =
    let e = elem-append c x (concat cs) in ground (arith, elem-drop_blank c cs)

elem-drop_blank_end :
    (c : ℕ) (cs : List Text)
    → elem c (concat (drop_blank_end cs)) ≡ true
    → elem c (concat cs) ≡ true
unfolding drop_blank_end concat
elem-drop_blank_end c [] h = h
elem-drop_blank_end c (x ∷ cs) h = elim (list_cases (drop_blank_end cs)) [
  | inl gone ↦ let e = elem-append c x (concat cs) in let e1 = elem-append c x [] in ground arith
  | inr (d, ds, more) ↦
      let e = elem-append c x (concat cs) in
      let e1 = elem-append c x (concat (d ∷ ds)) in
      let ih = elem-drop_blank_end c cs in ground arith
]

-- Trimming brings nothing in.
pub elem-trim_space : (c : ℕ) (s : Text) → elem c s ≡ false → elem c (trim_space s) ≡ false
unfolding trim_space chunks
elem-trim_space c s h =
    let whole = concat-chunks_from 0 s in
    let front = elem-drop_blank c (chunks s) in
    let back = elem-drop_blank_end c (drop_blank (chunks s)) in
    let e = ap (elem c) whole in ground arith
