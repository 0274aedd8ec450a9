-- ===== src/Domain/Version/Order.antt =====
-- The comparison of versions is a total order: any two are comparable, and only equal ones are the same.
use herdr_telegram_agents.Common.{
  ◌≡◌, ◌≢◌, ◌↔◌, refl, sym, ap, ap₂, ◌∙◌, ◌⊎◌, inl, inr, List, [], ◌∷◌, arith, Bool-cases,
}
use herdr_telegram_agents.Common.Text.{
  Text, text_eq, text_lt, text_lt_irrefl, text_lt_trans, text_lt_total, text_lt_asym,
}
use herdr_telegram_agents.Domain.Version.{
  Version, Sign, less, same, greater, compare_numbers, compare_texts, or_then, compare_identifiers,
  compare_pre, compare_releases, compare,
}

abbrev pub opposite : Sign → Sign
opposite less = greater
opposite same = same
opposite greater = less

or_then-opposite : (s t : Sign) → opposite (or_then s t) ≡ or_then (opposite s) (opposite t)
or_then-opposite less t = refl
or_then-opposite same t = refl
or_then-opposite greater t = refl

-- The laws of a comparison.
pub record IsOrder {ℓ} {A : Type ℓ} (cmp : A → A → Sign) : Type ℓ where
  pub flips : (a b : A) → cmp b a ≡ opposite (cmp a b)
  pub equal : (a b : A) → cmp a b ≡ same → a ≡ b
  pub itself : (a : A) → cmp a a ≡ same
  pub chains : (a b c : A) → cmp a b ≡ less → cmp b c ≡ less → cmp a c ≡ less

numbers-IsOrder : IsOrder compare_numbers
numbers-IsOrder = record {
  flips = λ a b. ground arith;
  equal = λ a b h. ground arith;
  itself = λ a. ground arith;
  chains = λ a b c h k. ground arith;
}

texts-equal : (a b : Text) → compare_texts a b ≡ same → a ≡ b
texts-equal a b h = elim (text_eq.dec a b) [
  | yes e ↦ e
  | no n ↦ elim (Bool-cases (text_lt a b)) [
    | inl lt ↦ absurd (ground arith)
    | inr not_lt ↦ let gt = text_lt_total a b n not_lt in absurd (ground arith)
  ]
]

texts-IsOrder : IsOrder compare_texts
texts-IsOrder = record {
  flips = λ a b. let x = text_lt_asym a b in let y = text_lt_asym b a in ground arith;
  equal = texts-equal;
  itself = λ a. let i = text_lt_irrefl a in ground arith;
  chains = λ a b c h k. let t = text_lt_trans a b c in ground arith;
}

sign_cases : (s : Sign) → (s ≡ less) ⊎ (s ≡ same) ⊎ (s ≡ greater)
sign_cases less = inl refl
sign_cases same = inr (inl refl)
sign_cases greater = inr (inr refl)

identifiers-chains :
    (a b c : Text)
    → compare_identifiers a b ≡ less
    → compare_identifiers b c ≡ less
    → compare_identifiers a c ≡ less
unfolding compare_identifiers
identifiers-chains a b c h k = let t = text_lt_trans a b c in ground arith

identifiers-IsOrder : IsOrder compare_identifiers
unfolding compare_identifiers
identifiers-IsOrder = record {
  flips = λ a b. let x = text_lt_asym a b in let y = text_lt_asym b a in ground arith;
  equal = λ a b h. texts-equal a b (ground arith);
  itself = λ a. let i = text_lt_irrefl a in ground arith;
  chains = identifiers-chains;
}

module _ {ℓ} {A : Type ℓ} (cmp : A → A → Sign) (o : IsOrder cmp) where
  -- A chain of two answers, the next things chained as well.
  chain_then :
      (a b c : A) (s t u : Sign)
      → (s ≡ less → t ≡ less → u ≡ less)
      → or_then (cmp a b) s ≡ less
      → or_then (cmp b c) t ≡ less
      → or_then (cmp a c) u ≡ less
  chain_then a b c s t u rest h k = elim (sign_cases (cmp a b)) [
    | inl lt ↦ elim (sign_cases (cmp b c)) [
      | inl lt' ↦ let e = o.chains a b c lt lt' in ground arith
      | inr (inl eq') ↦ let e = ap (cmp a) (o.equal b c eq') in ground arith
      | inr (inr gt') ↦ absurd (ground arith)
    ]
    | inr (inl eq) ↦ let e = ap (λ x. cmp x c) (o.equal a b eq) in ground arith
    | inr (inr gt) ↦ absurd (ground arith)
  ]

pre-flips : (xs ys : List Text) → compare_pre ys xs ≡ opposite (compare_pre xs ys)
unfolding compare_pre
pre-flips [] [] = refl
pre-flips [] (b ∷ ys) = refl
pre-flips (a ∷ xs) [] = refl
pre-flips (a ∷ xs) (b ∷ ys) =
    let f = identifiers-IsOrder.flips a b in
    let r = pre-flips xs ys in let s = sign_cases (compare_identifiers a b) in ground arith

pre-equal : (xs ys : List Text) → compare_pre xs ys ≡ same → xs ≡ ys
unfolding compare_pre
pre-equal [] [] h = refl
pre-equal [] (b ∷ ys) h = absurd (ground arith)
pre-equal (a ∷ xs) [] h = absurd (ground arith)
pre-equal (a ∷ xs) (b ∷ ys) h =
    let s = sign_cases (compare_identifiers a b) in
    ap₂ (λ x xs. x ∷ xs) (identifiers-IsOrder.equal a b (ground arith))
      (pre-equal xs ys (ground arith))

pre-itself : (xs : List Text) → compare_pre xs xs ≡ same
unfolding compare_pre
pre-itself [] = refl
pre-itself (a ∷ xs) = let i = identifiers-IsOrder.itself a in let r = pre-itself xs in ground arith

pre-chains :
    (xs ys zs : List Text)
    → compare_pre xs ys ≡ less
    → compare_pre ys zs ≡ less
    → compare_pre xs zs ≡ less
unfolding compare_pre
pre-chains [] [] zs h k = absurd (ground arith)
pre-chains [] (b ∷ ys) [] h k = absurd (ground arith)
pre-chains [] (b ∷ ys) (c ∷ zs) h k = refl
pre-chains (a ∷ xs) [] zs h k = absurd (ground arith)
pre-chains (a ∷ xs) (b ∷ ys) [] h k = absurd (ground arith)
pre-chains (a ∷ xs) (b ∷ ys) (c ∷ zs) h k =
    chain_then compare_identifiers identifiers-IsOrder a b c (compare_pre xs ys) (compare_pre ys zs)
      (compare_pre xs zs) (λ x y. pre-chains xs ys zs x y) h k

releases-flips : (xs ys : List Text) → compare_releases ys xs ≡ opposite (compare_releases xs ys)
unfolding compare_releases
releases-flips [] [] = refl
releases-flips [] (b ∷ ys) = refl
releases-flips (a ∷ xs) [] = refl
releases-flips (a ∷ xs) (b ∷ ys) = pre-flips (a ∷ xs) (b ∷ ys)

releases-equal : (xs ys : List Text) → compare_releases xs ys ≡ same → xs ≡ ys
unfolding compare_releases
releases-equal [] [] h = refl
releases-equal [] (b ∷ ys) h = absurd (ground arith)
releases-equal (a ∷ xs) [] h = absurd (ground arith)
releases-equal (a ∷ xs) (b ∷ ys) h = pre-equal (a ∷ xs) (b ∷ ys) h

releases-itself : (xs : List Text) → compare_releases xs xs ≡ same
unfolding compare_releases
releases-itself [] = refl
releases-itself (a ∷ xs) = pre-itself (a ∷ xs)

releases-chains :
    (xs ys zs : List Text)
    → compare_releases xs ys ≡ less
    → compare_releases ys zs ≡ less
    → compare_releases xs zs ≡ less
unfolding compare_releases
releases-chains [] [] zs h k = k
releases-chains [] (b ∷ ys) zs h k = absurd (ground arith)
releases-chains (a ∷ xs) [] [] h k = refl
releases-chains (a ∷ xs) [] (c ∷ zs) h k = absurd (ground arith)
releases-chains (a ∷ xs) (b ∷ ys) [] h k = refl
releases-chains (a ∷ xs) (b ∷ ys) (c ∷ zs) h k = pre-chains (a ∷ xs) (b ∷ ys) (c ∷ zs) h k

releases-IsOrder : IsOrder compare_releases
releases-IsOrder = record {
  flips = releases-flips;
  equal = releases-equal;
  itself = releases-itself;
  chains = releases-chains;
}

compare-IsOrder : IsOrder compare
unfolding compare
compare-IsOrder = record {
  flips = λ v w.
      let a = numbers-IsOrder.flips v.major w.major in
      let b = numbers-IsOrder.flips v.minor w.minor in
      let c = numbers-IsOrder.flips v.patch w.patch in
      let d = releases-IsOrder.flips v.pre w.pre in
      let s = sign_cases (compare_releases v.pre w.pre) in ground arith;
  equal = λ v w h.
      let s = sign_cases (compare_releases v.pre w.pre) in
      let d = releases-IsOrder.equal v.pre w.pre (ground arith) in ground arith;
  itself = λ v. let d = releases-IsOrder.itself v.pre in ground arith;
  chains = λ u v w. chain_then compare_numbers numbers-IsOrder u.major v.major w.major _ _ _ (
      chain_then compare_numbers numbers-IsOrder u.minor v.minor w.minor _ _ _ (
        chain_then compare_numbers numbers-IsOrder u.patch v.patch w.patch _ _ _
          (releases-IsOrder.chains u.pre v.pre w.pre)));
}

-- Compare orders versions totally: swapping two versions swaps the answer, the answer is 0 exactly
-- for equal versions, and a version before one that is before a third is before the third.
pub compare_order :
    (u v w : Version)
    → (compare v u ≡ opposite (compare u v))
      × ((compare u v ≡ same) ↔ (u ≡ v))
      × ((compare u w ≡ less) ⊎ (compare u v ≢ less) ⊎ (compare v w ≢ less))
compare_order u v w = (
  compare-IsOrder.flips u v,
  (compare-IsOrder.equal u v, λ e. ap (compare u) (sym e) ∙ compare-IsOrder.itself u),
  elim (sign_cases (compare u v)) [
    | inl before ↦ elim (sign_cases (compare v w)) [
      | inl before' ↦ inl (compare-IsOrder.chains u v w before before')
      | inr other ↦ inr (inr (ground arith))
    ]
    | inr other ↦ inr (inl (ground arith))
  ],
)
