-- ===== src/Common/Sort.antt =====
-- sort.Strings, sort.Slice and sort.SliceStable: a stable sort by a `less` function.
use herdr_telegram_agents.Common.{
  suc, ◌≡◌, refl, Bool, true, false, ◌||◌, List, [], ◌∷◌, arith, DecEq, ◌==◌, if◌then◌else◌, length,
  elem, count_if, All, Distinct, All-map, Bool-cases, inl, inr,
}

module _ {ℓ} {A : Type ℓ} (less : A → A → Bool) where
  abbrev pub insert_sorted : A → List A → List A
  insert_sorted x [] = x ∷ []
  insert_sorted x (y ∷ ys) =
      let rest = insert_sorted x ys in if less y x then y ∷ rest else x ∷ y ∷ ys

  -- Later elements go in first, so an earlier one that is equal ends before it.
  unfoldable pub sort : List A → List A
  sort [] = []
  sort (x ∷ xs) = insert_sorted x (sort xs)

  count_if-insert_sorted :
      (p : A → Bool) (x : A) (ys : List A) → count_if p (insert_sorted x ys) ≡ count_if p (x ∷ ys)
  count_if-insert_sorted p x [] = refl
  count_if-insert_sorted p x (y ∷ ys) = ground (arith, count_if-insert_sorted p x ys)

  pub count_if-sort : (p : A → Bool) (xs : List A) → count_if p (sort xs) ≡ count_if p xs
  unfolding sort
  count_if-sort p [] = refl
  count_if-sort p (x ∷ xs) =
      let s = count_if-insert_sorted p x (sort xs) in ground (arith, count_if-sort p xs)

  -- Nothing is less than what stands before it.
  abbrev pub IsSorted : List A → Type 0
  IsSorted [] = Unit
  IsSorted (x ∷ xs) = All (λ y. less y x ≡ false) xs × IsSorted xs

  length-insert_sorted : (x : A) (ys : List A) → length (insert_sorted x ys) ≡ suc (length ys)
  length-insert_sorted x [] = refl
  length-insert_sorted x (y ∷ ys) = ground (arith, length-insert_sorted x ys)

  pub length-sort : (xs : List A) → length (sort xs) ≡ length xs
  unfolding sort
  length-sort [] = refl
  length-sort (x ∷ xs) = ground (arith, length-sort xs, length-insert_sorted x (sort xs))

  All-insert_sorted {κ} :
      (P : A → Type κ) (x : A) (ys : List A) → P x → All P ys → All P (insert_sorted x ys)
  All-insert_sorted P x [] hx h = (hx, tt)
  All-insert_sorted P x (y ∷ ys) hx h = elim (Bool-cases (less y x)) [
    | inl before ↦ rw before (h.0, All-insert_sorted P x ys hx h.1)
    | inr after ↦ rw after (hx, h)
  ]

  pub All-sort {κ} : (P : A → Type κ) (xs : List A) → All P xs → All P (sort xs)
  unfolding sort
  All-sort P [] h = tt
  All-sort P (x ∷ xs) h = All-insert_sorted P x (sort xs) h.0 (All-sort P xs h.1)

  module _ (asym : (x y : A) → less y x ≡ true → less x y ≡ false)
      (negtrans : (x y z : A) → less y x ≡ false → less z y ≡ false → less z x ≡ false) where
    insert_sorted-IsSorted : (x : A) (ys : List A) → IsSorted ys → IsSorted (insert_sorted x ys)
    insert_sorted-IsSorted x [] h = (tt, tt)
    insert_sorted-IsSorted x (y ∷ ys) h = elim (Bool-cases (less y x)) [
      | inl before ↦ rw before (
        All-insert_sorted (λ z. less z y ≡ false) x ys (asym x y before) h.0,
        insert_sorted-IsSorted x ys h.1,
      )
      | inr after ↦ rw after ((after, All-map (λ z hz. negtrans x y z after hz) ys h.0), (h.0, h.1))
    ]

    pub sort-IsSorted : (xs : List A) → IsSorted (sort xs)
    unfolding sort
    sort-IsSorted [] = tt
    sort-IsSorted (x ∷ xs) = insert_sorted-IsSorted x (sort xs) (sort-IsSorted xs)

module _ {ℓ} {A : Type ℓ} ⦃e : DecEq A⦄ (less : A → A → Bool) where
  elem-insert_sorted :
      (a x : A) (ys : List A) → elem a (insert_sorted less x ys) ≡ (x == a || elem a ys)
  elem-insert_sorted a x [] = refl
  elem-insert_sorted a x (y ∷ ys) = ground (arith, elem-insert_sorted a x ys)

  pub elem-sort : (a : A) (xs : List A) → elem a (sort less xs) ≡ elem a xs
  unfolding sort
  elem-sort a [] = refl
  elem-sort a (x ∷ xs) = ground (arith, elem-sort a xs, elem-insert_sorted a x (sort less xs))

  insert_sorted-Distinct :
      (x : A) (ys : List A) → elem x ys ≡ false → Distinct ys → Distinct (insert_sorted less x ys)
  insert_sorted-Distinct x [] h d = (refl, tt)
  insert_sorted-Distinct x (y ∷ ys) h d =
      ground (arith, insert_sorted-Distinct x ys, elem-insert_sorted y x ys)

  pub sort-Distinct : (xs : List A) → Distinct xs → Distinct (sort less xs)
  unfolding sort
  sort-Distinct [] d = tt
  sort-Distinct (x ∷ xs) d =
      insert_sorted-Distinct x (sort less xs) (ground (arith, elem-sort x xs))
        (sort-Distinct xs d.1)
