-- ===== src/Common/GoMap.antt =====
-- Go's `map[K]V`: the entries in some order, which is the order that a `range` over it happens to
-- take. A write to a key that is there keeps its place.
use herdr_telegram_agents.Common.{
  suc, ◌≡◌, refl, Bool, true, false, ◌||◌, not, ◌&&◌, Option, none, some, List, [], ◌∷◌, arith,
  DecEq, ◌==◌, if◌then◌else◌, Bool-cases, inl, inr, length, elem, Distinct,
}

abbrev pub GoMap {ℓ κ} : Type ℓ → Type κ → Type (ℓ ⊔ κ)
GoMap K V = List (K × V)

module _ {ℓ κ} {K : Type ℓ} {V : Type κ} where
  abbrev pub keys : GoMap K V → List K
  keys [] = []
  keys ((k, v) ∷ m) = k ∷ keys m

module _ {ℓ κ} {K : Type ℓ} {V : Type κ} ⦃e : DecEq K⦄ where
  -- v, ok := m[k]
  abbrev pub lookup : K → GoMap K V → Option V
  lookup k [] = none
  lookup k ((j, v) ∷ m) = if j == k then some v else lookup k m

  abbrev pub has : K → GoMap K V → Bool
  has k m = elem k (keys m)

  -- m[k] = v
  abbrev pub insert : K → V → GoMap K V → GoMap K V
  insert k v [] = (k, v) ∷ []
  insert k v ((j, w) ∷ m) = if j == k then (j, v) ∷ m else (j, w) ∷ insert k v m

  -- delete(m, k)
  abbrev pub delete : K → GoMap K V → GoMap K V
  delete k [] = []
  delete k ((j, v) ∷ m) = let rest = delete k m in if j == k then rest else (j, v) ∷ rest

  -- One entry for a key.
  abbrev pub IsMap : GoMap K V → Type 0
  IsMap m = Distinct (keys m)

  pub lookup-insert :
      (k j : K) (v : V) (m : GoMap K V)
      → lookup j (insert k v m) ≡ (if k == j then some v else lookup j m)
  lookup-insert k j v [] = refl
  lookup-insert k j v ((i, w) ∷ m) = ground (arith, lookup-insert k j v m)

  pub lookup-delete :
      (k j : K) (m : GoMap K V) → lookup j (delete k m) ≡ (if k == j then none else lookup j m)
  lookup-delete k j [] = ground arith
  lookup-delete k j ((i, w) ∷ m) = ground (arith, lookup-delete k j m)

  pub lookup-none_of_absent : (k : K) (m : GoMap K V) → has k m ≡ false → lookup k m ≡ none
  lookup-none_of_absent k [] h = refl
  lookup-none_of_absent k ((j, v) ∷ m) h = ground (arith, lookup-none_of_absent k m)

  pub has_of_lookup : (k : K) (m : GoMap K V) (v : V) → lookup k m ≡ some v → has k m ≡ true
  has_of_lookup k [] v h = ground arith
  has_of_lookup k ((j, w) ∷ m) v h = ground (arith, has_of_lookup k m v)

  pub lookup_of_has : (k : K) (m : GoMap K V) → has k m ≡ true → (v : V) × (lookup k m ≡ some v)
  lookup_of_has k [] h = ground arith
  lookup_of_has k ((j, w) ∷ m) h = elim (Bool-cases (j == k)) [
    | inl here ↦ (w, rw here)
    | inr there ↦ let (v, found) = lookup_of_has k m (ground arith) in (v, rw there found)
  ]

  pub has-insert : (k j : K) (v : V) (m : GoMap K V) → has j (insert k v m) ≡ (k == j || has j m)
  has-insert k j v [] = refl
  has-insert k j v ((i, w) ∷ m) = ground (arith, has-insert k j v m)

  pub has-delete : (k j : K) (m : GoMap K V) → has j (delete k m) ≡ (not (k == j) && has j m)
  has-delete k j [] = ground arith
  has-delete k j ((i, w) ∷ m) = ground (arith, has-delete k j m)

  pub insert-IsMap : (k : K) (v : V) (m : GoMap K V) → IsMap m → IsMap (insert k v m)
  insert-IsMap k v [] d = (refl, tt)
  insert-IsMap k v ((j, w) ∷ m) d = ground (arith, insert-IsMap k v m d.1, has-insert k j v m)

  pub delete-IsMap : (k : K) (m : GoMap K V) → IsMap m → IsMap (delete k m)
  delete-IsMap k [] d = tt
  delete-IsMap k ((j, w) ∷ m) d = ground (arith, delete-IsMap k m d.1, has-delete k j m)

  pub length-insert :
      (k : K) (v : V) (m : GoMap K V)
      → length (insert k v m) ≡ (if has k m then length m else suc (length m))
  length-insert k v [] = refl
  length-insert k v ((j, w) ∷ m) = ground (arith, length-insert k v m)

  delete_absent : (k : K) (m : GoMap K V) → has k m ≡ false → delete k m ≡ m
  delete_absent k [] h = refl
  delete_absent k ((j, w) ∷ m) h = ground (arith, delete_absent k m)

  pub length-delete :
      (k : K) (m : GoMap K V)
      → IsMap m
      → length m ≡ (if has k m then suc (length (delete k m)) else length (delete k m))
  length-delete k [] d = refl
  length-delete k ((j, w) ∷ m) d = ground (arith, length-delete k m d.1, delete_absent k m)

  -- Writing what is there changes nothing.
  pub insert_same : (k : K) (v : V) (m : GoMap K V) → lookup k m ≡ some v → insert k v m ≡ m
  insert_same k v [] h = ground arith
  insert_same k v ((j, w) ∷ m) h = ground (arith, insert_same k v m)

  -- A second write to a key is the only one.
  pub insert-insert : (k : K) (v w : V) (m : GoMap K V) → insert k w (insert k v m) ≡ insert k w m
  insert-insert k v w [] = ground arith
  insert-insert k v w ((j, u) ∷ m) = ground (arith, insert-insert k v w m)
