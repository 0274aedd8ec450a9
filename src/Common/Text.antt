-- ===== src/Common/Text.antt =====
-- Go strings: sequences of bytes, and what the program calls of the package `strings`.
use Prim.Native.Char.{code}
use Prim.Native.Nat.{compare, Ordering}
use herdr_telegram_agents.Common.{
  ℕ, ◌<◌, String, ◌≡◌, ◌≢◌, refl, inl, inr, Bool, true, false, Option, none, some, List, [], ◌∷◌,
  ◌++◌, arith, ℕ_discrete, DecEq, ◌==◌, nat_eq, if◌then◌else◌, All, elem, Bool-cases, inl, inr,
}

abbrev pub Text : Type 0
Text = List ℕ

-- The bytes of an ASCII literal.
abbrev pub codes : String → Text
codes String.[] = []
codes (String.◌∷◌ c s) = code c ∷ codes s

unfoldable pub Text-discrete : Discrete Text
unfolding ℕ_discrete
Text-discrete = hlevel ℕ_discrete

instance abbrev pub text_eq : DecEq Text
text_eq = record { dec = Text-discrete }

-- Every byte of a real string is below 256.
abbrev pub IsBytes : Text → Type 0
IsBytes = All (λ b. b < 256)

-- a < b on strings: bytewise, a prefix first.
abbrev pub text_lt : Text → Text → Bool
text_lt [] [] = false
text_lt [] (y ∷ ys) = true
text_lt (x ∷ xs) [] = false
text_lt (x ∷ xs) (y ∷ ys) =
    let rest = text_lt xs ys in
    elim (compare x y) [ Ordering.lt ↦ true | Ordering.eq ↦ rest | Ordering.gt ↦ false ]

pub text_lt_irrefl : (s : Text) → text_lt s s ≡ false
text_lt_irrefl [] = refl
text_lt_irrefl (x ∷ s) = ground (arith, text_lt_irrefl s)

pub text_lt_trans : (a b c : Text) → text_lt a b ≡ true → text_lt b c ≡ true → text_lt a c ≡ true
text_lt_trans [] [] c h k = ground arith
text_lt_trans [] (y ∷ b) [] h k = ground arith
text_lt_trans [] (y ∷ b) (z ∷ c) h k = refl
text_lt_trans (x ∷ a) [] c h k = ground arith
text_lt_trans (x ∷ a) (y ∷ b) [] h k = ground arith
text_lt_trans (x ∷ a) (y ∷ b) (z ∷ c) h k = ground (arith, text_lt_trans a b c)

pub text_lt_total : (a b : Text) → a ≢ b → text_lt a b ≡ false → text_lt b a ≡ true
text_lt_total [] [] n h = absurd (n refl)
text_lt_total [] (y ∷ b) n h = ground arith
text_lt_total (x ∷ a) [] n h = refl
text_lt_total (x ∷ a) (y ∷ b) n h = ground (arith, text_lt_total a b)

pub text_lt_asym : (a b : Text) → text_lt a b ≡ true → text_lt b a ≡ false
text_lt_asym [] [] h = refl
text_lt_asym [] (y ∷ b) h = refl
text_lt_asym (x ∷ a) [] h = ground arith
text_lt_asym (x ∷ a) (y ∷ b) h = ground (arith, text_lt_asym a b)

pub text_lt_negtrans :
    (a b c : Text) → text_lt b a ≡ false → text_lt c b ≡ false → text_lt c a ≡ false
text_lt_negtrans [] [] c h k = k
text_lt_negtrans [] (y ∷ b) [] h k = refl
text_lt_negtrans [] (y ∷ b) (z ∷ c) h k = refl
text_lt_negtrans (x ∷ a) [] c h k = ground arith
text_lt_negtrans (x ∷ a) (y ∷ b) [] h k = ground arith
text_lt_negtrans (x ∷ a) (y ∷ b) (z ∷ c) h k = ground (arith, text_lt_negtrans a b c)

-- strings.HasPrefix and the rest behind the prefix (strings.TrimPrefix where it is one).
abbrev pub strip_prefix? : Text → Text → Option Text
strip_prefix? [] s = some s
strip_prefix? (p ∷ ps) [] = none
strip_prefix? (p ∷ ps) (b ∷ s) = let rest = strip_prefix? ps s in if p == b then rest else none

-- strings.Cut at a one-byte separator.
abbrev pub cut : ℕ → Text → Option (Text × Text)
cut sep [] = none
cut sep (b ∷ s) =
    let rest = cut sep s in
    if b == sep
    then some ([], s)
    else elim rest [ none ↦ none | some (before, after) ↦ some (b ∷ before, after) ]

abbrev glue : ℕ → List Text → List Text
glue b [] = (b ∷ []) ∷ []
glue b (p ∷ ps) = (b ∷ p) ∷ ps

-- strings.Split at a one-byte separator.
unfoldable pub split : ℕ → Text → List Text
split sep [] = [] ∷ []
split sep (b ∷ s) = let rest = split sep s in if b == sep then [] ∷ rest else glue b rest

abbrev pub join : ℕ → List Text → Text
join sep [] = []
join sep (p ∷ []) = p
join sep (p ∷ q ∷ ps) = p ++ (sep ∷ join sep (q ∷ ps))

pub strip_prefix?-eq : (p s r : Text) → strip_prefix? p s ≡ some r → s ≡ p ++ r
strip_prefix?-eq [] s r h = ground arith
strip_prefix?-eq (c ∷ p) [] r h = ground arith
strip_prefix?-eq (c ∷ p) (b ∷ s) r h = ground (arith, strip_prefix?-eq p s r)

pub strip_prefix?-append : (p s : Text) → strip_prefix? p (p ++ s) ≡ some s
strip_prefix?-append [] s = refl
strip_prefix?-append (c ∷ p) s = ground (arith, strip_prefix?-append p s)

pub cut-append :
    (sep : ℕ) (a b : Text) → elem sep a ≡ false → cut sep (a ++ (sep ∷ b)) ≡ some (a, b)
cut-append sep [] b h = ground arith
cut-append sep (c ∷ a) b h = ground (arith, cut-append sep a b)

pub cut-eq :
    (sep : ℕ) (s a b : Text) → cut sep s ≡ some (a, b) → (s ≡ a ++ (sep ∷ b)) × (elem sep a ≡ false)
cut-eq sep [] a b h = ground arith
cut-eq sep (c ∷ s) [] b h = ground arith
cut-eq sep (c ∷ s) (d ∷ a) b h = ground (arith, cut-eq sep s a b)

pub split_one : (sep : ℕ) (a : Text) → elem sep a ≡ false → split sep a ≡ a ∷ []
unfolding split
split_one sep [] h = refl
split_one sep (c ∷ a) h = ground (arith, split_one sep a)

pub split-append :
    (sep : ℕ) (a b : Text) → elem sep a ≡ false → split sep (a ++ (sep ∷ b)) ≡ a ∷ split sep b
unfolding split
split-append sep [] b h = ground arith
split-append sep (c ∷ a) b h = ground (arith, split-append sep a b)

join-glue : (sep b : ℕ) (ps : List Text) → join sep (glue b ps) ≡ b ∷ join sep ps
join-glue sep b [] = refl
join-glue sep b (p ∷ []) = refl
join-glue sep b (p ∷ q ∷ ps) = refl

split_cons : (sep : ℕ) (s : Text) → (p : Text) × (ps : List Text) × (split sep s ≡ p ∷ ps)
unfolding split
split_cons sep [] = ([], [], refl)
split_cons sep (b ∷ s) =
    let (p, ps, e) = split_cons sep s in
    elim (Bool-cases (b == sep)) [
      | inl h ↦ ([], split sep s, rw h)
      | inr h ↦ (b ∷ p, ps, rw (h, e))
    ]

-- Splitting and joining again gives the text back.
pub join-split : (sep : ℕ) (s : Text) → join sep (split sep s) ≡ s
unfolding split
join-split sep [] = refl
join-split sep (b ∷ s) =
    let (p, ps, e) = split_cons sep s in
    ground (arith, e, join-split sep s, join-glue sep b (split sep s))
