-- ===== src/Domain/Threads/Pick.antt =====
-- `KeyForThread` and `DedupeThreads` choose the same key for a thread: the newest.
use herdr_telegram_agents.Common.{
  ◌≡◌, refl, subst, ap, ◌∙◌, true, false, ◌&&◌, ◌⊎◌, inl, inr, Option, none, some, List, [], ◌∷◌,
  arith, if◌then◌else◌, elem, All, Option-cases, Bool-cases,
}
use herdr_telegram_agents.Common.Text.{Text, text_eq}
use herdr_telegram_agents.Common.Int.{ℤ, int_eq}
use herdr_telegram_agents.Common.GoMap.{GoMap, lookup, lookup-insert}
use herdr_telegram_agents.Domain.Key.{is_empty}
use herdr_telegram_agents.Domain.Mapping.{TopicEntry}
use herdr_telegram_agents.Domain.Threads.{
  newer, on_thread, thread_step, thread_loop, better, best_step, best_loop,
}

abbrev pub Topics : Type 0
Topics = GoMap Text TopicEntry

-- The choice that both loops make for one thread.
pub pick_step : Topics → ℤ → Text → Option Text → Option Text
pick_step topics t k o = if on_thread topics t k && better topics k o then some k else o

pub pick : Topics → ℤ → List Text → Option Text → Option Text
pick topics t [] o = o
pick topics t (k ∷ ks) o = pick topics t ks (pick_step topics t k o)

best_step-pick :
    (topics : Topics) (t : ℤ) (k : Text) (best : GoMap ℤ Text)
    → lookup t (best_step topics k best) ≡ pick_step topics t k (lookup t best)
unfolding best_step pick_step
best_step-pick topics t k best = elim (Option-cases (lookup k topics)) [
  | inl absent ↦ ground arith
  | inr (e, found) ↦ ground (arith, lookup-insert e.thread_id t k best)
]

pub best_loop-pick :
    (topics : Topics) (t : ℤ) (ks : List Text) (best : GoMap ℤ Text)
    → lookup t (best_loop topics ks best) ≡ pick topics t ks (lookup t best)
unfolding best_loop pick
best_loop-pick topics t [] best = refl
best_loop-pick topics t (k ∷ ks) best =
    best_loop-pick topics t ks (best_step topics k best)
    ∙ ap (pick topics t ks) (best_step-pick topics t k best)

abbrev pub text_of : Option Text → Text
text_of none = []
text_of (some k) = k

abbrev pub NonEmpty : Option Text → Type 0
NonEmpty none = Unit
NonEmpty (some k) = is_empty k ≡ false

thread_step-pick :
    (topics : Topics) (t : ℤ) (k : Text) (o : Option Text)
    → NonEmpty o
    → thread_step topics t k (text_of o) ≡ text_of (pick_step topics t k o)
unfolding thread_step pick_step
thread_step-pick topics t k none n = ground arith
thread_step-pick topics t k (some c) n = ground arith

pick_step-NonEmpty :
    (topics : Topics) (t : ℤ) (k : Text) (o : Option Text)
    → is_empty k ≡ false
    → NonEmpty o
    → NonEmpty (pick_step topics t k o)
unfolding pick_step
pick_step-NonEmpty topics t k o h n =
    elim (Bool-cases (on_thread topics t k && better topics k o)) [
      | inl wins ↦ rw wins h
      | inr loses ↦ rw loses n
    ]

pub thread_loop-pick :
    (topics : Topics) (t : ℤ) (ks : List Text) (o : Option Text)
    → All (λ k. is_empty k ≡ false) ks
    → NonEmpty o
    → thread_loop topics t ks (text_of o) ≡ text_of (pick topics t ks o)
unfolding thread_loop pick
thread_loop-pick topics t [] o h n = refl
thread_loop-pick topics t (k ∷ ks) o h n =
    ap (thread_loop topics t ks) (thread_step-pick topics t k o n)
    ∙ thread_loop-pick topics t ks (pick_step topics t k o) h.1
        (pick_step-NonEmpty topics t k o h.0 n)

pub pick-NonEmpty :
    (topics : Topics) (t : ℤ) (ks : List Text) (o : Option Text)
    → All (λ k. is_empty k ≡ false) ks
    → NonEmpty o
    → NonEmpty (pick topics t ks o)
unfolding pick
pick-NonEmpty topics t [] o h n = n
pick-NonEmpty topics t (k ∷ ks) o h n =
    pick-NonEmpty topics t ks (pick_step topics t k o) h.1 (pick_step-NonEmpty topics t k o h.0 n)

-- `newer` is a strict weak order on the keys of one thread.
newer-negtrans :
    (topics : Topics) (t : ℤ) (a b c : Text)
    → on_thread topics t b ≡ true
    → newer topics a b ≡ false
    → newer topics b c ≡ false
    → newer topics a c ≡ false
unfolding newer
newer-negtrans topics t a b c on h k = ground arith

newer_irrefl : (topics : Topics) (a : Text) → newer topics a a ≡ false
unfolding newer
newer_irrefl topics a = ground arith

newer-asym : (topics : Topics) (a b : Text) → newer topics a b ≡ true → newer topics b a ≡ false
unfolding newer
newer-asym topics a b h = ground arith

abbrev pub OnThread : Topics → ℤ → Option Text → Type 0
OnThread topics t none = Unit
OnThread topics t (some c) = on_thread topics t c ≡ true

pick_step-OnThread :
    (topics : Topics) (t : ℤ) (k : Text) (o : Option Text)
    → OnThread topics t o
    → OnThread topics t (pick_step topics t k o)
unfolding pick_step
pick_step-OnThread topics t k o h = elim (Bool-cases (on_thread topics t k && better topics k o)) [
  | inl wins ↦ rw wins (ground arith)
  | inr loses ↦ rw loses h
]

-- `w` is what is picked: it is on the thread, and no key that was there beats it.
pub pick-OnThread :
    (topics : Topics) (t : ℤ) (ks : List Text) (o : Option Text)
    → OnThread topics t o
    → OnThread topics t (pick topics t ks o)
unfolding pick
pick-OnThread topics t [] o h = h
pick-OnThread topics t (k ∷ ks) o h =
    pick-OnThread topics t ks (pick_step topics t k o) (pick_step-OnThread topics t k o h)

-- What is held is kept, or gives way to a newer key.
pick-held :
    (topics : Topics) (t : ℤ) (ks : List Text) (c : Text)
    → on_thread topics t c ≡ true
    → (w : Text) × (pick topics t ks (some c) ≡ some w) × (newer topics c w ≡ false)
unfolding pick pick_step
pick-held topics t [] c on = (c, refl, newer_irrefl topics c)
pick-held topics t (k ∷ ks) c on = elim (Bool-cases (on_thread topics t k && newer topics k c)) [
  | inl wins ↦
      let (w, found, behind) = pick-held topics t ks k (ground arith) in
      (
        w,
        rw wins found,
        newer-negtrans topics t c k w (ground arith) (newer-asym topics k c (ground arith)) behind,
      )
  | inr loses ↦ let (w, found, behind) = pick-held topics t ks c on in (w, rw loses found, behind)
]

pick_step_here :
    (topics : Topics) (t : ℤ) (k : Text) (o : Option Text)
    → OnThread topics t o
    → on_thread topics t k ≡ true
    → (c : Text) × (pick_step topics t k o ≡ some c)
      × (on_thread topics t c ≡ true)
      × (newer topics k c ≡ false)
unfolding pick_step
pick_step_here topics t k none h on = (k, rw on, on, newer_irrefl topics k)
pick_step_here topics t k (some c) h on = elim (Bool-cases (newer topics k c)) [
  | inl wins ↦ (k, rw (on, wins), on, newer_irrefl topics k)
  | inr loses ↦ (c, rw (on, loses), h, loses)
]

pub pick-best :
    (topics : Topics) (t : ℤ) (ks : List Text) (o : Option Text) (k : Text)
    → OnThread topics t o
    → elem k ks ≡ true
    → on_thread topics t k ≡ true
    → (w : Text) × (pick topics t ks o ≡ some w) × (newer topics k w ≡ false)
unfolding pick
pick-best topics t [] o k h m on = ground arith
pick-best topics t (j ∷ ks) o k h m on = elim (text_eq.dec j k) [
  | yes here ↦
      let (c, held, on', behind) = pick_step_here topics t j o h (rw here on) in
      let (w, found, after) = pick-held topics t ks c on' in
      (w, rw held found, newer-negtrans topics t k c w on' (rw (← here) behind) after)
  | no other ↦
      pick-best topics t ks (pick_step topics t j o) k (pick_step-OnThread topics t j o h)
        (ground arith) on
]

pub pick-none :
    (topics : Topics) (t : ℤ) (ks : List Text)
    → ((k : Text) → elem k ks ≡ true → on_thread topics t k ≡ false)
    → pick topics t ks none ≡ none
unfolding pick pick_step
pick-none topics t [] h = refl
pick-none topics t (k ∷ ks) h =
    rw (h k (ground arith)) (pick-none topics t ks (λ j m. h j (ground arith)))

-- What is picked was in the list.
pub pick-elem :
    (topics : Topics) (t : ℤ) (ks : List Text) (o : Option Text) (w : Text)
    → pick topics t ks o ≡ some w
    → (elem w ks ≡ true) ⊎ (o ≡ some w)
unfolding pick pick_step
pick-elem topics t [] o w h = inr h
pick-elem topics t (k ∷ ks) o w h = elim (pick-elem topics t ks (pick_step topics t k o) w h) [
  | inl later ↦ inl (ground arith)
  | inr now ↦ ground arith
]

-- A thread of one key picks that key.
pub pick_only :
    (topics : Topics) (t : ℤ) (ks : List Text) (w : Text)
    → ((k : Text) → elem k ks ≡ true → on_thread topics t k ≡ true → k ≡ w)
    → elem w ks ≡ true
    → on_thread topics t w ≡ true
    → pick topics t ks none ≡ some w
pick_only topics t ks w only m on =
    let (c, found, behind) = pick-best topics t ks none w tt m on in
    let here = subst (OnThread topics t) found (pick-OnThread topics t ks none tt) in
    let there = pick-elem topics t ks none c found in
    found ∙ ap some (only c (elim there [ inl i ↦ i | inr i ↦ ground arith ]) here)
