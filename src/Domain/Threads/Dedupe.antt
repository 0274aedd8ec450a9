-- ===== src/Domain/Threads/Dedupe.antt =====
-- What `DedupeThreads` leaves.
use herdr_telegram_agents.Common.{
  ◌+◌, ◌≡◌, refl, sym, ap, ◌∙◌, true, false, inl, inr, Option, none, some, subst, List, [], ◌∷◌,
  arith, if◌then◌else◌, elem, All, Distinct, length, Option-cases, Bool-cases,
}
use herdr_telegram_agents.Common.Text.{Text, text_eq, text_lt}
use herdr_telegram_agents.Common.Int.{ℤ, int_eq}
use herdr_telegram_agents.Common.GoMap.{
  GoMap, IsMap, keys, lookup, has, has_of_lookup, lookup-none_of_absent,
}
use herdr_telegram_agents.Common.Sort.{elem-sort, All-sort}
use herdr_telegram_agents.Domain.Key.{Key, is_empty, parse_key}
use herdr_telegram_agents.Domain.Mapping.{Mapping, TopicEntry, sorted_keys}
use herdr_telegram_agents.Domain.Threads.{
  newer_entry, newer, on_thread, key_for_thread, best_loop, is_best, drop_loop, dedupe_threads,
}
use herdr_telegram_agents.Domain.Threads.Pick.{
  Topics, pick, best_loop-pick, text_of, NonEmpty, pick-NonEmpty, thread_loop-pick, OnThread,
  pick-OnThread, pick-best, pick-none, pick_only,
}

abbrev Best : Type 0
Best = GoMap ℤ Text

abbrev kept : Best → Topics → Topics
kept best topics = (drop_loop best topics).0

kept_absent :
    (best : Best) (topics : Topics) (k : Text)
    → has k topics ≡ false
    → has k (kept best topics) ≡ false
unfolding drop_loop
kept_absent best [] k h = refl
kept_absent best ((j, e) ∷ topics) k h = ground (arith, kept_absent best topics k)

abbrev stays : Best → Text → Option TopicEntry → Option TopicEntry
stays best k none = none
stays best k (some e) = if is_best best k e then some e else none

lookup-kept :
    (best : Best) (topics : Topics) (k : Text)
    → IsMap topics
    → lookup k (kept best topics) ≡ stays best k (lookup k topics)
unfolding drop_loop
lookup-kept best [] k d = refl
lookup-kept best ((j, e) ∷ topics) k d = elim (text_eq.dec j k) [
  | yes here ↦ ground (arith, kept_absent best topics k, lookup-none_of_absent k (kept best topics))
  | no other ↦ ground (arith, lookup-kept best topics k d.1)
]

kept-IsMap : (best : Best) (topics : Topics) → IsMap topics → IsMap (kept best topics)
unfolding drop_loop
kept-IsMap best [] d = tt
kept-IsMap best ((j, e) ∷ topics) d =
    ground (arith, kept-IsMap best topics d.1, kept_absent best topics j)

removed-length :
    (best : Best) (topics : Topics)
    → (drop_loop best topics).1 + length (kept best topics) ≡ length topics
unfolding drop_loop
removed-length best [] = refl
removed-length best ((j, e) ∷ topics) = ground (arith, removed-length best topics)

abbrev pub threads : Topics → List ℤ
threads [] = []
threads ((k, e) ∷ topics) = e.thread_id ∷ threads topics

-- The entry that stays for a thread stands under the thread's best key.
kept-best_has :
    (best : Best) (topics : Topics) (t : ℤ) (w : Text)
    → lookup t best ≡ some w
    → elem t (threads (kept best topics)) ≡ true
    → has w topics ≡ true
unfolding drop_loop
kept-best_has best [] t w h m = ground arith
kept-best_has best ((j, e) ∷ topics) t w h m = ground (arith, kept-best_has best topics t w)

kept-Distinct :
    (best : Best) (topics : Topics) → IsMap topics → Distinct (threads (kept best topics))
unfolding drop_loop
kept-Distinct best [] d = tt
kept-Distinct best ((j, e) ∷ topics) d =
    ground (arith, kept-Distinct best topics d.1, kept-best_has best topics e.thread_id j)

module _ (m : Mapping) where
  abbrev best : Best
  best = best_loop m.topics (sorted_keys m) []

  abbrev winner : ℤ → Option Text
  winner t = pick m.topics t (sorted_keys m) none

  best-winner : (t : ℤ) → lookup t best ≡ winner t
  best-winner t = best_loop-pick m.topics t (sorted_keys m) []

  sorted_has : (k : Text) → elem k (sorted_keys m) ≡ has k m.topics
  unfolding sorted_keys
  sorted_has k = elem-sort text_lt k (keys m.topics)

  topics-dedupe : (dedupe_threads m).0.topics ≡ kept best m.topics
  unfolding dedupe_threads
  topics-dedupe = refl

  -- Every removed entry is counted.
  pub dedupe-length : (dedupe_threads m).1 + length (dedupe_threads m).0.topics ≡ length m.topics
  unfolding dedupe_threads
  dedupe-length = removed-length best m.topics

  module _ (d : IsMap m.topics) where
    -- After DedupeThreads on a mapping without repeated keys, no two entries have the same thread
    -- id.
    pub dedupe-Distinct : Distinct (threads (dedupe_threads m).0.topics)
    dedupe-Distinct = rw topics-dedupe (kept-Distinct best m.topics d)

    winner_stays :
        (t : ℤ) (w : Text)
        → winner t ≡ some w
        → (f : TopicEntry) × (lookup w m.topics ≡ some f)
          × (lookup w (kept best m.topics) ≡ some f)
          × (f.thread_id ≡ t)
    winner_stays t w h =
        let on : on_thread m.topics t w ≡ true =
          subst (OnThread m.topics t) h (pick-OnThread m.topics t (sorted_keys m) none tt) in
        let held = best-winner t in
        elim (Option-cases (lookup w m.topics)) [
          | inl absent ↦ ground arith
          | inr (f, found) ↦ (f, found, ground (arith, lookup-kept best m.topics w d), ground arith)
        ]

    -- For every entry of a mapping without repeated keys, DedupeThreads keeps an unchanged entry
    -- of the same thread that this one is not newer than.
    pub dedupe_newest :
        (k : Text) (e : TopicEntry)
        → lookup k m.topics ≡ some e
        → (w : Text) × (f : TopicEntry) × (lookup w (dedupe_threads m).0.topics ≡ some f)
          × (lookup w m.topics ≡ some f)
          × (f.thread_id ≡ e.thread_id)
          × (newer_entry e f ≡ false)
    dedupe_newest k e found = rw topics-dedupe (
        let (w, won, behind) =
          pick-best m.topics e.thread_id (sorted_keys m) none k tt
            (rw sorted_has (has_of_lookup k m.topics e found)) (ground arith) in
        let (f, there, stay, thread) = winner_stays e.thread_id w won in
        (w, f, stay, there, thread, unfold newer in ground arith))

-- No entry stands under the empty string, which is no key's.
abbrev pub KeysNonEmpty : Mapping → Type 0
KeysNonEmpty m = All (λ k. is_empty k ≡ false) (keys m.topics)

abbrev read_key : Option Text → Option Key
read_key none = none
read_key (some w) = parse_key w

abbrev key_of_text : Text → Option Key
key_of_text s = if is_empty s then none else parse_key s

key_of_text-text_of : (o : Option Text) → NonEmpty o → key_of_text (text_of o) ≡ read_key o
key_of_text-text_of none n = refl
key_of_text-text_of (some w) n = rw n

module _ (m : Mapping) (n : KeysNonEmpty m) where
  sorted_NonEmpty : All (λ k. is_empty k ≡ false) (sorted_keys m)
  unfolding sorted_keys
  sorted_NonEmpty = All-sort text_lt (λ k. is_empty k ≡ false) (keys m.topics) n

  key_for_thread-winner : (t : ℤ) → key_for_thread m t ≡ read_key (winner m t)
  unfolding key_for_thread
  key_for_thread-winner t =
      ap key_of_text (thread_loop-pick m.topics t (sorted_keys m) none sorted_NonEmpty tt)
      ∙ key_of_text-text_of (winner m t)
          (pick-NonEmpty m.topics t (sorted_keys m) none sorted_NonEmpty tt)

kept-cons :
    (best : Best) (j : Text) (e : TopicEntry) (topics : Topics)
    → kept best ((j, e) ∷ topics)
      ≡ (if is_best best j e then (j, e) ∷ kept best topics else kept best topics)
unfolding drop_loop
kept-cons best j e topics = ground arith

kept-All :
    (P : Text → Type 0) (best : Best) (topics : Topics)
    → All P (keys topics)
    → All P (keys (kept best topics))
unfolding drop_loop
kept-All P best [] h = tt
kept-All P best ((j, e) ∷ topics) h = elim (Bool-cases (is_best best j e)) [
  | inl stays ↦ rw (kept-cons, stays) (h.0, kept-All P best topics h.1)
  | inr goes ↦ rw (kept-cons, goes) (kept-All P best topics h.1)
]

module _ (m : Mapping) (d : IsMap m.topics) where
  abbrev m' : Mapping
  m' = (dedupe_threads m).0

  on_thread-kept :
      (t : ℤ) (k : Text)
      → on_thread (kept (best m) m.topics) t k ≡ true
      → (on_thread m.topics t k ≡ true) × (winner m t ≡ some k)
  on_thread-kept t k h =
      let stay = lookup-kept (best m) m.topics k d in let chosen = best-winner m t in ground arith

  winner-dedupe : (t : ℤ) → winner m' t ≡ winner m t
  winner-dedupe t = elim (Option-cases (winner m t)) [
    | inl nobody ↦ rw nobody (
        rw (topics-dedupe m) (
          pick-none (kept (best m) m.topics) t (sorted_keys m') λ k _.
            elim (Bool-cases (on_thread (kept (best m) m.topics) t k)) [
              | inl on ↦ absurd (let h = on_thread-kept t k on in ground arith)
              | inr off ↦ off
            ]))
    | inr (w, won) ↦
        let (f, there, stay, thread) = winner_stays m d t w won in
        rw won (
          rw (topics-dedupe m) (
            pick_only (kept (best m) m.topics) t (sorted_keys m') w
              (λ k _ on. let h = on_thread-kept t k on in ground arith)
              (sorted_has m' w
                ∙ ap (has w) (topics-dedupe m)
                ∙ has_of_lookup w (kept (best m) m.topics) f stay)
              (ground arith)))
  ]

  -- In a mapping without a repeated or empty key, DedupeThreads does not change which agent
  -- KeyForThread finds for any thread.
  pub key_for_thread-dedupe : KeysNonEmpty m → (t : ℤ) → key_for_thread m' t ≡ key_for_thread m t
  key_for_thread-dedupe n t =
      key_for_thread-winner m' (rw (topics-dedupe m) (kept-All _ (best m) m.topics n)) t
      ∙ ap read_key (winner-dedupe t)
      ∙ sym (key_for_thread-winner m n t)
