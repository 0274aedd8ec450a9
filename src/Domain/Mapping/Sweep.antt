-- ===== src/Domain/Mapping/Sweep.antt =====
-- The lists that the reconciler and the stale-topic sweep work from, and the counts of /status.
use herdr_telegram_agents.Common.{
  ℕ, suc, ◌+◌, ◌≤◌, ◌≡◌, refl, ◌∙◌, Bool, true, false, not, ◌&&◌, ◌||◌, some, List, [], ◌∷◌, arith,
  if◌then◌else◌, length, nat_eq, ltb, elem, select, elem-select,
}
use herdr_telegram_agents.Common.Text.{Text, text_eq, text_lt_asym, text_lt_negtrans}
use herdr_telegram_agents.Common.GoMap.{GoMap, lookup}
use herdr_telegram_agents.Common.Sort.{IsSorted, sort-IsSorted, elem-sort}
use herdr_telegram_agents.Domain.Status.{live}
use herdr_telegram_agents.Domain.Key.{Key, key_eq, key_string}
use herdr_telegram_agents.Domain.Mapping.{
  Mapping, TopicEntry, Time, stored_keys, on_entry, is_stale, older_first, orphans, unclosed, stale,
  counts, count_loop, count_step, Counts,
}

module _ (m : Mapping) (alive : List Key) (now : Time) (max_age : ℕ) (k : Key) where
  elem-orphans : elem k (orphans m alive) ≡ (
      elem k (stored_keys m)
      && (on_entry m (λ e. live e.status && not e.muted) k && not (elem k alive)))
  unfolding orphans
  elem-orphans = elem-select _ k (stored_keys m)

  elem-unclosed : elem k (unclosed m) ≡ (
      elem k (stored_keys m)
      && on_entry m (λ e. not (live e.status) && not e.closed && not e.muted) k)
  unfolding unclosed
  elem-unclosed = elem-select _ k (stored_keys m)

  elem-stale :
      elem k (stale m now max_age) ≡ (elem k (stored_keys m) && on_entry m (is_stale now max_age) k)
  unfolding stale
  elem-stale =
      elem-sort (older_first m) k (select (on_entry m (is_stale now max_age)) (stored_keys m))
      ∙ elem-select _ k (stored_keys m)

  -- No key is in two of the lists of Orphans, Unclosed and Stale.
  pub sweeps_disjoint :
      ((elem k (orphans m alive) && elem k (unclosed m)) ≡ false)
      × ((elem k (orphans m alive) && elem k (stale m now max_age)) ≡ false)
      × ((elem k (unclosed m) && elem k (stale m now max_age)) ≡ false)
  sweeps_disjoint =
      let o = elem-orphans in let u = elem-unclosed in let s = elem-stale in ground arith

-- A key with a live entry whose agent is alive is in none of Orphans, Unclosed and Stale.
pub live_never_swept :
    (m : Mapping) (alive : List Key) (now : Time) (max_age : ℕ) (k : Key) (e : TopicEntry)
    → lookup (key_string k) m.topics ≡ some e
    → live e.status ≡ true
    → elem k alive ≡ true
    → (elem k (orphans m alive) || (elem k (unclosed m) || elem k (stale m now max_age))) ≡ false
live_never_swept m alive now max_age k e found l a =
    let o = elem-orphans m alive now max_age k in
    let u = elem-unclosed m alive now max_age k in
    let s = elem-stale m alive now max_age k in ground arith

older_first-asym : (m : Mapping) (a b : Key) → older_first m b a ≡ true → older_first m a b ≡ false
older_first-asym m a b h = ground (arith, text_lt_asym (key_string b) (key_string a))

older_first-negtrans :
    (m : Mapping) (a b c : Key)
    → older_first m b a ≡ false
    → older_first m c b ≡ false
    → older_first m c a ≡ false
older_first-negtrans m a b c h k =
    ground (arith, text_lt_negtrans (key_string a) (key_string b) (key_string c))

-- The list of Stale is in the order of the last change, and by key among equal times.
pub stale-IsSorted :
    (m : Mapping) (now : Time) (max_age : ℕ) → IsSorted (older_first m) (stale m now max_age)
unfolding stale
stale-IsSorted m now max_age =
    sort-IsSorted (older_first m) (older_first-asym m) (older_first-negtrans m)
      (select (on_entry m (is_stale now max_age)) (stored_keys m))

-- A stored key is in the list of Stale exactly when its entry is exited and closed and has not
-- changed for longer than the given age.
pub stale_exact :
    (m : Mapping) (now : Time) (max_age : ℕ) (k : Key) (e : TopicEntry)
    → lookup (key_string k) m.topics ≡ some e
    → elem k (stored_keys m) ≡ true
    → elem k (stale m now max_age)
      ≡ (not (live e.status) && (e.closed && ltb (e.updated_at + max_age) now))
stale_exact m now max_age k e found stored = let s = elem-stale m [] now max_age k in ground arith

module _ (f : TopicEntry → Bool) where
  abbrev tally : GoMap Text TopicEntry → ℕ
  tally [] = 0
  tally ((k, e) ∷ rest) = let n = tally rest in if f e then suc n else n

count_loop-tally :
    (topics : GoMap Text TopicEntry) (c : Counts)
    → count_loop topics c ≡ record {
      alive = c.alive + tally (λ e. live e.status) topics;
      exited = c.exited + tally (λ e. not (live e.status)) topics;
      muted = c.muted + tally (λ e. e.muted) topics;
    }
unfolding count_loop
count_loop-tally [] c = ground arith
count_loop-tally ((k, e) ∷ rest) c = count_loop-tally rest (count_step e c) ∙ ground arith

tally_split :
    (topics : GoMap Text TopicEntry)
    → tally (λ e. live e.status) topics + tally (λ e. not (live e.status)) topics ≡ length topics
tally_split [] = refl
tally_split ((k, e) ∷ rest) = ground (arith, tally_split rest)

tally-muted-le : (topics : GoMap Text TopicEntry) → tally (λ e. e.muted) topics ≤ length topics
tally-muted-le [] = omega arith
tally-muted-le ((k, e) ∷ rest) = ground (arith, tally-muted-le rest)

-- Counts counts every entry once, as live or as exited, and no more muted ones than there are
-- entries.
pub counts-length :
    (m : Mapping)
    → ((counts m).alive + (counts m).exited ≡ length m.topics)
      × ((counts m).muted ≤ length m.topics)
unfolding counts
counts-length m =
    let c = count_loop-tally m.topics (record { alive = 0; exited = 0; muted = 0 }) in
    let s = tally_split m.topics in let u = tally-muted-le m.topics in ground arith
