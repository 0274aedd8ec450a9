-- ===== src/Domain/Threads.antt =====
-- internal/domain/mapping.go, KeyForThread and DedupeThreads: entries that claim the same thread.
pub mod Pick
pub mod Dedupe
use herdr_telegram_agents.Common.{
  ℕ, zero, suc, ◌+◌, Bool, true, false, not, ◌&&◌, ◌||◌, Option, none, some, List, [], ◌∷◌, nat_eq,
  ◌==◌, ltb, leb, if◌then◌else◌, select, elem, length,
}
use herdr_telegram_agents.Common.Text.{Text, text_eq, text_lt}
use herdr_telegram_agents.Common.Int.{ℤ, int_eq}
use herdr_telegram_agents.Common.GoMap.{GoMap, keys, lookup, insert, delete}
use herdr_telegram_agents.Common.Sort.{sort}
use herdr_telegram_agents.Domain.Status.{Status, status_eq, exited, live, strip_prefix}
use herdr_telegram_agents.Domain.Key.{Key, key_eq, key_string, parse_key, is_empty}
use herdr_telegram_agents.Domain.Agent.{Agent, desired}
use herdr_telegram_agents.Domain.Mapping.{Mapping, TopicEntry, is_nil, sorted_keys}

-- `newer` on the two entries.
abbrev pub newer_entry : TopicEntry → TopicEntry → Bool
newer_entry ea eb =
    if not (ea.updated_at == eb.updated_at)
    then ltb eb.updated_at ea.updated_at
    else live ea.status && not (live eb.status)

-- Both keys are in the map wherever the program asks; a nil pointer is not modelled.
unfoldable pub newer : GoMap Text TopicEntry → Text → Text → Bool
newer topics a b = elim (lookup a topics) [
  | none ↦ false
  | some ea ↦ elim (lookup b topics) [ none ↦ false | some eb ↦ newer_entry ea eb ]
]

abbrev pub on_thread : GoMap Text TopicEntry → ℤ → Text → Bool
on_thread topics thread key = elim (lookup key topics) [
  | none ↦ false
  | some e ↦ e.thread_id == thread
]

-- A round of the loop of `KeyForThread`; "" is no key yet.
thread_step : GoMap Text TopicEntry → ℤ → Text → Text → Text
thread_step topics thread key best =
    if on_thread topics thread key && (is_empty best || newer topics key best) then key else best

pub thread_loop : GoMap Text TopicEntry → ℤ → List Text → Text → Text
thread_loop topics thread [] best = best
thread_loop topics thread (key ∷ rest) best =
    thread_loop topics thread rest (thread_step topics thread key best)

unfoldable pub key_for_thread : Mapping → ℤ → Option Key
unfolding thread_loop thread_step
key_for_thread m thread =
    let best = thread_loop m.topics thread (sorted_keys m) [] in
    if is_empty best then none else parse_key best

abbrev pub better : GoMap Text TopicEntry → Text → Option Text → Bool
better topics key none = true
better topics key (some cur) = newer topics key cur

-- A round of the first loop of `DedupeThreads`: the best key of each thread so far.
best_step : GoMap Text TopicEntry → Text → GoMap ℤ Text → GoMap ℤ Text
best_step topics key best = elim (lookup key topics) [
  | none ↦ best
  | some e ↦
      if better topics key (lookup e.thread_id best) then insert e.thread_id key best else best
]

pub best_loop : GoMap Text TopicEntry → List Text → GoMap ℤ Text → GoMap ℤ Text
best_loop topics [] best = best
best_loop topics (key ∷ rest) best = best_loop topics rest (best_step topics key best)

abbrev pub is_best : GoMap ℤ Text → Text → TopicEntry → Bool
is_best best key e = elim (lookup e.thread_id best) [ none ↦ false | some b ↦ b == key ]

-- Its second loop: the entries that stay, and how many do not.
pub drop_loop : GoMap ℤ Text → GoMap Text TopicEntry → GoMap Text TopicEntry × ℕ
drop_loop best [] = ([], 0)
drop_loop best ((key, e) ∷ rest) =
    let (kept, removed) = drop_loop best rest in
    if is_best best key e then ((key, e) ∷ kept, removed) else (kept, suc removed)

unfoldable pub dedupe_threads : Mapping → Mapping × ℕ
unfolding drop_loop best_loop best_step
dedupe_threads m =
    let (kept, removed) = drop_loop (best_loop m.topics (sorted_keys m) []) m.topics in
    (record m { topics = kept }, removed)
