-- ===== src/Tests/Topics.antt =====
-- Keys, names and the mapping on concrete topics.
use herdr_telegram_agents.Common.{
  ◌≡◌, refl, true, false, ◌⊎◌, inl, some, List, [], ◌∷◌, arith, ◌==◌, elem, Distinct, ℕ_discrete,
}
use herdr_telegram_agents.Common.Text.{Text, text_lt, codes, text_eq, Text-discrete}
use herdr_telegram_agents.Common.Int.{pos, int_eq}
use herdr_telegram_agents.Common.GoMap.{lookup, IsMap}
use herdr_telegram_agents.Common.Sort.{sort, insert_sorted}
use herdr_telegram_agents.Encoding.Utf8.{runes, of_runes}
use herdr_telegram_agents.Domain.Status.{
  display_name, strip_prefix, Status-discrete, working, exited,
}
use herdr_telegram_agents.Domain.Key.{Key, key_eq, Key-discrete, key_string, parse_key}
use herdr_telegram_agents.Domain.Key.RoundTrip.{
  IsWellFormed, parse_key-key_string, key_string-parse_key,
}
use herdr_telegram_agents.Domain.Agent.{label, desired}
use herdr_telegram_agents.Domain.Agent.Digest.{HasGoSizes, hashed-injective}
use herdr_telegram_agents.Domain.Mapping.{
  no_patch, topic_for, diff, apply_patch, stored_keys, sorted_keys,
}
use herdr_telegram_agents.Domain.Threads.{key_for_thread, dedupe_threads}
use herdr_telegram_agents.Domain.Threads.Dedupe.{dedupe-Distinct, key_for_thread-dedupe}
use herdr_telegram_agents.Domain.Threads.Dedupe.{threads}
use herdr_telegram_agents.Domain.Mapping.Sync.{diff-apply_patch}
use herdr_telegram_agents.Tests.Data.{
  key_one, key_two, claude, entry_at, shared_thread, claude_session,
}

abbrev a_label : Text
a_label = codes "shop"

key_one-IsWellFormed : IsWellFormed key_one
unfolding key_string ℕ_discrete
key_one-IsWellFormed = record {
  pane_bytes = ground arith;
  terminal_bytes = ground arith;
  has_pane = refl;
  has_terminal = refl;
  digest_form = inl (refl, ground arith, refl);
}

read_back : parse_key (codes "p1/t1") ≡ some key_one
unfolding parse_key ℕ_discrete
read_back = refl

parse_key-key_string_example : parse_key (key_string key_one) ≡ some key_one
parse_key-key_string_example = parse_key-key_string key_one key_one-IsWellFormed

key_string-parse_key_example : key_string key_one ≡ codes "p1/t1"
key_string-parse_key_example = key_string-parse_key (codes "p1/t1") key_one read_back

claude_session-HasGoSizes : HasGoSizes claude_session
claude_session-HasGoSizes = record {
  source_size = ground arith;
  agent_size = ground arith;
  kind_size = ground arith;
  value_size = ground arith;
}

hashed-injective_example : claude_session ≡ claude_session
hashed-injective_example =
    hashed-injective claude_session claude_session claude_session-HasGoSizes
      claude_session-HasGoSizes refl

shared-IsMap : IsMap shared_thread.topics
shared-IsMap = ground arith

key_for_thread-dedupe_example :
    key_for_thread (dedupe_threads shared_thread).0 (pos 7) ≡ key_for_thread shared_thread (pos 7)
key_for_thread-dedupe_example =
    key_for_thread-dedupe shared_thread shared-IsMap (ground arith) (pos 7)

dedupe-Distinct_example : Distinct (threads (dedupe_threads shared_thread).0.topics)
dedupe-Distinct_example = dedupe-Distinct shared_thread shared-IsMap

one_stored : lookup (codes "p1/t1") shared_thread.topics ≡ some (entry_at 7 working false 10)
unfolding Text-discrete ℕ_discrete
one_stored = refl

wants_patch : (diff shared_thread key_one claude).1 ≡ true
unfolding diff key_string desired display_name label strip_prefix of_runes runes Status-discrete
    Text-discrete ℕ_discrete
wants_patch = refl

diff-apply_patch_example :
    (diff
        (apply_patch shared_thread key_one (diff shared_thread key_one claude).0 99)
        key_one
        claude
      ≡ (no_patch, false))
    × (((key_string key_one == key_string key_two) ≡ true)
        ⊎ (topic_for
              (apply_patch shared_thread key_one (diff shared_thread key_one claude).0 99)
              key_two
            ≡ topic_for shared_thread key_two))
diff-apply_patch_example = diff-apply_patch shared_thread key_one key_two claude 99 wants_patch

one_found : topic_for shared_thread key_one ≡ some (entry_at 7 working false 10)
unfolding topic_for key_string Text-discrete ℕ_discrete
one_found = refl

abbrev alive : List Key
alive = key_one ∷ []

one_at : lookup (key_string key_one) shared_thread.topics ≡ some (entry_at 7 working false 10)
unfolding key_string Text-discrete ℕ_discrete
one_at = refl

is_alive : elem key_one alive ≡ true
unfolding Key-discrete Text-discrete ℕ_discrete
is_alive = refl

abbrev key_three : Key
key_three = record { pane_id = codes "p3"; terminal_id = codes "t3"; session_digest = [] }

three_at : lookup (key_string key_three) shared_thread.topics ≡ some (entry_at 8 exited true 5)
unfolding key_string Text-discrete ℕ_discrete
three_at = refl

three_stored : elem key_three (stored_keys shared_thread) ≡ true
unfolding stored_keys sorted_keys sort insert_sorted text_lt parse_key Key-discrete Text-discrete
    ℕ_discrete
three_stored = refl
