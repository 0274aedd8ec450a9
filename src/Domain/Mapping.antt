-- ===== src/Domain/Mapping.antt =====
-- internal/domain/mapping.go: the topics that the plugin wrote to Telegram, by agent key.
-- Reassociation and the thread ids have modules of their own. A time is a number of nanoseconds, 0 the zero
-- time; entries are values, since every key holds a pointer of its own.
pub mod Sync
pub mod Sweep
use herdr_telegram_agents.Common.{
  ℕ, zero, suc, ◌+◌, Bool, true, false, not, ◌&&◌, ◌||◌, Option, none, some, List, [], ◌∷◌, nat_eq,
  ◌==◌, ltb, leb, if◌then◌else◌, select, elem, length,
}
use herdr_telegram_agents.Common.Text.{Text, text_eq, text_lt}
use herdr_telegram_agents.Common.Int.{ℤ, int_eq}
use herdr_telegram_agents.Common.GoMap.{GoMap, keys, lookup, insert, delete}
use herdr_telegram_agents.Common.Sort.{sort}
use herdr_telegram_agents.Domain.Status.{Status, status_eq, exited, live, strip_prefix}
use herdr_telegram_agents.Domain.Key.{Key, key_eq, key_string, parse_key, is_empty}
use herdr_telegram_agents.Domain.Agent.{Agent, desired}

abbrev pub Time : Type 0
Time = ℕ

pub record Topic : Type 0 where
  pub thread_id : ℤ
  pub name : Text
  pub icon_emoji_id : Text
  pub closed : Bool

-- A nil field is `none`.
pub record TopicPatch : Type 0 where
  pub name : Option Text
  pub status : Option Status

abbrev pub no_patch : TopicPatch
no_patch = record { name = none; status = none }

abbrev pub is_nil {ℓ} : {A : Type ℓ} → Option A → Bool
is_nil none = true
is_nil (some a) = false

-- TopicPatch.Empty
abbrev pub patch_empty : TopicPatch → Bool
patch_empty p = is_nil p.name && is_nil p.status

pub record TopicEntry : Type 0 where
  pub thread_id : ℤ
  pub name : Text
  pub status : Status
  pub closed : Bool
  pub muted : Bool
  pub cwd : Text
  pub agent_kind : Text
  pub legacy_no_cwd : Bool
  pub updated_at : Time

pub record Mapping : Type 0 where
  pub version : ℕ
  pub chat_id : ℤ
  pub topics : GoMap Text TopicEntry
  pub dashboard : ℤ
  pub pending_creates : GoMap Text Bool
  pub pending_dashboard : Bool

abbrev pub mapping_version : ℕ
mapping_version = 2

unfoldable pub new_mapping : ℤ → Mapping
new_mapping chat_id = record {
  version = mapping_version;
  chat_id = chat_id;
  topics = [];
  dashboard = ℤ.pos 0;
  pending_creates = [];
  pending_dashboard = false;
}

-- TopicEntry.Label
unfoldable pub entry_label : TopicEntry → Text
entry_label e = strip_prefix e.name

unfoldable pub sorted_keys : Mapping → List Text
sorted_keys m = sort text_lt (keys m.topics)

abbrev parse_all : List Text → List Key
parse_all [] = []
parse_all (s ∷ rest) =
    let out = parse_all rest in elim (parse_key s) [ none ↦ out | some k ↦ k ∷ out ]

-- Keys
unfoldable pub stored_keys : Mapping → List Key
stored_keys m = parse_all (sorted_keys m)

-- TopicFor
unfoldable pub topic_for : Mapping → Key → Option TopicEntry
topic_for m k = lookup (key_string k) m.topics

-- `e, ok := m.Topics[k.String()]; if !ok { return }`, then a write through the pointer.
unfoldable pub update_entry : Mapping → Key → (TopicEntry → TopicEntry) → Mapping
update_entry m k f = elim (lookup (key_string k) m.topics) [
  | none ↦ m
  | some e ↦ record m { topics = insert (key_string k) (f e) m.topics }
]

unfoldable pub set_muted : Mapping → Key → Bool → Time → Mapping
set_muted m k muted now = update_entry m k λ e. record e { muted = muted; updated_at = now }

unfoldable pub mute : Mapping → Key → Time → Mapping
mute m k now = set_muted m k true now

unfoldable pub unmute : Mapping → Key → Time → Mapping
unmute m k now = set_muted m k false now

abbrev pub linked_entry : Topic → Agent → Time → TopicEntry
linked_entry t a now =
    let (name, status) = desired a in
    record {
      thread_id = t.thread_id;
      name = if not (is_empty t.name) then t.name else name;
      status = status;
      closed = t.closed;
      muted = false;
      cwd = a.cwd;
      agent_kind = a.kind;
      legacy_no_cwd = false;
      updated_at = now;
    }

unfoldable pub link : Mapping → Key → Topic → Agent → Time → Mapping × TopicEntry
link m k t a now =
    let e = linked_entry t a now in (record m { topics = insert (key_string k) e m.topics }, e)

-- The three changes of `UpdateMetadata`, with its flag.
abbrev pub learn : Agent → TopicEntry → TopicEntry × Bool
learn a e =
    let new_cwd = not (is_empty a.cwd) && not (e.cwd == a.cwd) in
    let ends_legacy = not (is_empty a.cwd) && e.legacy_no_cwd in
    let new_kind = not (is_empty a.kind) && not (e.agent_kind == a.kind) in
    (
      record e {
        cwd = if new_cwd then a.cwd else e.cwd;
        legacy_no_cwd = if ends_legacy then false else e.legacy_no_cwd;
        agent_kind = if new_kind then a.kind else e.agent_kind;
      },
      new_cwd || (ends_legacy || new_kind),
    )

unfoldable pub update_metadata : Mapping → Key → Agent → Mapping × Bool
update_metadata m k a = elim (lookup (key_string k) m.topics) [
  | none ↦ (m, false)
  | some e ↦
      let (e', changed) = learn a e in
      (record m { topics = insert (key_string k) e' m.topics }, changed)
]

abbrev pub patch_for : TopicEntry → Agent → TopicPatch
patch_for e a =
    let (name, status) = desired a in
    let renamed = not (name == e.name) in
    record {
      name = if renamed then some name else none;
      status = if renamed || not (status == e.status) then some status else none;
    }

-- Diff; the second result of the source is whether there is a patch at all.
unfoldable pub diff : Mapping → Key → Agent → TopicPatch × Bool
diff m k a = elim (lookup (key_string k) m.topics) [
  | none ↦ (no_patch, false)
  | some e ↦
      if not (live e.status)
      then (no_patch, false)
      else (patch_for e a, not (patch_empty (patch_for e a)))
]

abbrev pub or_kept {ℓ} : {A : Type ℓ} → Option A → A → A
or_kept none kept = kept
or_kept (some a) kept = a

abbrev pub patched : TopicPatch → Time → TopicEntry → TopicEntry
patched p now e = record e {
  name = or_kept p.name e.name;
  status = or_kept p.status e.status;
  updated_at = now;
}

-- Apply
unfoldable pub apply_patch : Mapping → Key → TopicPatch → Time → Mapping
apply_patch m k p now = update_entry m k (patched p now)

unfoldable pub mark_exited : Mapping → Key → Time → Mapping
mark_exited m k now = update_entry m k λ e. record e { status = exited; updated_at = now }

unfoldable pub mark_closed : Mapping → Key → Time → Mapping
mark_closed m k now = update_entry m k λ e. record e { closed = true; updated_at = now }

unfoldable pub mark_reopened : Mapping → Key → Time → Mapping
mark_reopened m k now = update_entry m k λ e. record e { closed = false; updated_at = now }

unfoldable pub forget : Mapping → Key → Mapping
forget m k = record m { topics = delete (key_string k) m.topics }

abbrev pub on_entry : Mapping → (TopicEntry → Bool) → Key → Bool
on_entry m p k = elim (lookup (key_string k) m.topics) [ none ↦ false | some e ↦ p e ]

-- Orphans, over the keys of the live set.
unfoldable pub orphans : Mapping → List Key → List Key
orphans m alive =
    select (λ k. on_entry m (λ e. live e.status && not e.muted) k && not (elem k alive))
      (stored_keys m)

unfoldable pub unclosed : Mapping → List Key
unclosed m =
    select (on_entry m (λ e. not (live e.status) && not e.closed && not e.muted)) (stored_keys m)

-- now.Sub(e.UpdatedAt) <= maxAge, with the subtraction moved to the other side.
abbrev pub is_recent : Time → ℕ → TopicEntry → Bool
is_recent now max_age e = leb now (e.updated_at + max_age)

abbrev pub is_stale : Time → ℕ → TopicEntry → Bool
is_stale now max_age e = not (live e.status || not e.closed || is_recent now max_age e)

abbrev pub updated_of : Mapping → Key → Time
updated_of m k = elim (lookup (key_string k) m.topics) [ none ↦ 0 | some e ↦ e.updated_at ]

abbrev pub older_first : Mapping → Key → Key → Bool
older_first m a b =
    if updated_of m a == updated_of m b
    then text_lt (key_string a) (key_string b)
    else ltb (updated_of m a) (updated_of m b)

unfoldable pub stale : Mapping → Time → ℕ → List Key
stale m now max_age =
    sort (older_first m) (select (on_entry m (is_stale now max_age)) (stored_keys m))

pub record Counts : Type 0 where
  pub alive : ℕ
  pub exited : ℕ
  pub muted : ℕ

abbrev pub count_step : TopicEntry → Counts → Counts
count_step e c = record c {
  alive = if live e.status then suc c.alive else c.alive;
  exited = if live e.status then c.exited else suc c.exited;
  muted = if e.muted then suc c.muted else c.muted;
}

pub count_loop : GoMap Text TopicEntry → Counts → Counts
count_loop [] c = c
count_loop ((k, e) ∷ rest) c = count_loop rest (count_step e c)

unfoldable pub counts : Mapping → Counts
unfolding count_loop
counts m = count_loop m.topics (record { alive = 0; exited = 0; muted = 0 })

-- Prune
unfoldable pub prune : Mapping → ℕ → Mapping × ℕ
prune m max_entries = (m, 0)
