-- ===== src/Domain/Mapping/Sync.antt =====
-- What the reconciler relies on when it writes topics: patches converge, exited topics stay final.
use herdr_telegram_agents.Common.{
  ◌≡◌, refl, ap, ◌∙◌, Bool, true, false, not, ◌⊎◌, inl, inr, Option, none, some, arith, ◌==◌,
  if◌then◌else◌, Option-cases, Bool-cases, Bool-cases, ==_refl,
}
use herdr_telegram_agents.Common.Text.{text_eq}
use herdr_telegram_agents.Common.GoMap.{lookup, lookup-insert, insert-insert}
use herdr_telegram_agents.Domain.Status.{status_eq, exited, live}
use herdr_telegram_agents.Domain.Key.{Key, key_eq, key_string}
use herdr_telegram_agents.Domain.Agent.{Agent, desired}
use herdr_telegram_agents.Domain.Mapping.{
  Mapping, TopicEntry, Topic, TopicPatch, Time, no_patch, patched, patch_empty, linked_entry,
  topic_for, update_entry, link, update_metadata, learn, patch_for, diff, apply_patch, mark_exited,
  is_empty,
}

-- What a change of one entry does to every lookup.
topic_for-update_entry :
    (m : Mapping) (k j : Key) (f : TopicEntry → TopicEntry) (e : TopicEntry)
    → topic_for m k ≡ some e
    → topic_for (update_entry m k f) j
      ≡ (if key_string k == key_string j then some (f e) else topic_for m j)
unfolding topic_for update_entry
topic_for-update_entry m k j f e h =
    ground (arith, lookup-insert (key_string k) (key_string j) (f e) m.topics)

abbrev diff_of : Option TopicEntry → Agent → TopicPatch × Bool
diff_of none a = (no_patch, false)
diff_of (some e) a =
    if not (live e.status)
    then (no_patch, false)
    else (patch_for e a, not (patch_empty (patch_for e a)))

diff-diff_of : (m : Mapping) (k : Key) (a : Agent) → diff m k a ≡ diff_of (topic_for m k) a
unfolding diff topic_for
diff-diff_of m k a = ground arith

diff_of-patched :
    (e : TopicEntry) (a : Agent) (now : Time)
    → diff_of (some (patched (patch_for e a) now e)) a ≡ (no_patch, false)
diff_of-patched e a now = ground arith

-- If Diff asks for a patch, then after Apply of that patch Diff asks for none for the same agent,
-- and the entry of any key with another string is unchanged.
pub diff-apply_patch :
    (m : Mapping) (k j : Key) (a : Agent) (now : Time)
    → (diff m k a).1 ≡ true
    → (diff (apply_patch m k (diff m k a).0 now) k a ≡ (no_patch, false))
      × (((key_string k == key_string j) ≡ true)
          ⊎ (topic_for (apply_patch m k (diff m k a).0 now) j ≡ topic_for m j))
unfolding apply_patch
diff-apply_patch m k j a now h = elim (Option-cases (topic_for m k)) [
  | inl absent ↦ absurd (let d = diff-diff_of m k a in ground arith)
  | inr (e, found) ↦
      let d : (diff m k a).0 ≡ patch_for e a = let d' = diff-diff_of m k a in ground arith in
      let new = λ (i : Key). topic_for-update_entry m k i (patched (patch_for e a) now) e found in
      rw d (
        diff-diff_of (update_entry m k (patched (patch_for e a) now)) k a
            ∙ ap (λ o. diff_of o a) (new k)
            ∙ rw ==_refl (diff_of-patched e a now),
        elim (Bool-cases (key_string k == key_string j)) [
          | inl same ↦ inl same
          | inr other ↦ inr (new j ∙ rw other)
        ],
      )
]

-- After MarkExited, Diff asks for no patch of that key, whatever agent view arrives.
pub diff-mark_exited :
    (m : Mapping) (k : Key) (a : Agent) (now : Time)
    → diff (mark_exited m k now) k a ≡ (no_patch, false)
unfolding diff mark_exited update_entry
diff-mark_exited m k a now = elim (Option-cases (lookup (key_string k) m.topics)) [
  | inl absent ↦ ground arith
  | inr (e, found) ↦ ground (
    arith,
    lookup-insert (key_string k) (key_string k) (record e { status = exited; updated_at = now })
        m.topics,
  )
]

topic_for-link :
    (m : Mapping) (k : Key) (t : Topic) (a : Agent) (now : Time)
    → topic_for (link m k t a now).0 k ≡ some (linked_entry t a now)
unfolding topic_for link
topic_for-link m k t a now =
    ground (arith, lookup-insert (key_string k) (key_string k) (linked_entry t a now) m.topics)

-- After Link with a topic whose confirmed name is empty or the desired one, Diff asks for no
-- patch.
pub diff-link :
    (m : Mapping) (k : Key) (t : Topic) (a : Agent) (now : Time)
    → (is_empty t.name ≡ true) ⊎ (t.name ≡ (desired a).0)
    → diff (link m k t a now).0 k a ≡ (no_patch, false)
diff-link m k t a now named =
    diff-diff_of (link m k t a now).0 k a
    ∙ ap (λ o. diff_of o a) (topic_for-link m k t a now)
    ∙ ground arith

learn_again : (a : Agent) (e : TopicEntry) → learn a (learn a e).0 ≡ ((learn a e).0, false)
learn_again a e = ground arith

-- A second UpdateMetadata with the same agent reports no change and makes none.
pub update_metadata_again :
    (m : Mapping) (k : Key) (a : Agent)
    → update_metadata (update_metadata m k a).0 k a ≡ ((update_metadata m k a).0, false)
unfolding update_metadata
update_metadata_again m k a = elim (Option-cases (lookup (key_string k) m.topics)) [
  | inl absent ↦ ground arith
  | inr (e, found) ↦ ground (
    arith,
    learn_again a e,
    lookup-insert (key_string k) (key_string k) (learn a e).0 m.topics,
    insert-insert (key_string k) (learn a e).0 (learn a e).0 m.topics,
  )
]

-- UpdateMetadata of a stored entry takes the cwd and the kind of the agent where they are known
-- and keeps the stored ones otherwise; the thread, the name and the status stay.
pub update_metadata_keeps :
    (m : Mapping) (k : Key) (a : Agent) (e : TopicEntry)
    → topic_for m k ≡ some e
    → (f : TopicEntry) × (topic_for (update_metadata m k a).0 k ≡ some f)
      × (f.cwd ≡ (if is_empty a.cwd then e.cwd else a.cwd))
      × (f.agent_kind ≡ (if is_empty a.kind then e.agent_kind else a.kind))
      × (f.thread_id ≡ e.thread_id)
      × (f.name ≡ e.name)
      × (f.status ≡ e.status)
unfolding update_metadata topic_for
update_metadata_keeps m k a e found = (
  (learn a e).0,
  ground (arith, lookup-insert (key_string k) (key_string k) (learn a e).0 m.topics),
  ground arith,
  ground arith,
  refl,
  refl,
  refl,
)
