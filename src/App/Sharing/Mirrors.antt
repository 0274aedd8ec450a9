-- ===== src/App/Sharing/Mirrors.antt =====
-- internal/app/sharing.go: the methods on the mirror of a grant.
use herdr_telegram_agents.Common.{
  ℕ, ◌+◌, ◌%◌, ◌^◌, Bool, true, false, not, ◌&&◌, ◌||◌, Option, none, some, [], nat_eq, ◌==◌,
  if◌then◌else◌,
}
use herdr_telegram_agents.Common.Text.{Text, text_eq, codes}
use herdr_telegram_agents.Common.Int.{ℤ, pos, int_eq, is_nonpos, is_neg, int_lt}
use herdr_telegram_agents.Common.GoMap.{lookup, insert, delete}
use herdr_telegram_agents.Domain.Mapping.{Time, Topic}
use herdr_telegram_agents.Domain.Key.{is_empty}
use herdr_telegram_agents.Domain.Sharing.{
  TopicAddress, address_eq, ShareGrant, pending, active, revoked, needs_repair, grant_state_eq,
  max_uint64, MirrorPreferences, MirrorBinding,
}
use herdr_telegram_agents.Domain.Access.{ShareOrigin}
use herdr_telegram_agents.App.Sharing.{
  Sharing, Store, SharingError, unavailable, not_pending, creation_unknown, changed_during_creation,
  no_repair_needed, stale_mirror, access_changed, bad_display, bad_fold, mirror_changed,
  save_locked, cancel_locked, bounded_contact,
}
use herdr_telegram_agents.App.Sharing.Grants.{put_grant, zero_grant}

abbrev pub no_address : TopicAddress
no_address = record { chat_id = pos 0; thread_id = pos 0 }

abbrev pub no_preferences : MirrorPreferences
no_preferences = record {
  alias = [];
  paused = false;
  silent = false;
  display = [];
  fold = pos 0;
  metadata = false;
}

abbrev pub zero_mirror : MirrorBinding
zero_mirror = record {
  grant_id = [];
  address = no_address;
  preferences = no_preferences;
  keyboard_message_id = pos 0;
  last_output = [];
  navigation_id = [];
  creating = false;
}

-- A read of a missing key gives the zero value.
abbrev pub mirror_of : Sharing → Text → MirrorBinding
mirror_of s id = elim (lookup id s.state.mirrors) [ none ↦ zero_mirror | some m ↦ m ]

abbrev pub put_mirror : Text → MirrorBinding → Sharing → Sharing
put_mirror id m s = record s {
  state = record s.state { mirrors = insert id m s.state.mirrors };
  dirty = true;
}

abbrev pub delete_mirror : Text → Sharing → Sharing
delete_mirror id s = record s {
  state = record s.state { mirrors = delete id s.state.mirrors };
  dirty = true;
}

abbrev pub with_mirror :
    MirrorBinding → Sharing × Option SharingError → Sharing × Option SharingError × MirrorBinding
with_mirror m (s, e) = (s, e, m)

-- `PrepareMirror` for a pending grant; `fresh` is a new random id.
abbrev pub prepare :
    Store
    → Text
    → Text
    → ShareGrant
    → Time
    → Sharing
    → Sharing × Option SharingError × MirrorBinding
prepare store fresh id g now s =
    let m = mirror_of s id in
    let m1 = record zero_mirror {
      grant_id = id;
      address = record { chat_id = g.recipient_id; thread_id = pos 0 };
      creating = true;
      navigation_id = fresh;
    } in
    if m.creating
    then (s, some creation_unknown, m)
    else if not (is_nonpos m.address.thread_id)
    then (s, none, m)
    else with_mirror m1 (save_locked store now (put_mirror id m1 s))

-- PrepareMirror; a missing mirror is neither being created nor has a thread.
unfoldable pub prepare_mirror :
    Store → Text → Text → ℕ → Time → Sharing → Sharing × Option SharingError × MirrorBinding
prepare_mirror store fresh id revision now s = elim (lookup id s.state.grants) [
  | none ↦ (s, some not_pending, zero_mirror)
  | some g ↦
      if s.disabled || not (g.revision == revision) || not (g.state == pending)
      then (s, some not_pending, zero_mirror)
      else prepare store fresh id g now s
]

-- What a failed save of `ActivateMirror` leaves.
abbrev pub repair_unless_saved :
    Text → ShareGrant → Sharing × Option SharingError → Sharing × Option SharingError
repair_unless_saved id g (s, none) = (s, none)
repair_unless_saved id g (s, some e) = (
  record s {
    state = record s.state {
      grants = insert id (record g { state = needs_repair }) s.state.grants;
    };
  },
  some e,
)

-- ActivateMirror
unfoldable pub activate_mirror :
    Store → Text → ℕ → Topic → Time → Sharing → Sharing × Option SharingError
activate_mirror store id revision topic now s = elim (lookup id s.state.grants) [
  | none ↦ (s, some changed_during_creation)
  | some g ↦
      if s.disabled || not (g.revision == revision) || not (g.state == pending)
      then (s, some changed_during_creation)
      else let m = record (mirror_of s id) {
        address = record { chat_id = g.recipient_id; thread_id = topic.thread_id };
        creating = false;
      } in
        let g1 = record g {
          state = active;
          revision = (g.revision + 1) % 2 ^ 64;
          activated_at = now;
        } in
        repair_unless_saved id g1 (save_locked store now (put_grant id g1 (put_mirror id m s)))
]

abbrev pub with_grant :
    ShareGrant → Sharing × Option SharingError → Sharing × Option SharingError × ShareGrant
with_grant g (s, none) = (s, none, g)
with_grant g (s, some e) = (s, some e, zero_grant)

abbrev pub pending_again : ShareGrant → ShareGrant
pending_again g = record g { state = pending; revision = (g.revision + 1) % 2 ^ 64 }

-- RepairMirror
unfoldable pub repair_mirror :
    Store → Text → ℕ → Time → Sharing → Sharing × Option SharingError × ShareGrant
repair_mirror store id revision now s = elim (lookup id s.state.grants) [
  | none ↦ (s, some no_repair_needed, zero_grant)
  | some g ↦
      if s.disabled
        || not (g.revision == revision)
        || not (g.state == needs_repair) && not (g.state == pending)
      then (s, some no_repair_needed, g)
      else if g.revision == max_uint64
      then (s, some unavailable, g)
      else let g1 = pending_again g in
        with_grant g1 (save_locked store now (put_grant id g1 (delete_mirror id s)))
]

-- MissingMirror
unfoldable pub missing_mirror :
    Store → Text → ℕ → Time → Sharing → Sharing × Option SharingError × ShareGrant
missing_mirror store id revision now s = elim (lookup id s.state.grants) [
  | none ↦ (s, some stale_mirror, zero_grant)
  | some g ↦
      if s.disabled
        || not (g.revision == revision)
        || not (g.state == active)
        || g.revision == max_uint64
      then (s, some stale_mirror, g)
      else let g1 = pending_again g in
        with_grant g1
          (save_locked store now (put_grant id g1 (delete_mirror id (cancel_locked id s))))
]

-- The tests of `Preferences` on the grant and on the choices.
pub not_accessible : Sharing → ShareOrigin → ShareGrant → Bool
not_accessible s o g =
    s.disabled
    || not (g.state == active)
    || not (g.revision == o.revision)
    || not (g.recipient_id == o.actor_id)
    || not ((mirror_of s o.grant_id).address == o.address)

pub is_display : Text → Bool
is_display d = is_empty d || d == codes "screen" || d == codes "reply" || d == codes "formatted"

-- What a failed save of `Preferences` leaves.
abbrev pub preferred_or_back :
    Text → MirrorBinding → Sharing × Option SharingError → Sharing × Option SharingError
preferred_or_back id old (s, none) = (s, none)
preferred_or_back id old (s, some e) =
    (record s { state = record s.state { mirrors = insert id old s.state.mirrors } }, some e)

pub max_alias : ℕ
max_alias = 128

-- Preferences
unfoldable pub preferences :
    Store → ShareOrigin → MirrorPreferences → Time → Sharing → Sharing × Option SharingError
unfolding not_accessible is_display max_alias
preferences store o p now s = elim (lookup o.grant_id s.state.grants) [
  | none ↦ (s, some access_changed)
  | some g ↦
      if not_accessible s o g
      then (s, some access_changed)
      else if not (is_display p.display)
      then (s, some bad_display)
      else if is_neg p.fold || int_lt (pos 200) p.fold
      then (s, some bad_fold)
      else let m = mirror_of s o.grant_id in
        let p1 = record p { alias = bounded_contact p.alias max_alias } in
        preferred_or_back o.grant_id m
          (save_locked store now (put_mirror o.grant_id (record m { preferences = p1 }) s))
]

-- RecordOutput
unfoldable pub record_output : ShareOrigin → Text → ℤ → Sharing → Sharing
record_output o hash keyboard s = elim (lookup o.grant_id s.state.grants) [
  | none ↦ s
  | some g ↦
      if s.disabled || not (g.revision == o.revision)
      then s
      else let m = record (mirror_of s o.grant_id) {
        last_output = hash;
        keyboard_message_id = keyboard;
      } in
        put_mirror o.grant_id m s
]

-- ForgetMirror
unfoldable pub forget_mirror : Store → Text → ℕ → Time → Sharing → Sharing × Option SharingError
forget_mirror store id revision now s = elim (lookup id s.state.grants) [
  | none ↦ (s, some mirror_changed)
  | some g ↦
      if s.disabled || not (g.revision == revision) || not (g.state == revoked)
      then (s, some mirror_changed)
      else save_locked store now (delete_mirror id s)
]
