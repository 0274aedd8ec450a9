-- ===== src/App/Sharing/Sweeps.antt =====
-- internal/app/sharing.go: the methods that go over every grant, `Lifecycle` and `Expire`, and
-- `RetireMirror`. A `range` over the grants takes them in the order of the list.
use herdr_telegram_agents.Common.{
  ℕ, ◌+◌, ◌%◌, ◌^◌, Bool, true, false, not, ◌&&◌, ◌||◌, Option, none, some, List, [], ◌∷◌, nat_eq,
  ◌==◌, leb, if◌then◌else◌,
}
use herdr_telegram_agents.Common.Text.{Text, text_eq}
use herdr_telegram_agents.Common.Int.{int_eq}
use herdr_telegram_agents.Common.GoMap.{GoMap, lookup}
use herdr_telegram_agents.Domain.Key.{key_eq, is_empty, same_session}
use herdr_telegram_agents.Domain.Mapping.{Time}
use herdr_telegram_agents.Domain.Sharing.{
  ShareGrant, pending, active, suspended, revoked, expired, grant_state_eq, max_uint64, transition,
}
use herdr_telegram_agents.App.Registry.{AgentEvent, AgentEventKind, gone}
use herdr_telegram_agents.App.Sharing.{
  Sharing, Store, SharingError, unavailable, stale_mirror, bad_transition, save_locked,
}
use herdr_telegram_agents.App.Sharing.Grants.{
  rewrite_grant, swap_grant, replace_grant, zero_grant, by_exit, by_identity, by_persistence,
  by_retention,
}

-- What an event means for a grant: nothing, nothing though its pane is the event's, or a change.
pub data Fate : Type 0 where
  unconcerned kept : Fate
  becomes : ShareGrant → Fate

-- A grant that an event of its pane may change.
unfoldable pub is_concerned : AgentEvent → ShareGrant → Bool
is_concerned e g =
    g.key.pane_id == e.agent.key.pane_id
    && (g.state == active || g.state == suspended && g.suspend_reason == by_exit)

abbrev pub suspend : Text → ShareGrant → ShareGrant
suspend reason g = record g { state = suspended; suspend_reason = reason }

abbrev revive : ShareGrant → ShareGrant
revive g = record g { state = active; suspend_reason = []; exited_at = 0 }

abbrev is_gone_event : AgentEventKind → Bool
is_gone_event gone = true
is_gone_event _ = false

-- The chain of tests in the loop of `Lifecycle`.
unfoldable pub fate_of : Text → AgentEvent → Time → ShareGrant → Fate
unfolding is_concerned
fate_of process_id e now g =
    if not (is_concerned e g)
    then unconcerned
    else if is_gone_event e.kind
    then becomes (record (suspend by_exit g) { exited_at = now })
    else if not (g.key == e.agent.key)
        || is_empty g.key.session_digest && not (g.process_id == process_id)
    then if same_session g.key e.agent.key
      then becomes (revive (record g { key = e.agent.key }))
      else becomes (suspend by_identity g)
    else if g.state == suspended
    then if is_empty g.key.session_digest then kept else becomes (revive g)
    else kept

-- The loop: the manager, the grants concerned, whether one changed, and whether the loop gave up.
pub record Sweep : Type 0 where
  pub sharing : Sharing
  pub live : List Text
  pub is_changed : Bool
  pub gave_up : Bool

unfoldable pub lifecycle_loop : AgentEvent → Time → GoMap Text ShareGrant → Sweep → Sweep
lifecycle_loop e now [] w = w
lifecycle_loop e now ((id, g) ∷ gs) w = elim (fate_of w.sharing.process_id e now g) [
  | unconcerned ↦ lifecycle_loop e now gs w
  | kept ↦ lifecycle_loop e now gs (record w { live = id ∷ w.live })
  | becomes g' ↦
      if g'.revision == max_uint64
      then record w { sharing = record w.sharing { disabled = true }; gave_up = true }
      else let g1 = record g' { revision = (g'.revision + 1) % 2 ^ 64 } in
        lifecycle_loop e now gs
          (record w { sharing = swap_grant id g1 w.sharing; live = id ∷ w.live; is_changed = true })
]

-- A missing entry is written as the zero grant, suspended.
unfoldable pub grant_or_zero : Option ShareGrant → ShareGrant
grant_or_zero none = zero_grant
grant_or_zero (some g) = g

unfoldable pub suspend_all : List Text → Sharing → Sharing
suspend_all [] s = s
suspend_all (id ∷ ids) s =
    let g = grant_or_zero (lookup id s.state.grants) in
    suspend_all ids (rewrite_grant id (suspend by_persistence g) s)

-- What a failed save of `Lifecycle` leaves.
abbrev pub suspended_unless_saved :
    List Text → Sharing × Option SharingError → Sharing × Option SharingError
suspended_unless_saved live (s, none) = (s, none)
suspended_unless_saved live (s, some err) = (suspend_all live s, some err)

-- Lifecycle
unfoldable pub lifecycle : Store → AgentEvent → Time → Sharing → Sharing × Option SharingError
unfolding lifecycle_loop suspend_all grant_or_zero
lifecycle store e now s =
    if s.disabled || not (s.bot_id == s.state.bot_id)
    then (s, none)
    else let start : Sweep = record {
      sharing = s;
      live = [];
      is_changed = false;
      gave_up = false;
    } in
      let w = lifecycle_loop e now s.state.grants start in
      if w.gave_up
      then (w.sharing, some unavailable)
      else if not w.is_changed
      then (w.sharing, none)
      else suspended_unless_saved w.live (save_locked store now (record w.sharing { dirty = true }))

-- A grant whose time is up.
unfoldable pub is_due : Time → ShareGrant → Bool
is_due now g =
    (g.state == active || g.state == suspended || g.state == pending)
    && not (g.expires_at == 0)
    && leb g.expires_at now

unfoldable pub expire_loop : Time → GoMap Text ShareGrant → Sharing → Bool → Sharing × Bool
expire_loop now [] s is_changed = (s, is_changed)
expire_loop now ((id, g) ∷ gs) s is_changed = elim (is_due now g) [
  | false ↦ expire_loop now gs s is_changed
  | true ↦ elim (transition g expired) [
    | none ↦ expire_loop now gs s is_changed
    | some next ↦ expire_loop now gs (replace_grant id next s) true
  ]
]

-- Expire
unfoldable pub expire : Store → Time → Sharing → Sharing × Option SharingError
unfolding expire_loop
expire store now s =
    if s.disabled
    then (s, some unavailable)
    else let (s1, is_changed) = expire_loop now s.state.grants s false in
      if is_changed then save_locked store now s1 else (s1, none)

-- The grant that `RetireMirror` writes, before its reason.
abbrev pub retired : ShareGrant → Option ShareGrant
retired g = if g.state == revoked then some g else transition g revoked

-- RetireMirror
unfoldable pub retire_mirror : Store → Text → ℕ → Time → Sharing → Sharing × Option SharingError
retire_mirror store id revision now s =
    if s.disabled then (s, some stale_mirror) else elim (lookup id s.state.grants) [
      | none ↦ (s, some stale_mirror)
      | some g ↦
          if not (g.revision == revision)
            || not (g.suspend_reason == by_exit) && not (g.suspend_reason == by_retention)
          then (s, some stale_mirror)
          else elim (retired g) [
            | none ↦ (s, some bad_transition)
            | some g' ↦
                save_locked store now
                  (replace_grant id (record g' { suspend_reason = by_retention }) s)
          ]
    ]
