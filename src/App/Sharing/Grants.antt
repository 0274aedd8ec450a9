-- ===== src/App/Sharing/Grants.antt =====
-- internal/app/sharing.go: the methods that change a grant.
use herdr_telegram_agents.Common.{
  ℕ, ◌+◌, ◌%◌, ◌^◌, Bool, true, false, not, ◌&&◌, ◌||◌, Option, none, some, [], ◌∷◌, nat_eq, ◌==◌,
  leb, if◌then◌else◌, length,
}
use herdr_telegram_agents.Common.Text.{Text, text_eq, codes}
use herdr_telegram_agents.Common.Int.{ℤ, pos, int_eq}
use herdr_telegram_agents.Common.GoMap.{GoMap, lookup, has, insert}
use herdr_telegram_agents.Domain.Status.{status_eq, exited}
use herdr_telegram_agents.Domain.Key.{Key, key_eq, is_empty}
use herdr_telegram_agents.Domain.Agent.{Agent}
use herdr_telegram_agents.Domain.Mapping.{Time}
use herdr_telegram_agents.Domain.Sharing.{
  ShareGrant, GrantState, pending, active, suspended, other, grant_state_eq, ShareRole, role_eq,
  read, control, other_role, max_uint64, transition,
}
use herdr_telegram_agents.Domain.Sharing.State.{
  BotIdentity, private_topics_ready, matches_bot, max_share_grants,
}
use herdr_telegram_agents.App.Sharing.{
  Sharing, Store, SharingError, unavailable, capacity, no_contact, invalid_grant, grant_changed,
  stale_selection, bad_transition, choose_new_expiry, needs_new_grant, agent_unavailable,
  not_durable, save_locked, cancel_locked,
}

-- What `Agent` of the manager answers; a nil function is `none`.
abbrev pub AgentLookup : Type 0
AgentLookup = Option (Key → Option Agent)

abbrev pub put_grant : Text → ShareGrant → Sharing → Sharing
put_grant id g s = record s {
  state = record s.state { grants = insert id g s.state.grants };
  dirty = true;
}

abbrev pub rewrite_grant : Text → ShareGrant → Sharing → Sharing
rewrite_grant id g s = record s { state = record s.state { grants = insert id g s.state.grants } }

-- The write of `Lifecycle`, which leaves `dirty` to the end of its loop.
abbrev pub swap_grant : Text → ShareGrant → Sharing → Sharing
swap_grant id g s = cancel_locked id (rewrite_grant id g s)

-- A change of a grant that calls off its work.
abbrev pub replace_grant : Text → ShareGrant → Sharing → Sharing
replace_grant id g s = cancel_locked id (put_grant id g s)

abbrev pub zero_key : Key
zero_key = record { pane_id = []; terminal_id = []; session_digest = [] }

abbrev pub zero_grant : ShareGrant
zero_grant = record {
  suspend_reason = [];
  id = [];
  recipient_id = pos 0;
  key = zero_key;
  revision = 0;
  state = other [];
  role = other_role [];
  repository_read = false;
  close_agent = false;
  local_focus = false;
  exited_at = 0;
  expires_at = 0;
  activated_at = 0;
  history_cursor = 0;
  process_id = [];
}

abbrev pub owner : Text
owner = codes "owner"

abbrev pub by_exit : Text
by_exit = codes "exited"

abbrev pub by_identity : Text
by_identity = codes "identity"

abbrev pub by_persistence : Text
by_persistence = codes "persistence"

abbrev pub by_retention : Text
by_retention = codes "retention"

pub record GrantRequest : Type 0 where
  pub expected_revision : Option ℕ
  pub recipient_id : ℤ
  pub key : Key
  pub role : ShareRole
  pub repository_read : Bool
  pub close_agent : Bool
  pub local_focus : Bool
  pub expires_at : Time
  pub bot : BotIdentity

-- The grant of the recipient for the key, or the zero grant.
pub existing_grant : ℤ → Key → GoMap Text ShareGrant → ShareGrant
existing_grant recipient key [] = zero_grant
existing_grant recipient key ((id, g) ∷ gs) =
    if g.recipient_id == recipient && g.key == key then g else existing_grant recipient key gs

pub is_expected : Option ℕ → ShareGrant → Bool
is_expected none g = true
is_expected (some revision) g = g.revision == revision

-- The grant as it is written.
abbrev pub granted : GrantRequest → Text → Time → ShareGrant → ShareGrant
granted r process_id now g =
    let g1 = record g {
      revision = (g.revision + 1) % 2 ^ 64;
      role = r.role;
      repository_read = r.repository_read;
      close_agent = r.close_agent;
      local_focus = r.local_focus;
      expires_at = r.expires_at;
      process_id = process_id;
    } in
    if g1.state == active
    then g1
    else record g1 { state = pending; activated_at = now; history_cursor = 0 }

-- What a failed save of `Grant` leaves: an old grant, now suspended, or none.
abbrev pub grant_or_back :
    Sharing
    → ShareGrant
    → Sharing × Option SharingError
    → Sharing × Option SharingError × ShareGrant
grant_or_back old g (s, none) = (s, none, g)
grant_or_back old g (s, some e) =
    let s1 = record s { state = old.state } in
    (
      (if has g.id old.state.grants
          then put_grant g.id (record g { state = suspended }) s1
          else s1),
      some e,
      zero_grant,
    )

pub new_grant : Text → GrantRequest → ShareGrant
new_grant fresh r = record zero_grant {
  id = fresh;
  recipient_id = r.recipient_id;
  key = r.key;
  state = pending;
}

-- `Grant`, from the check of the revision on; `fresh` is a new random id.
unfoldable pub write_grant :
    Store
    → Text
    → GrantRequest
    → Time
    → Sharing
    → ShareGrant
    → Sharing × Option SharingError × ShareGrant
write_grant store fresh r now s g0 =
    if g0.revision == max_uint64
    then (s, some unavailable, g0)
    else let g = granted r s.process_id now g0 in
      let s1 = put_grant g.id g (record s { state = record s.state { bot_id = r.bot.id } }) in
      grant_or_back s g (save_locked store now (cancel_locked g.id s1))

-- Grant
unfoldable pub grant :
    Store → Text → GrantRequest → Time → Sharing → Sharing × Option SharingError × ShareGrant
unfolding existing_grant is_expected new_grant
grant store fresh r now s =
    if s.disabled || not (private_topics_ready r.bot) || not (matches_bot s.state r.bot)
    then (s, some unavailable, zero_grant)
    else if not (has r.recipient_id s.state.recipients)
    then (s, some no_contact, zero_grant)
    else if is_empty r.key.pane_id
        || is_empty r.key.terminal_id
        || not (r.role == read) && not (r.role == control)
    then (s, some invalid_grant, zero_grant)
    else let g = existing_grant r.recipient_id r.key s.state.grants in
      if not (is_expected r.expected_revision g)
      then (s, some grant_changed, g)
      else if not (is_empty g.id)
      then write_grant store fresh r now s g
      else if leb max_share_grants (length s.state.grants)
      then (s, some capacity, g)
      else write_grant store fresh r now s (new_grant fresh r)

-- `!live || a.Status == StatusExited`
abbrev pub is_gone : Option Agent → Bool
is_gone none = true
is_gone (some a) = a.status == exited

abbrev agent_is_gone : AgentLookup → Key → Bool
agent_is_gone none key = false
agent_is_gone (some agent) key = is_gone (agent key)

-- The checks of `ChangeState` before it makes a grant active.
unfoldable pub activation_refused : AgentLookup → Text → ShareGrant → Time → Option SharingError
activation_refused agent process_id g now =
    if not (g.expires_at == 0) && leb g.expires_at now
    then some choose_new_expiry
    else if not (g.suspend_reason == owner)
        || is_empty g.key.session_digest && not (g.process_id == process_id)
    then some needs_new_grant
    else if agent_is_gone agent g.key
    then some agent_unavailable
    else none

unfoldable pub change_refused :
    AgentLookup → Text → ShareGrant → GrantState → Time → Option SharingError
change_refused agent process_id g next now =
    if next == active then activation_refused agent process_id g now else none

-- What a failed save of `ChangeState` leaves: nothing is made active.
abbrev pub denied_unless_saved :
    Text → ShareGrant → GrantState → Sharing × Option SharingError → Sharing × Option SharingError
denied_unless_saved id changed next (s, none) = (s, none)
denied_unless_saved id changed next (s, some e) = (
  (if next == active then rewrite_grant id (record changed { state = suspended }) s else s),
  some not_durable,
)

-- ChangeState
unfoldable pub change_state :
    Store → AgentLookup → Text → ℕ → GrantState → Time → Sharing → Sharing × Option SharingError
unfolding change_refused activation_refused
change_state store agent id revision next now s =
    if s.disabled then (s, some unavailable) else elim (lookup id s.state.grants) [
      | none ↦ (s, some stale_selection)
      | some g ↦
          if not (g.revision == revision)
          then (s, some stale_selection)
          else elim (transition g next) [
            | none ↦ (s, some bad_transition)
            | some moved ↦ elim (change_refused agent s.process_id g next now) [
              | some e ↦ (s, some e)
              | none ↦
                  let changed = record moved { suspend_reason = owner } in
                  denied_unless_saved id changed next
                    (save_locked store now (replace_grant id changed s))
            ]
          ]
    ]
