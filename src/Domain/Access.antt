-- ===== src/Domain/Access.antt =====
-- internal/domain/access.go: whether a grant permits an action of a recipient.
pub mod Decision
pub mod Safety
use herdr_telegram_agents.Common.{
  ℕ, Bool, true, false, not, ◌&&◌, ◌||◌, nat_eq, DecEq, ◌==◌, leb, if◌then◌else◌,
}
use herdr_telegram_agents.Common.Text.{Text, text_eq}
use herdr_telegram_agents.Common.Int.{ℤ, int_eq, is_nonpos}
use herdr_telegram_agents.Domain.Key.{Key, key_eq, is_empty}
use herdr_telegram_agents.Domain.Mapping.{Time}
use herdr_telegram_agents.Domain.Sharing.{
  TopicAddress, address_eq, ShareGrant, grant_state_eq, active, ShareRole, role_eq, read, control,
  MirrorBinding,
}

-- `other` is any other string.
pub data ShareAction : Type 0 where
  output screen history overview preferences : ShareAction
  prompt attachment dialog keys forward git close focus : ShareAction
  other : Text → ShareAction

pub data AccessReason : Type 0 where
  allowed invalid inactive expired wrong_actor wrong_destination : AccessReason
  stale_revision changed_session missing_capability : AccessReason

pub record ShareOrigin : Type 0 where
  pub actor_id : ℤ
  pub address : TopicAddress
  pub message_id : ℤ
  pub grant_id : Text
  pub revision : ℕ
  pub key : Key
  pub process_id : Text

pub record AccessDecision : Type 0 where
  pub is_allowed : Bool
  pub reason : AccessReason
  pub history_cursor : ℕ

abbrev pub has_role : ShareGrant → Bool
has_role g = g.role == read || g.role == control

abbrev pub controls : ShareGrant → Bool
controls g = g.role == control

-- The `switch` of `SharePermits`.
abbrev pub capability : ShareGrant → ShareAction → Bool
capability g output = true
capability g screen = true
capability g history = true
capability g overview = true
capability g preferences = true
capability g prompt = controls g
capability g attachment = controls g
capability g dialog = controls g
capability g keys = controls g
capability g forward = controls g
capability g git = controls g || g.repository_read
capability g close = controls g && g.close_agent
capability g focus = controls g && g.local_focus
capability g (other s) = false

unfoldable pub share_permits : ShareGrant → ShareAction → Bool
share_permits g action = if not (has_role g) then false else capability g action

abbrev pub deny : AccessReason → AccessDecision
deny reason = record { is_allowed = false; reason = reason; history_cursor = 0 }

-- The tests of `AuthorizeShare`, in its order.
unfoldable pub is_malformed : ShareGrant → Bool
is_malformed g =
    is_empty g.id || (g.revision == 0 || (is_nonpos g.recipient_id || not (has_role g)))

unfoldable pub is_expired : ShareGrant → Time → Bool
is_expired g now = not (g.expires_at == 0) && leb g.expires_at now

unfoldable pub is_elsewhere : ShareGrant → MirrorBinding → ShareOrigin → Bool
is_elsewhere g m o =
    not (m.grant_id == g.id)
    || (m.creating
        || (is_nonpos m.address.chat_id
            || (is_nonpos m.address.thread_id || not (o.address == m.address))))

unfoldable pub is_superseded : ShareGrant → ShareOrigin → Bool
is_superseded g o = not (o.grant_id == g.id) || not (o.revision == g.revision)

unfoldable pub is_other_key : ShareGrant → ShareOrigin → Key → Bool
is_other_key g o current =
    is_empty g.key.pane_id
    || (is_empty g.key.terminal_id || (not (o.key == g.key) || not (current == g.key)))

unfoldable pub is_other_process : ShareGrant → ShareOrigin → Bool
is_other_process g o =
    is_empty g.key.session_digest && (is_empty g.process_id || not (g.process_id == o.process_id))

-- AuthorizeShare
unfoldable pub authorize_share :
    ShareGrant → MirrorBinding → ShareOrigin → Key → ShareAction → Time → AccessDecision
authorize_share g m o current action now =
    if is_malformed g
    then deny invalid
    else if not (g.state == active)
    then deny inactive
    else if is_expired g now
    then deny expired
    else if not (o.actor_id == g.recipient_id)
    then deny wrong_actor
    else if is_elsewhere g m o
    then deny wrong_destination
    else if is_superseded g o
    then deny stale_revision
    else if is_other_key g o current
    then deny changed_session
    else if is_other_process g o
    then deny changed_session
    else if not (share_permits g action)
    then deny missing_capability
    else record { is_allowed = true; reason = allowed; history_cursor = g.history_cursor }
