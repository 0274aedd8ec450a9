-- ===== src/Domain/Access/Decision.antt =====
-- When access is allowed, and what ends it.
use herdr_telegram_agents.Common.{◌<◌, ◌≡◌, ◌↔◌, ◌⊎◌, true, false, arith, nat_eq, ◌==◌}
use herdr_telegram_agents.Common.Int.{int_eq, is_nonpos}
use herdr_telegram_agents.Domain.Key.{Key, is_empty}
use herdr_telegram_agents.Domain.Mapping.{Time}
use herdr_telegram_agents.Domain.Sharing.{grant_state_eq, ShareGrant, active, MirrorBinding}
use herdr_telegram_agents.Domain.Access.{
  ShareAction, ShareOrigin, is_malformed, is_expired, is_elsewhere, is_superseded, is_other_key,
  is_other_process, share_permits, authorize_share,
}

-- What a permitted request must satisfy.
pub record IsAuthorized (g : ShareGrant) (m : MirrorBinding) (o : ShareOrigin) (current : Key)
    (action : ShareAction) (now : Time) : Type 0 where
  pub live_grant : g.state ≡ active
  pub numbered : 0 < g.revision
  pub named : is_empty g.id ≡ false
  pub real_recipient : is_nonpos g.recipient_id ≡ false
  pub in_time : (g.expires_at ≡ 0) ⊎ (now < g.expires_at)
  pub own_actor : o.actor_id ≡ g.recipient_id
  pub own_mirror : m.grant_id ≡ g.id
  pub settled : m.creating ≡ false
  pub private_chat : is_nonpos m.address.chat_id ≡ false
  pub real_thread : is_nonpos m.address.thread_id ≡ false
  pub own_address : o.address ≡ m.address
  pub own_grant : o.grant_id ≡ g.id
  pub own_revision : o.revision ≡ g.revision
  pub has_pane : is_empty g.key.pane_id ≡ false
  pub has_terminal : is_empty g.key.terminal_id ≡ false
  pub own_key : o.key ≡ g.key
  pub same_session : current ≡ g.key
  pub same_process :
      (is_empty g.key.session_digest ≡ false)
      ⊎ ((is_empty g.process_id ≡ false) × (g.process_id ≡ o.process_id))
  pub permitted : share_permits g action ≡ true

module _ (g : ShareGrant) (m : MirrorBinding) (o : ShareOrigin) (current : Key)
    (action : ShareAction) (now : Time) where
  record Passes : Type 0 where
    formed : is_malformed g ≡ false
    is_active : (g.state == active) ≡ true
    timely : is_expired g now ≡ false
    by_recipient : (o.actor_id == g.recipient_id) ≡ true
    here : is_elsewhere g m o ≡ false
    current_revision : is_superseded g o ≡ false
    same_key : is_other_key g o current ≡ false
    process : is_other_process g o ≡ false
    capable : share_permits g action ≡ true

  allowed-Passes : (authorize_share g m o current action now).is_allowed ≡ true → Passes
  unfolding authorize_share
  allowed-Passes h = ground arith

  Passes-IsAuthorized : Passes → IsAuthorized g m o current action now
  Passes-IsAuthorized p = record {
    live_grant = ground arith;
    numbered = unfold is_malformed in ground arith;
    named = unfold is_malformed in ground arith;
    real_recipient = unfold is_malformed in ground arith;
    in_time = unfold is_expired in ground arith;
    own_actor = ground arith;
    own_mirror = unfold is_elsewhere in ground arith;
    settled = unfold is_elsewhere in ground arith;
    private_chat = unfold is_elsewhere in ground arith;
    real_thread = unfold is_elsewhere in ground arith;
    own_address = unfold is_elsewhere in ground arith;
    own_grant = unfold is_superseded in ground arith;
    own_revision = unfold is_superseded in ground arith;
    has_pane = unfold is_other_key in ground arith;
    has_terminal = unfold is_other_key in ground arith;
    own_key = unfold is_other_key in ground arith;
    same_session = unfold is_other_key in ground arith;
    same_process = unfold is_other_process in ground arith;
    permitted = p.capable;
  }

  IsAuthorized-Passes : IsAuthorized g m o current action now → Passes
  unfolding share_permits is_malformed is_expired is_elsewhere is_superseded is_other_key
      is_other_process
  IsAuthorized-Passes h = record {
    formed = ground arith;
    is_active = ground arith;
    timely = ground arith;
    by_recipient = ground arith;
    here = ground arith;
    current_revision = ground arith;
    same_key = ground arith;
    process = ground arith;
    capable = h.permitted;
  }

  -- AuthorizeShare allows a request exactly when every condition of IsAuthorized holds: an active,
  -- well-formed, unexpired grant of this revision, the recipient as the actor, the private topic
  -- of the settled mirror, the granted key as the key of the work and as the current one, the same
  -- process where the key has no session digest, and a role and flags that permit the action.
  pub authorize_exact :
      ((authorize_share g m o current action now).is_allowed ≡ true)
      ↔ IsAuthorized g m o current action now
  unfolding authorize_share
  authorize_exact = (
    λ h. Passes-IsAuthorized (allowed-Passes h),
    λ h. let p = IsAuthorized-Passes h in ground arith,
  )
