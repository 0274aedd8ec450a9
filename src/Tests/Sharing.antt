-- ===== src/Tests/Sharing.antt =====
-- Shares and their access checks on concrete grants.
use herdr_telegram_agents.Common.{
  ℕ_discrete, ◌≡◌, refl, true, false, some, [], ◌∷◌, arith, elem, ◌↔◌,
}
use herdr_telegram_agents.Common.Text.{codes, Text-discrete}
use herdr_telegram_agents.Common.Int.{pos, ℤ-discrete}
use herdr_telegram_agents.Domain.Sharing.{
  ShareGrant, MirrorBinding, TopicAddress, transitions, transition, active, suspended, pending,
  revoked, grant_state_eq, GrantState-discrete, ShareRole-discrete, TopicAddress-discrete, control,
  read,
}
use herdr_telegram_agents.Domain.Sharing.Lifecycle.{revival_needs_pending}
use herdr_telegram_agents.Domain.Access.{
  ShareOrigin, authorize_share, is_malformed, is_expired, is_elsewhere, is_superseded, is_other_key,
  is_other_process, share_permits, prompt, output,
}
use herdr_telegram_agents.Domain.Access.Decision.{IsAuthorized, authorize_exact}
use herdr_telegram_agents.Domain.Access.Safety.{stale_work_refused}
use herdr_telegram_agents.Domain.Key.{Key-discrete}
use herdr_telegram_agents.Tests.Data.{key_one}

abbrev pub grant : ShareGrant
grant = record {
  suspend_reason = [];
  id = codes "g";
  recipient_id = pos 5;
  key = key_one;
  revision = 3;
  state = active;
  role = control;
  repository_read = false;
  close_agent = false;
  local_focus = false;
  exited_at = 0;
  expires_at = 100;
  activated_at = 1;
  history_cursor = 9;
  process_id = codes "4711";
}

abbrev reader : ShareGrant
reader = record grant { role = read }

abbrev pub chat : TopicAddress
chat = record { chat_id = pos 5; thread_id = pos 2 }

abbrev pub mirror : MirrorBinding
mirror = record {
  grant_id = codes "g";
  address = chat;
  preferences = record {
    alias = [];
    paused = false;
    silent = false;
    display = [];
    fold = pos 0;
    metadata = false;
  };
  keyboard_message_id = pos 0;
  last_output = [];
  navigation_id = [];
  creating = false;
}

abbrev pub request : ShareOrigin
request = record {
  actor_id = pos 5;
  address = chat;
  message_id = pos 1;
  grant_id = codes "g";
  revision = 3;
  key = key_one;
  process_id = codes "4711";
}

abbrev cut_short : ShareGrant
cut_short = record grant { state = suspended; revision = 4 }

abbrev killed : ShareGrant
killed = record grant { state = revoked; revision = 4 }

permitted : (authorize_share grant mirror request key_one prompt 50).is_allowed ≡ true
unfolding authorize_share is_malformed is_expired is_elsewhere is_superseded is_other_key
    is_other_process share_permits GrantState-discrete ShareRole-discrete TopicAddress-discrete
    Key-discrete Text-discrete ℤ-discrete ℕ_discrete
permitted = refl

reading : (authorize_share reader mirror request key_one output 50).is_allowed ≡ true
unfolding authorize_share is_malformed is_expired is_elsewhere is_superseded is_other_key
    is_other_process share_permits GrantState-discrete ShareRole-discrete TopicAddress-discrete
    Key-discrete Text-discrete ℤ-discrete ℕ_discrete
reading = refl

to_suspended : transitions grant (suspended ∷ []) ≡ some cut_short
unfolding transitions transition
to_suspended = ground arith

revived : transitions killed (pending ∷ active ∷ []) ≡ some (record grant { revision = 6 })
unfolding transitions transition
revived = ground arith

authorize_exact_example :
    ((authorize_share grant mirror request key_one prompt 50).is_allowed ≡ true)
    ↔ IsAuthorized grant mirror request key_one prompt 50
authorize_exact_example = authorize_exact grant mirror request key_one prompt 50

stale_work_refused_example :
    (authorize_share cut_short mirror request key_one prompt 50).is_allowed ≡ false
stale_work_refused_example =
    stale_work_refused grant cut_short (suspended ∷ []) mirror request key_one prompt 50
      (ground arith) refl (ground arith) to_suspended

revival_needs_pending_example : elem pending (pending ∷ active ∷ []) ≡ true
revival_needs_pending_example =
    revival_needs_pending killed (record grant { revision = 6 }) (pending ∷ active ∷ []) refl
      revived refl
