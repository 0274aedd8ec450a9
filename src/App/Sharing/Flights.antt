-- ===== src/App/Sharing/Flights.antt =====
-- Whatever the manager was called with, work in flight is work of the current revision of its grant.
use herdr_telegram_agents.Common.{◌≡◌, ap, true, ◌⊎◌, some, arith, nat_eq}
use herdr_telegram_agents.Common.Text.{Text, text_eq}
use herdr_telegram_agents.Common.Int.{int_eq}
use herdr_telegram_agents.Common.GoMap.{lookup}
use herdr_telegram_agents.Domain.Sharing.{ShareGrant, grant_state_eq, active, suspended}
use herdr_telegram_agents.App.Sharing.{Sharing, Call, calls_of, new_sharing}
use herdr_telegram_agents.App.Sharing.Grants.{rewrite_grant, by_persistence}
use herdr_telegram_agents.App.Sharing.Sweeps.{suspend, grant_or_zero}
use herdr_telegram_agents.App.Sharing.Steps.{
  Step, Reachable, started, stepped, registering, flushing, observing, reaching, hiding, serving,
  showing, repairing_service, granting, changing, following, expiring, retiring, preparing,
  activating, repairing, missing, preferring, recording, forgetting, beginning, guarding, releasing,
}
use herdr_telegram_agents.App.Sharing.Current.{insert-IsCurrent_same}
use herdr_telegram_agents.App.Sharing.Kept.{
  register-Keeps, flush-Keeps, observe_update-Keeps, reachability-Keeps, hide_recipient-Keeps,
  service_topic-Keeps, dashboard-Keeps, repair_service-Keeps, prepare_mirror-Keeps,
  preferences-Keeps, record_output-Keeps, forget_mirror-Keeps,
}
use herdr_telegram_agents.App.Sharing.Admitted.{
  IsSound, Keeps-IsSound, saved-IsSound, replace_grant-IsSound, swap_grant-IsSound, grant-IsSound,
  change_state-IsSound, retire_mirror-IsSound, activate_mirror-IsSound, repair_mirror-IsSound,
  missing_mirror-IsSound, begin-IsSound, binding_guard-IsSound, release-IsSound,
}
use herdr_telegram_agents.App.Sharing.Rounds.{expire_cases, lifecycle_cases}

-- A grant that is suspended after a failed save keeps its revision.
suspended-IsSound :
    (id : Text) (s : Sharing)
    → IsSound s
    → IsSound
        (rewrite_grant id (suspend by_persistence (grant_or_zero (lookup id s.state.grants))) s)
unfolding grant_or_zero
suspended-IsSound id s sound =
    let g' = suspend by_persistence (grant_or_zero (lookup id s.state.grants)) in
    record {
      current =
          insert-IsCurrent_same s.state.grants s.inflight id g'
            (λ g known. ap (λ o. (suspend by_persistence (grant_or_zero o)).revision) known)
            (ground arith) sound.current;
    }

-- A call keeps the work in flight at the revision of its grant.
pub Step-IsSound : (s s' : Sharing) → Step s s' → IsSound s → IsSound s'
Step-IsSound s _ (registering store id chat_id name username now) sound =
    Keeps-IsSound s _ (register-Keeps store id chat_id name username now s) sound
Step-IsSound s _ (flushing store now force) sound =
    Keeps-IsSound s _ (flush-Keeps store now force s) sound
Step-IsSound s _ (observing id) sound = Keeps-IsSound s _ (observe_update-Keeps id s) sound
Step-IsSound s _ (reaching store id away now) sound =
    Keeps-IsSound s _ (reachability-Keeps store id away now s) sound
Step-IsSound s _ (hiding store id hidden now) sound =
    Keeps-IsSound s _ (hide_recipient-Keeps store id hidden now s) sound
Step-IsSound s _ (serving store id address now) sound =
    Keeps-IsSound s _ (service_topic-Keeps store id address now s) sound
Step-IsSound s _ (showing store id address now) sound =
    Keeps-IsSound s _ (dashboard-Keeps store id address now s) sound
Step-IsSound s _ (repairing_service store id now) sound =
    Keeps-IsSound s _ (repair_service-Keeps store id now s) sound
Step-IsSound s _ (granting store fresh r now) sound = grant-IsSound store fresh r now s sound
Step-IsSound s _ (changing store agent id revision next now) sound =
    change_state-IsSound store agent id revision next now s sound
Step-IsSound s _ (following store e now) sound =
    lifecycle_cases IsSound replace_grant-IsSound store (saved-IsSound store) swap_grant-IsSound
      (λ t h. record { current = h.current }) (λ t h. record { current = h.current })
      suspended-IsSound e now s sound
Step-IsSound s _ (expiring store now) sound =
    expire_cases IsSound replace_grant-IsSound store (saved-IsSound store) now s sound
Step-IsSound s _ (retiring store id revision now) sound =
    retire_mirror-IsSound store id revision now s sound
Step-IsSound s _ (preparing store fresh id revision now) sound =
    Keeps-IsSound s _ (prepare_mirror-Keeps store fresh id revision now s) sound
Step-IsSound s _ (activating store id revision topic now) sound =
    activate_mirror-IsSound store id revision topic now s sound
Step-IsSound s _ (repairing store id revision now) sound =
    repair_mirror-IsSound store id revision now s sound
Step-IsSound s _ (missing store id revision now) sound =
    missing_mirror-IsSound store id revision now s sound
Step-IsSound s _ (preferring store o p now) sound =
    Keeps-IsSound s _ (preferences-Keeps store o p now s) sound
Step-IsSound s _ (recording o hash keyboard) sound =
    Keeps-IsSound s _ (record_output-Keeps o hash keyboard s) sound
Step-IsSound s _ (forgetting store id revision now) sound =
    Keeps-IsSound s _ (forget_mirror-Keeps store id revision now s) sound
Step-IsSound s _ (beginning agent ended token o action now) sound =
    begin-IsSound agent ended token o action now s sound
Step-IsSound s _ (guarding ended token id revision) sound =
    binding_guard-IsSound ended token id revision s sound
Step-IsSound s _ (releasing id token) sound = release-IsSound id token s sound

Reachable-IsSound : (s : Sharing) → Reachable s → IsSound s
unfolding new_sharing
Reachable-IsSound _ (started bot_id process_id loaded) = record {
  current = λ id token c has_call dispatch. absurd (ground arith);
}
Reachable-IsSound s' (stepped {s = s} r step) = Step-IsSound s s' step (Reachable-IsSound s r)

-- In every manager of shares that a start and any calls lead to, whatever the store answers, the
-- grant of a dispatch in flight is stored, active or suspended, at the revision at which the
-- dispatch was let through.
pub dispatch_is_current :
    (s : Sharing) (id token : Text) (c : Call)
    → Reachable s
    → lookup token (calls_of s id) ≡ some c
    → c.is_dispatch ≡ true
    → (g : ShareGrant) × (lookup id s.state.grants ≡ some g)
      × (g.revision ≡ c.admitted)
      × ((g.state ≡ active) ⊎ (g.state ≡ suspended))
dispatch_is_current s id token c r known dispatch =
    let k = (Reachable-IsSound s r).current id token c known dispatch in
    (k.stored, k.found, k.same_revision, ground (arith, k.running))
