-- ===== src/Tests/Shares.antt =====
-- Runs of the manager of the private shares.
use herdr_telegram_agents.Common.{
  ℕ, elem, ◌+◌, ◌≢◌, Option, ◌≡◌, ◌⊎◌, inr, refl, true, false, some, none, [], ◌∷◌, ℕ_discrete,
  arith,
}
use herdr_telegram_agents.Common.Text.{codes, Text-discrete, text_eq}
use herdr_telegram_agents.Common.Int.{pos, ℤ-discrete}
use herdr_telegram_agents.Common.GoMap.{lookup, has}
use herdr_telegram_agents.Domain.Key.{Key-discrete}
use herdr_telegram_agents.Domain.Status.{Status-discrete}
use herdr_telegram_agents.Domain.Sharing.{
  ShareGrant, active, revoked, suspended, transition, max_uint64, GrantState-discrete,
  ShareRole-discrete, TopicAddress-discrete,
}
use herdr_telegram_agents.Domain.Sharing.State.{SharingState, Recipient, validate}
use herdr_telegram_agents.Domain.Access.{
  authorize_share, is_malformed, is_expired, is_elsewhere, is_superseded, is_other_key,
  is_other_process, share_permits, prompt,
}
use herdr_telegram_agents.App.Registry.{AgentEvent, event, gone}
use herdr_telegram_agents.App.Sharing.{
  Sharing, Store, Call, saved, failed, save_failed, not_durable, calls_of, new_sharing, save_locked,
  cancel_locked,
}
use herdr_telegram_agents.App.Sharing.Grants.{
  AgentLookup, change_state, change_refused, activation_refused,
}
use herdr_telegram_agents.App.Sharing.Sweeps.{
  lifecycle, lifecycle_loop, fate_of, is_concerned, suspend_all, grant_or_zero, expire,
}
use herdr_telegram_agents.App.Sharing.Dispatch.{begin}
use herdr_telegram_agents.App.Sharing.Steps.{started, stepped, beginning, expiring}
use herdr_telegram_agents.App.Sharing.Flights.{dispatch_is_current}
use herdr_telegram_agents.App.Sharing.Denials.{change_denies}
use herdr_telegram_agents.App.Sharing.Exits.{lifecycle_denies}
use herdr_telegram_agents.App.Sharing.Expiry.{IsPastEnd, over, expire_exact}
use herdr_telegram_agents.App.Sharing.Disabled.{disabled_forever}
use herdr_telegram_agents.State.SharingStore.{
  SharingStore, missing, undecodable, decoded, new_sharing_store, load, save, loaded_from,
}
use herdr_telegram_agents.State.SharingStore.Safety.{
  opened, loading, saving, is_settled, corrupt_file_kept, loaded_file_settled, manager_after,
  store_after, save_locked_atomic,
}
use herdr_telegram_agents.Tests.Data.{claude}
use herdr_telegram_agents.Tests.Sharing.{grant, mirror, request}

abbrev alice : Recipient
alice = record {
  id = pos 5;
  chat_id = pos 5;
  name = codes "Alice";
  username = [];
  first_seen = 1;
  last_seen = 1;
  unavailable = false;
  hidden = false;
}

abbrev policy : SharingState
policy = record {
  version = pos 1;
  bot_id = pos 9;
  revision = 4;
  update_id = pos 0;
  recipients = (pos 5, alice) ∷ [];
  grants = (codes "g", grant) ∷ [];
  mirrors = (codes "g", mirror) ∷ [];
  service_topics = [];
  dashboards = [];
}

abbrev manager : Sharing
manager = record {
  bot_id = pos 9;
  process_id = codes "4711";
  inflight = [];
  cancelled = [];
  state = policy;
  disabled = false;
  dirty = false;
  last_save = 0;
  contact_window = 0;
  contact_count = 0;
}

abbrev off : Sharing
off = record manager { disabled = true }

abbrev everyone : AgentLookup
everyone = some (λ k. some claude)

-- A disk that is full.
abbrev broken : Store
broken next = failed

abbrev working_store : Store
working_store next = saved

abbrev begun : Sharing
begun =
    (begin everyone false (codes "t") request prompt 50
      (new_sharing (pos 9) (codes "4711") (some policy))).0

abbrev call : Call
call = record { is_dispatch = true; admitted = 3 }

begun-call : lookup (codes "t") (calls_of begun (codes "g")) ≡ some call
unfolding begin new_sharing authorize_share is_malformed is_expired is_elsewhere is_superseded
    is_other_key is_other_process share_permits Key-discrete Text-discrete ℤ-discrete
    GrantState-discrete ShareRole-discrete TopicAddress-discrete Status-discrete ℕ_discrete
begun-call = refl

dispatch_is_current_example :
    (g : ShareGrant) × (lookup (codes "g") begun.state.grants ≡ some g)
    × (g.revision ≡ call.admitted)
    × ((g.state ≡ active) ⊎ (g.state ≡ suspended))
dispatch_is_current_example =
    dispatch_is_current begun (codes "g") (codes "t") call
      (stepped (started (pos 9) (codes "4711") (some policy))
        (beginning everyone false (codes "t") request prompt 50))
      begun-call refl

-- The owner revokes the grant, and the disk is full.
abbrev cut_off : Sharing
cut_off = (change_state broken everyone (codes "g") 3 revoked 50 begun).0

unsaved : (change_state broken everyone (codes "g") 3 revoked 50 begun).1 ≡ some not_durable
unfolding change_state change_refused activation_refused save_locked cancel_locked transition begin
    new_sharing authorize_share is_malformed is_expired is_elsewhere is_superseded is_other_key
    is_other_process share_permits ShareRole-discrete TopicAddress-discrete Status-discrete
    Key-discrete Text-discrete ℤ-discrete GrantState-discrete ℕ_discrete
unsaved = refl

change_denies_example :
    ((begin everyone false (codes "t") request prompt 60 cut_off).1.is_allowed ≡ false)
    × (lookup (codes "g") cut_off.inflight ≡ none)
    × ((has (codes "t") (calls_of begun (codes "g")) ≡ false)
        ⊎ (elem (codes "t") cut_off.cancelled ≡ true))
change_denies_example =
    change_denies broken everyone (codes "g") 3 revoked 50 begun everyone false (codes "t") request
      prompt 60 (codes "t") (inr unsaved) refl

abbrev exit : AgentEvent
exit = event gone claude

abbrev left : Sharing
left = (lifecycle broken exit 50 manager).0

exit_unsaved : (lifecycle broken exit 50 manager).1 ≡ some save_failed
unfolding lifecycle lifecycle_loop fate_of is_concerned suspend_all grant_or_zero save_locked
    cancel_locked Key-discrete Text-discrete ℤ-discrete GrantState-discrete ℕ_discrete
exit_unsaved = refl

exit_concerns : is_concerned exit grant ≡ true
unfolding is_concerned Text-discrete GrantState-discrete ℕ_discrete
exit_concerns = refl

grant_stored : lookup (codes "g") manager.state.grants ≡ some grant
unfolding Text-discrete ℕ_discrete
grant_stored = refl

lifecycle_denies_example :
    (begin everyone false (codes "t") request prompt 60 left).1.is_allowed ≡ false
lifecycle_denies_example =
    lifecycle_denies broken exit 50 manager save_failed (codes "g") grant everyone false (codes "t")
      request prompt 60 exit_unsaved grant_stored exit_concerns refl

expire_exact_example :
    (IsPastEnd 100 grant
      × (grant.revision ≢ max_uint64)
      × (lookup (codes "g") (expire working_store 100 manager).0.state.grants ≡ some (over grant)))
    ⊎ (((¬ IsPastEnd 100 grant) ⊎ (grant.revision ≡ max_uint64))
        × (lookup (codes "g") (expire working_store 100 manager).0.state.grants ≡ some grant))
expire_exact_example =
    expire_exact working_store 100 manager (codes "g") grant (refl, tt) refl grant_stored

disabled_forever_example :
    ((expire working_store 100 off).0.state ≡ off.state)
    × ((expire working_store 100 off).0.disabled ≡ true)
disabled_forever_example = disabled_forever off _ (expiring working_store 100) refl

-- A file that holds no state, and a save over it.
abbrev damaged : SharingStore
damaged = (save (λ st. some 100) false true policy (load false (new_sharing_store undecodable)).0).0

corrupt_file_kept_example : (damaged.content ≡ undecodable) × (damaged.loaded ≡ false)
corrupt_file_kept_example =
    corrupt_file_kept undecodable damaged
      (saving (loading opened false) (λ st. some 100) false true policy) refl

abbrev first_start : SharingStore
first_start = (load false (new_sharing_store missing)).0

first_loaded : first_start.loaded ≡ true
unfolding load loaded_from new_sharing_store
first_loaded = refl

loaded_file_settled_example : is_settled first_start.revision first_start.content ≡ true
loaded_file_settled_example =
    loaded_file_settled missing first_start (loading opened false) first_loaded

-- The store of the policy, as it was loaded.
abbrev shelf : SharingStore
shelf = record { blocked = false; loaded = true; revision = 4; content = decoded policy }

abbrev small : SharingState → Option ℕ
small st = some 100

save_locked_atomic_example :
    (((manager_after small false true 50 manager shelf).1 ≡ none)
      × ((manager_after small false true 50 manager shelf).0.state
          ≡ record policy { revision = 4 + 1 })
      × ((store_after small false true manager shelf).content
          ≡ decoded (manager_after small false true 50 manager shelf).0.state)
      × ((store_after small false true manager shelf).revision
          ≡ (manager_after small false true 50 manager shelf).0.state.revision)
      × (validate (manager_after small false true 50 manager shelf).0.state ≡ true))
    ⊎ (((manager_after small false true 50 manager shelf).1 ≢ none)
        × ((manager_after small false true 50 manager shelf).0.state ≡ policy)
        × (store_after small false true manager shelf ≡ shelf))
save_locked_atomic_example =
    save_locked_atomic small false true 50 manager shelf (omega arith) (omega arith)
