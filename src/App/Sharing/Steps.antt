-- ===== src/App/Sharing/Steps.antt =====
-- The calls of the manager of internal/app/sharing.go, in any order. Each call meets a store of its own,
-- since a save may succeed at one time and fail at another.
use herdr_telegram_agents.Common.{ℕ, Bool, Option}
use herdr_telegram_agents.Common.Text.{Text}
use herdr_telegram_agents.Common.Int.{ℤ}
use herdr_telegram_agents.Domain.Mapping.{Time, Topic}
use herdr_telegram_agents.Domain.Sharing.{TopicAddress, GrantState, MirrorPreferences}
use herdr_telegram_agents.Domain.Sharing.State.{SharingState, MessageAddress}
use herdr_telegram_agents.Domain.Access.{ShareOrigin, ShareAction}
use herdr_telegram_agents.App.Registry.{AgentEvent}
use herdr_telegram_agents.App.Sharing.{Sharing, Store, new_sharing, register, flush}
use herdr_telegram_agents.App.Sharing.Contacts.{
  observe_update, reachability, hide_recipient, service_topic, dashboard, repair_service,
}
use herdr_telegram_agents.App.Sharing.Grants.{AgentLookup, GrantRequest, grant, change_state}
use herdr_telegram_agents.App.Sharing.Sweeps.{lifecycle, expire, retire_mirror}
use herdr_telegram_agents.App.Sharing.Mirrors.{
  prepare_mirror, activate_mirror, repair_mirror, missing_mirror, preferences, record_output,
  forget_mirror,
}
use herdr_telegram_agents.App.Sharing.Dispatch.{begin, binding_guard, release}

pub data Step : Sharing → Sharing → Type 0 where
  registering :
      {s : Sharing}
      → (store : Store) (id chat_id : ℤ) (name username : Text) (now : Time)
      → Step s (register store id chat_id name username now s).0
  flushing :
      {s : Sharing}
      → (store : Store) (now : Time) (force : Bool) → Step s (flush store now force s).0
  observing : {s : Sharing} → (id : ℤ) → Step s (observe_update id s)
  reaching :
      {s : Sharing}
      → (store : Store) (id : ℤ) (gone : Bool) (now : Time)
      → Step s (reachability store id gone now s).0
  hiding :
      {s : Sharing}
      → (store : Store) (id : ℤ) (hidden : Bool) (now : Time)
      → Step s (hide_recipient store id hidden now s).0
  serving :
      {s : Sharing}
      → (store : Store) (id : ℤ) (address : TopicAddress) (now : Time)
      → Step s (service_topic store id address now s).0
  showing :
      {s : Sharing}
      → (store : Store) (id : ℤ) (address : MessageAddress) (now : Time)
      → Step s (dashboard store id address now s).0
  repairing_service :
      {s : Sharing}
      → (store : Store) (id : ℤ) (now : Time) → Step s (repair_service store id now s).0
  granting :
      {s : Sharing}
      → (store : Store) (fresh : Text) (r : GrantRequest) (now : Time)
      → Step s (grant store fresh r now s).0
  changing :
      {s : Sharing}
      → (store : Store) (agent : AgentLookup) (id : Text) (revision : ℕ) (next : GrantState)
        (now : Time)
      → Step s (change_state store agent id revision next now s).0
  following :
      {s : Sharing}
      → (store : Store) (e : AgentEvent) (now : Time) → Step s (lifecycle store e now s).0
  expiring : {s : Sharing} → (store : Store) (now : Time) → Step s (expire store now s).0
  retiring :
      {s : Sharing}
      → (store : Store) (id : Text) (revision : ℕ) (now : Time)
      → Step s (retire_mirror store id revision now s).0
  preparing :
      {s : Sharing}
      → (store : Store) (fresh id : Text) (revision : ℕ) (now : Time)
      → Step s (prepare_mirror store fresh id revision now s).0
  activating :
      {s : Sharing}
      → (store : Store) (id : Text) (revision : ℕ) (topic : Topic) (now : Time)
      → Step s (activate_mirror store id revision topic now s).0
  repairing :
      {s : Sharing}
      → (store : Store) (id : Text) (revision : ℕ) (now : Time)
      → Step s (repair_mirror store id revision now s).0
  missing :
      {s : Sharing}
      → (store : Store) (id : Text) (revision : ℕ) (now : Time)
      → Step s (missing_mirror store id revision now s).0
  preferring :
      {s : Sharing}
      → (store : Store) (o : ShareOrigin) (p : MirrorPreferences) (now : Time)
      → Step s (preferences store o p now s).0
  recording :
      {s : Sharing}
      → (o : ShareOrigin) (hash : Text) (keyboard : ℤ) → Step s (record_output o hash keyboard s)
  forgetting :
      {s : Sharing}
      → (store : Store) (id : Text) (revision : ℕ) (now : Time)
      → Step s (forget_mirror store id revision now s).0
  beginning :
      {s : Sharing}
      → (agent : AgentLookup) (ended : Bool) (token : Text) (o : ShareOrigin) (action : ShareAction)
        (now : Time)
      → Step s (begin agent ended token o action now s).0
  guarding :
      {s : Sharing}
      → (ended : Bool) (token id : Text) (revision : ℕ)
      → Step s (binding_guard ended token id revision s).0
  releasing : {s : Sharing} → (id token : Text) → Step s (release id token s)

-- The managers that a start and any calls lead to.
pub data Reachable : Sharing → Type 0 where
  started :
      (bot_id : ℤ) (process_id : Text) (loaded : Option SharingState)
      → Reachable (new_sharing bot_id process_id loaded)
  stepped : {s s' : Sharing} → Reachable s → Step s s' → Reachable s'
