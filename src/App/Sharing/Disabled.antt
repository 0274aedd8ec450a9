-- ===== src/App/Sharing/Disabled.antt =====
-- A disabled manager stays disabled, and its policy stays as it is.
use herdr_telegram_agents.Common.{◌≡◌, true, none, some, arith}
use herdr_telegram_agents.Common.Text.{text_eq}
use herdr_telegram_agents.Common.Int.{int_eq}
use herdr_telegram_agents.App.Sharing.{Sharing, register, flush}
use herdr_telegram_agents.App.Sharing.Contacts.{
  observe_update, reachability, hide_recipient, service_topic, dashboard, repair_service,
}
use herdr_telegram_agents.App.Sharing.Grants.{grant, change_state}
use herdr_telegram_agents.App.Sharing.Sweeps.{lifecycle, expire, retire_mirror}
use herdr_telegram_agents.App.Sharing.Mirrors.{
  prepare_mirror, activate_mirror, repair_mirror, missing_mirror, preferences, record_output,
  forget_mirror,
}
use herdr_telegram_agents.App.Sharing.Dispatch.{begin, binding_guard, release}
use herdr_telegram_agents.App.Sharing.Steps.{
  Step, registering, flushing, observing, reaching, hiding, serving, showing, repairing_service,
  granting, changing, following, expiring, retiring, preparing, activating, repairing, missing,
  preferring, recording, forgetting, beginning, guarding, releasing,
}

-- No call of a disabled manager of shares changes its policy or enables it.
pub disabled_forever :
    (s s' : Sharing) → Step s s' → s.disabled ≡ true → (s'.state ≡ s.state) × (s'.disabled ≡ true)
unfolding register flush observe_update reachability hide_recipient service_topic dashboard
    repair_service grant change_state lifecycle expire retire_mirror prepare_mirror activate_mirror
    repair_mirror missing_mirror preferences record_output forget_mirror begin binding_guard release
disabled_forever s _ (registering store id chat_id name username now) off = ground arith
disabled_forever s _ (flushing store now force) off = ground arith
disabled_forever s _ (observing id) off = ground arith
disabled_forever s _ (reaching store id away now) off = ground arith
disabled_forever s _ (hiding store id hidden now) off = ground arith
disabled_forever s _ (serving store id address now) off = ground arith
disabled_forever s _ (showing store id address now) off = ground arith
disabled_forever s _ (repairing_service store id now) off = ground arith
disabled_forever s _ (granting store fresh r now) off = ground arith
disabled_forever s _ (changing store agent id revision next now) off = ground arith
disabled_forever s _ (following store e now) off = ground arith
disabled_forever s _ (expiring store now) off = ground arith
disabled_forever s _ (retiring store id revision now) off = ground arith
disabled_forever s _ (preparing store fresh id revision now) off = ground arith
disabled_forever s _ (activating store id revision topic now) off = ground arith
disabled_forever s _ (repairing store id revision now) off = ground arith
disabled_forever s _ (missing store id revision now) off = ground arith
disabled_forever s _ (preferring store o p now) off = ground arith
disabled_forever s _ (recording o hash keyboard) off = ground arith
disabled_forever s _ (forgetting store id revision now) off = ground arith
disabled_forever s _ (beginning none ended token o action now) off = ground arith
disabled_forever s _ (beginning (some agent) ended token o action now) off = ground arith
disabled_forever s _ (guarding ended token id revision) off = ground arith
disabled_forever s _ (releasing id token) off = ground arith
