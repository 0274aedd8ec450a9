-- ===== src/Tests/Quiet.antt =====
-- Presence on concrete runs.
use herdr_telegram_agents.Common.{true, false}
use herdr_telegram_agents.App.Presence.{
  Presence, QuietOptions, idle_unsupported, new_presence, poll_finish, here,
}
use herdr_telegram_agents.App.Presence.Latest.{fresh, answered, come, IsHeard, Reachable-IsHeard}

abbrev opts : QuietOptions
opts = record { enabled = true; idle_after = 120 }

-- A platform without an idle source, where the operator says /here.
abbrev by_command : Presence
by_command = here opts (poll_finish opts idle_unsupported 120 (new_presence true))

Reachable-IsHeard_example : IsHeard by_command false
Reachable-IsHeard_example =
    Reachable-IsHeard by_command false (come (answered (fresh true) opts idle_unsupported 120) opts)
