-- ===== src/Tests/Timing.antt =====
-- Timers of the debouncer on a concrete run: the second edit of a key replaces the first.
use herdr_telegram_agents.Common.{
  ◌≤◌, ◌≡◌, refl, false, some, none, [], ◌∷◌, ◌++◌, ◌⊎◌, arith, nat_eq, ℕ_discrete,
}
use herdr_telegram_agents.Common.Text.{Text-discrete}
use herdr_telegram_agents.Common.GoMap.{lookup}
use herdr_telegram_agents.Domain.Key.{key_eq, Key-discrete}
use herdr_telegram_agents.App.Debouncer.{
  Debouncer, Timer, ScheduledEdit, new_debouncer, schedule_after, wake, is_current,
}
use herdr_telegram_agents.App.Debouncer.Timers.{
  Reachable, idle, scheduled, IsArmed, Reachable-IsArmed, wake_in_time,
}
use herdr_telegram_agents.Tests.Data.{key_one}

abbrev twice : Debouncer
twice = schedule_after key_one 10 5 (schedule_after key_one 10 0 new_debouncer)

abbrev twice_reached : Reachable twice
twice_reached = scheduled (scheduled idle key_one 10 0) key_one 10 5

Reachable-IsArmed_example : IsArmed twice
Reachable-IsArmed_example = Reachable-IsArmed twice twice_reached

abbrev second : Timer
second = record { key = key_one; fires_at = 15 }

second_runs : lookup 1 twice.running ≡ some second
unfolding schedule_after new_debouncer Key-discrete Text-discrete ℕ_discrete
second_runs = refl

wake_in_time_example :
    ((wake 1 second twice).due ≡ twice.due)
      × ((wake 1 second twice).pending ≡ twice.pending)
      × (is_current 1 (lookup key_one twice.pending) ≡ false)
    ⊎ ((e : ScheduledEdit) × (lookup key_one twice.pending ≡ some e)
        × (e.due_at ≤ 20)
        × ((wake 1 second twice).due ≡ twice.due ++ key_one ∷ [])
        × (lookup key_one (wake 1 second twice).pending ≡ none))
wake_in_time_example = wake_in_time twice 1 second 20 twice_reached second_runs (omega arith)
