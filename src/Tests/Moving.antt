-- ===== src/Tests/Moving.antt =====
-- A plan of reassociation and its application on a concrete mapping.
use herdr_telegram_agents.Common.{
  ◌≤◌, ◌≡◌, refl, true, false, [], ◌∷◌, inr, ◌==◌, nat_eq, elem, count_if, All, ℕ_discrete,
}
use herdr_telegram_agents.Common.Text.{codes, text_eq, Text-discrete}
use herdr_telegram_agents.Common.GoMap.{lookup}
use herdr_telegram_agents.Domain.Status.{working, idle, exited}
use herdr_telegram_agents.Domain.Key.{Key, key_eq, key_string, parse_key}
use herdr_telegram_agents.Domain.Mapping.{Mapping}
use herdr_telegram_agents.Domain.Reassociation.{ReassociationPlan, fallback, plan_reassociation}
use herdr_telegram_agents.Domain.Reassociation.Apply.{source, destination, apply_reassociation}
use herdr_telegram_agents.Domain.Reassociation.Apply.Moves.{
  sources, destinations, apply_reassociation_moves, apply_reassociation_keeps,
}
use herdr_telegram_agents.Domain.Reassociation.Passes.{IsSafe}
use herdr_telegram_agents.Domain.Reassociation.Passes.Plan.{plan_reassociation-IsSafe, plan_once}
use herdr_telegram_agents.Tests.Data.{key_one, claude, entry_at, shared_thread}

abbrev restarted : Key
restarted = record { pane_id = codes "p1"; terminal_id = codes "t9"; session_digest = [] }

abbrev one_move : ReassociationPlan
one_move = record {
  assignments = record { from_key = key_one; to_key = restarted; reason = fallback } ∷ [];
  ambiguous = [];
}

abbrev moved : Mapping
moved = record shared_thread {
  topics =
      (codes "p2/t2", entry_at 7 idle false 20)
      ∷ (codes "p3/t3", entry_at 8 exited true 5)
      ∷ (codes "p1/t9", entry_at 7 working false 10)
      ∷ [];
}

one_moved : apply_reassociation shared_thread one_move ≡ inr moved
unfolding apply_reassociation key_string parse_key Text-discrete ℕ_discrete
one_moved = refl

apply_reassociation_moves_example :
    All
      (λ a. lookup (destination a) moved.topics ≡ lookup (source a) shared_thread.topics)
      one_move.assignments
apply_reassociation_moves_example = apply_reassociation_moves shared_thread moved one_move one_moved

not_a_source : elem (codes "p2/t2") (sources one_move.assignments) ≡ false
unfolding key_string Text-discrete ℕ_discrete
not_a_source = refl

not_a_destination : elem (codes "p2/t2") (destinations one_move.assignments) ≡ false
unfolding key_string Text-discrete ℕ_discrete
not_a_destination = refl

apply_reassociation_keeps_example :
    lookup (codes "p2/t2") moved.topics ≡ lookup (codes "p2/t2") shared_thread.topics
apply_reassociation_keeps_example =
    apply_reassociation_keeps shared_thread moved one_move (codes "p2/t2") one_moved not_a_source
      not_a_destination

plan_reassociation-IsSafe_example :
    All
      (IsSafe shared_thread (claude ∷ []))
      (plan_reassociation shared_thread (claude ∷ [])).assignments
plan_reassociation-IsSafe_example = plan_reassociation-IsSafe shared_thread (claude ∷ [])

plan_once_example :
    count_if (λ a. a.to_key == key_one) (plan_reassociation shared_thread (claude ∷ [])).assignments
    ≤ 1
plan_once_example = plan_once shared_thread (claude ∷ []) key_one
