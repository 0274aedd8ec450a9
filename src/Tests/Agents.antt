-- ===== src/Tests/Agents.antt =====
-- The registry on a concrete snapshot and concrete events.
use herdr_telegram_agents.Common.{
  ◌≡◌, refl, true, false, some, none, [], ◌∷◌, arith, elem, count_if, if◌then◌else◌, inl,
  ℕ_discrete,
}
use herdr_telegram_agents.Common.Text.{codes, Text-discrete}
use herdr_telegram_agents.Domain.Status.{done}
use herdr_telegram_agents.Domain.Key.{key_eq, Key-discrete}
use herdr_telegram_agents.Domain.Events.{HerdrEvent, pane_exited, pane_agent_status_changed}
use herdr_telegram_agents.App.Registry.{
  Registry, new_registry, apply, apply_all, agent_of, apply_snapshot, snapshot, gone,
}
use herdr_telegram_agents.App.Registry.Retired.{Supersedes, superseded_until_snapshot}
use herdr_telegram_agents.App.Registry.Consistent.{
  IsConsistent, Reachable, Reachable-IsConsistent, start, listing,
}
use herdr_telegram_agents.App.Registry.Snapshots.{is_about, reported, snapshot_exact}
use herdr_telegram_agents.Tests.Data.{key_one, claude}

abbrev known : Registry
known = record {
  agents = (key_one, claude) ∷ [];
  by_pane = (codes "p1", key_one) ∷ [];
  retired = [];
  last_ok = 5;
  last_err = none;
  last_err_at = 0;
}

abbrev about_one : HerdrEvent
about_one = record {
  kind = pane_exited;
  pane_id = codes "p1";
  workspace_id = [];
  tab_id = [];
  agent = some (record claude { status = done });
  label = [];
  final_status = none;
  released = false;
}

abbrev late_status : HerdrEvent
late_status = record about_one { kind = pane_agent_status_changed }

one_exits : Supersedes known about_one key_one
unfolding Text-discrete ℕ_discrete
one_exits = Supersedes.exited refl refl

superseded_until_snapshot_example :
    agent_of (apply_all (apply known about_one).0 (late_status ∷ [])) key_one ≡ none
superseded_until_snapshot_example =
    superseded_until_snapshot known about_one (late_status ∷ []) key_one one_exits

abbrev retiring : Registry
retiring = record known { retired = key_one ∷ [] }

one_retired : elem key_one retiring.retired ≡ true
unfolding Key-discrete Text-discrete ℕ_discrete
one_retired = refl

abbrev listed_once : Registry
listed_once = (snapshot new_registry (inl (claude ∷ [])) 5).0

Reachable-IsConsistent_example : IsConsistent (apply listed_once about_one).0
Reachable-IsConsistent_example =
    Reachable-IsConsistent (apply listed_once about_one).0
      (Reachable.event (listing start (inl (claude ∷ [])) 5) about_one)

known-IsConsistent : IsConsistent known
unfolding Text-discrete Key-discrete ℕ_discrete
known-IsConsistent = record {
  panes = λ p k h. ground arith;
  own_keys = λ k a h. ground arith;
  unique = ground arith;
}

snapshot_exact_example :
    count_if (is_about gone key_one) (apply_snapshot known [] 9).1
    ≡ (if reported known (apply_snapshot known [] 9).0 key_one gone then 1 else 0)
snapshot_exact_example = snapshot_exact known [] 9 key_one gone known-IsConsistent
