-- ===== src/App/Registry/Retired.antt =====
-- A key that an event superseded is not vouched for again before a snapshot lists it.
use herdr_telegram_agents.Common.{
  ◌≡◌, true, false, inl, inr, none, some, List, [], ◌∷◌, arith, ◌==◌, elem, Option-cases,
}
use herdr_telegram_agents.Common.Text.{Text, text_eq}
use herdr_telegram_agents.Common.GoMap.{lookup, lookup-insert}
use herdr_telegram_agents.Domain.Key.{Key, key_eq, is_empty}
use herdr_telegram_agents.Domain.Agent.{Agent}
use herdr_telegram_agents.Domain.Events.{
  HerdrEvent, HerdrEventKind, pane_agent_detected, pane_agent_status_changed, pane_closed,
  pane_exited, pane_updated,
}
use herdr_telegram_agents.App.Registry.{
  Registry, agent_of, agent_or_zero, with_status, keep_resolved, retire_pane, apply_status,
  status_step, apply_update, update_step, dispatch, apply, apply_all,
}

-- The event shows that `k` is no longer the agent of its pane.
pub data Supersedes (r : Registry) (ev : HerdrEvent) (k : Key) : Type 0 where
  closed : ev.kind ≡ pane_closed → lookup ev.pane_id r.by_pane ≡ some k → Supersedes r ev k
  exited : ev.kind ≡ pane_exited → lookup ev.pane_id r.by_pane ≡ some k → Supersedes r ev k
  released :
      ev.kind ≡ pane_agent_detected
      → ev.released ≡ true
      → lookup ev.pane_id r.by_pane ≡ some k
      → Supersedes r ev k
  replaced :
      (a : Agent)
      → ev.kind ≡ pane_updated
      → ev.agent ≡ some a
      → is_empty a.kind ≡ false
      → lookup a.key r.agents ≡ none
      → lookup a.key.pane_id r.by_pane ≡ some k
      → Supersedes r ev k

retire_pane-retired :
    (r : Registry) (p : Text) (k : Key)
    → lookup p r.by_pane ≡ some k
    → elem k (retire_pane r p).retired ≡ true
unfolding retire_pane
retire_pane-retired r p k h = ground arith

retire_pane-keeps :
    (r : Registry) (p : Text) (k : Key)
    → elem k r.retired ≡ true
    → elem k (retire_pane r p).retired ≡ true
unfolding retire_pane
retire_pane-keeps r p k h = ground arith

Supersedes-retired :
    (r : Registry) (ev : HerdrEvent) (k : Key)
    → Supersedes r ev k
    → elem k (apply r ev).0.retired ≡ true
unfolding apply dispatch apply_update
Supersedes-retired r ev k (closed e h) = rw e (retire_pane-retired r ev.pane_id k h)
Supersedes-retired r ev k (exited e h) = rw e (retire_pane-retired r ev.pane_id k h)
Supersedes-retired r ev k (released e f h) = rw (e, f) (retire_pane-retired r ev.pane_id k h)
Supersedes-retired r ev k (replaced a e f n u h) =
    rw (e, f, n, u) (retire_pane-retired r a.key.pane_id k h)

apply_status-retired : (r : Registry) (ev : HerdrEvent) → (apply_status r ev).0.retired ≡ r.retired
unfolding apply_status status_step
apply_status-retired r ev = ground arith

apply_update-keeps :
    (r : Registry) (ev : HerdrEvent) (k : Key)
    → elem k r.retired ≡ true
    → elem k (apply_update r ev).0.retired ≡ true
unfolding apply_update update_step
apply_update-keeps r ev k h = elim (Option-cases ev.agent) [
  | inl nothing ↦ ground arith
  | inr (a, e) ↦ ground (arith, retire_pane-keeps r a.key.pane_id k)
]

dispatch-keeps :
    (kind : HerdrEventKind) (r : Registry) (ev : HerdrEvent) (k : Key)
    → elem k r.retired ≡ true
    → elem k (dispatch kind r ev).0.retired ≡ true
unfolding dispatch
dispatch-keeps pane_agent_status_changed r ev k h = rw apply_status-retired h
dispatch-keeps pane_updated r ev k h = apply_update-keeps r ev k h
dispatch-keeps _ r ev k h = ground (arith, retire_pane-keeps r ev.pane_id k)

apply_all-keeps :
    (r : Registry) (evs : List HerdrEvent) (k : Key)
    → elem k r.retired ≡ true
    → elem k (apply_all r evs).retired ≡ true
unfolding apply_all apply
apply_all-keeps r [] k h = h
apply_all-keeps r (ev ∷ evs) k h =
    apply_all-keeps (dispatch ev.kind r ev).0 evs k (dispatch-keeps ev.kind r ev k h)

-- Once an event shows that an agent left its pane (closed, exited, released, or another agent
-- found there), Agent answers nothing for its key, after any further events without a snapshot.
pub superseded_until_snapshot :
    (r : Registry) (ev : HerdrEvent) (evs : List HerdrEvent) (k : Key)
    → Supersedes r ev k
    → agent_of (apply_all (apply r ev).0 evs) k ≡ none
unfolding agent_of
superseded_until_snapshot r ev evs k s =
    rw (apply_all-keeps (apply r ev).0 evs k (Supersedes-retired r ev k s))

elem_ne : (k j : Key) (ks : List Key) → elem k ks ≡ true → elem j ks ≡ false → (j == k) ≡ false
elem_ne k j ks h n = ground arith

status_step-other :
    (r : Registry) (j k : Key) (update : Agent)
    → (j == k) ≡ false
    → lookup k (status_step r j update).0.agents ≡ lookup k r.agents
unfolding status_step
status_step-other r j k update h =
    ground (arith, lookup-insert j k (with_status (agent_or_zero r j) update) r.agents)

update_step-other :
    (r : Registry) (old update : Agent) (k : Key)
    → elem k r.retired ≡ true
    → lookup k (update_step r old update).0.agents ≡ lookup k r.agents
unfolding update_step
update_step-other r old update k h = ground (
  arith,
  elem_ne k update.key r.retired,
  lookup-insert update.key k (keep_resolved old update) r.agents,
)

retire_pane-agents : (r : Registry) (p : Text) → (retire_pane r p).agents ≡ r.agents
unfolding retire_pane
retire_pane-agents r p = ground arith

apply_status-other :
    (r : Registry) (ev : HerdrEvent) (k : Key)
    → elem k r.retired ≡ true
    → lookup k (apply_status r ev).0.agents ≡ lookup k r.agents
unfolding apply_status
apply_status-other r ev k h = elim (Option-cases (lookup ev.pane_id r.by_pane)) [
  | inl nobody ↦ ground arith
  | inr (j, there) ↦ elim (Option-cases ev.agent) [
    | inl nothing ↦ ground arith
    | inr (update, e) ↦ ground (arith, elem_ne k j r.retired, status_step-other r j k update)
  ]
]

apply_update-other :
    (r : Registry) (ev : HerdrEvent) (k : Key)
    → elem k r.retired ≡ true
    → lookup k (apply_update r ev).0.agents ≡ lookup k r.agents
unfolding apply_update
apply_update-other r ev k h = elim (Option-cases ev.agent) [
  | inl nothing ↦ ground arith
  | inr (update, e) ↦ elim (Option-cases (lookup update.key r.agents)) [
    | inl new ↦ ground (arith, retire_pane-agents r update.key.pane_id)
    | inr (old, known) ↦ ground (arith, update_step-other r old update k)
  ]
]

dispatch-other :
    (kind : HerdrEventKind) (r : Registry) (ev : HerdrEvent) (k : Key)
    → elem k r.retired ≡ true
    → lookup k (dispatch kind r ev).0.agents ≡ lookup k r.agents
unfolding dispatch
dispatch-other pane_agent_status_changed r ev k h = apply_status-other r ev k h
dispatch-other pane_updated r ev k h = apply_update-other r ev k h
dispatch-other _ r ev k h = ground (arith, retire_pane-agents r ev.pane_id)

-- No event changes what is stored for a retired key.
pub retired_frozen :
    (r : Registry) (ev : HerdrEvent) (k : Key)
    → elem k r.retired ≡ true
    → lookup k (apply r ev).0.agents ≡ lookup k r.agents
unfolding apply
retired_frozen r ev k h = dispatch-other ev.kind r ev k h
