-- ===== src/App/Registry.antt =====
-- internal/app/registry.go: the live agents, from socket events and snapshots. The mutex makes each
-- function here one step; logging is left out.
pub mod Retired
pub mod Consistent
pub mod Snapshots
use herdr_telegram_agents.Common.{
  ℕ, Bool, true, false, not, ◌&&◌, ◌||◌, Option, none, some, List, [], ◌∷◌, ◌++◌, nat_eq, ◌==◌,
  if◌then◌else◌, elem, any, count_if, select, ◌⊎◌, inl, inr,
}
use herdr_telegram_agents.Common.Text.{Text, text_eq, text_lt}
use herdr_telegram_agents.Common.GoMap.{GoMap, keys, lookup, has, insert}
use herdr_telegram_agents.Common.Sort.{sort}
use herdr_telegram_agents.Domain.Status.{Status, status_eq, exited}
use herdr_telegram_agents.Domain.Key.{
  Key, key_eq, key_string, is_empty, same_session, conflicts_with,
}
use herdr_telegram_agents.Domain.Agent.{Agent, label, desired}
use herdr_telegram_agents.Domain.Mapping.{Time}
use herdr_telegram_agents.Domain.Events.{
  HerdrEvent, HerdrEventKind, pane_agent_detected, pane_agent_status_changed, pane_closed,
  pane_exited, pane_updated, tab_renamed, workspace_renamed, stream_reset,
}

pub data AgentEventKind : Type 0 where
  appeared changed gone : AgentEventKind

pub record AgentEvent : Type 0 where
  pub kind : AgentEventKind
  pub agent : Agent
  pub reassociated_from : Option Key

abbrev pub event : AgentEventKind → Agent → AgentEvent
event kind a = record { kind = kind; agent = a; reassociated_from = none }

-- An error of a snapshot is its text. `retired` lists the keys that the source's map holds.
pub record Registry : Type 0 where
  pub agents : GoMap Key Agent
  pub by_pane : GoMap Text Key
  pub retired : List Key
  pub last_ok : Time
  pub last_err : Option Text
  pub last_err_at : Time

unfoldable pub new_registry : Registry
new_registry = record {
  agents = [];
  by_pane = [];
  retired = [];
  last_ok = 0;
  last_err = none;
  last_err_at = 0;
}

abbrev values : GoMap Key Agent → List Agent
values [] = []
values ((k, a) ∷ m) = a ∷ values m

abbrev by_key : Agent → Agent → Bool
by_key a b = text_lt (key_string a.key) (key_string b.key)

-- Live
unfoldable pub live_agents : Registry → List Agent
live_agents r = sort by_key (values r.agents)

-- Agent
unfoldable pub agent_of : Registry → Key → Option Agent
agent_of r key = if elem key r.retired then none else lookup key r.agents

unfoldable pub differs : Agent → Agent → Bool
differs a b =
    not (label a == label b)
    || (not (a.status == b.status) || (not (a.kind == b.kind) || not (a.cwd == b.cwd)))

abbrev pub exited_agent : Agent → Agent
exited_agent a = record a { status = exited }

-- retirePane
unfoldable pub retire_pane : Registry → Text → Registry
retire_pane r pane = elim (lookup pane r.by_pane) [
  | none ↦ r
  | some key ↦ if elem key r.retired then r else record r { retired = key ∷ r.retired }
]

-- What a step returns: the registry, the events to emit, and whether a snapshot is needed.
abbrev pub Step : Type 0
Step = Registry × List AgentEvent × Bool

abbrev pub changed_if : Registry → Agent → Agent → Step
changed_if r old a =
    if not (differs old a) then (r, [], false) else (r, event changed a ∷ [], false)

abbrev pub with_status : Agent → Agent → Agent
with_status old a = record old {
  title = if not (is_empty a.title) then a.title else old.title;
  status = a.status;
}

-- The zero Agent is what a map without the key reads as.
abbrev pub zero_agent : Agent
zero_agent = record {
  key = record { pane_id = []; terminal_id = []; session_digest = [] };
  workspace_id = [];
  workspace_label = [];
  tab_id = [];
  tab_label = [];
  kind = [];
  name = [];
  title = [];
  status = Status.other [];
  revision = 0;
  state_change_seq = 0;
  focused = false;
  cwd = [];
}

abbrev pub agent_or_zero : Registry → Key → Agent
agent_or_zero r key = elim (lookup key r.agents) [ none ↦ zero_agent | some a ↦ a ]

status_step : Registry → Key → Agent → Step
status_step r key update =
    let old = agent_or_zero r key in
    let a = with_status old update in changed_if (record r { agents = insert key a r.agents }) old a

-- applyStatus
unfoldable pub apply_status : Registry → HerdrEvent → Step
unfolding status_step
apply_status r ev = elim (lookup ev.pane_id r.by_pane) [
  | none ↦ (r, [], true)
  | some key ↦ elim ev.agent [
    | none ↦ (r, [], true)
    | some update ↦ if elem key r.retired then (r, [], true) else status_step r key update
  ]
]

-- What an update leaves to the last snapshot.
abbrev pub keep_resolved : Agent → Agent → Agent
keep_resolved old a = record a {
  workspace_label = if is_empty a.workspace_label then old.workspace_label else a.workspace_label;
  tab_label = if is_empty a.tab_label then old.tab_label else a.tab_label;
  name = old.name;
  cwd = if is_empty a.cwd then old.cwd else a.cwd;
}

update_step : Registry → Agent → Agent → Step
update_step r old update =
    let a = keep_resolved old update in
    if elem update.key r.retired
    then (r, [], true)
    else changed_if (record r { agents = insert update.key a r.agents }) old a

-- applyUpdate
unfoldable pub apply_update : Registry → HerdrEvent → Step
unfolding update_step
apply_update r ev = elim ev.agent [
  | none ↦ (r, [], false)
  | some update ↦
      if is_empty update.kind then (r, [], false) else elim (lookup update.key r.agents) [
        | none ↦ (retire_pane r update.key.pane_id, [], true)
        | some old ↦ update_step r old update
      ]
]

dispatch : HerdrEventKind → Registry → HerdrEvent → Step
dispatch pane_agent_status_changed r ev = apply_status r ev
dispatch pane_updated r ev = apply_update r ev
dispatch pane_closed r ev = (retire_pane r ev.pane_id, [], true)
dispatch pane_exited r ev = (retire_pane r ev.pane_id, [], true)
dispatch pane_agent_detected r ev = (if ev.released then retire_pane r ev.pane_id else r, [], true)
dispatch stream_reset r ev = (r, [], true)
dispatch tab_renamed r ev = (r, [], true)
dispatch workspace_renamed r ev = (r, [], true)
dispatch (HerdrEventKind.other s) r ev = (r, [], false)

-- Apply
unfoldable pub apply : Registry → HerdrEvent → Step
unfolding dispatch
apply r ev = dispatch ev.kind r ev

-- sameAgentRestart
unfoldable pub same_agent_restart : Agent → Agent → Bool
same_agent_restart previous next =
    if previous.key == next.key
      || (is_empty previous.key.pane_id || not (previous.key.pane_id == next.key.pane_id))
    then false
    else if not (is_empty previous.key.session_digest) && not (is_empty next.key.session_digest)
    then same_session previous.key next.key
    else if conflicts_with previous.key next.key
        || (is_empty next.cwd || (not (is_empty previous.cwd) && not (previous.cwd == next.cwd)))
    then false
    else if not (is_empty previous.kind) && not (previous.kind == next.kind)
    then false
    else (desired previous).0 == (desired next).0

abbrev sort_events : List AgentEvent → List AgentEvent
sort_events evs = sort (λ a b. by_key a.agent b.agent) evs

-- newMatches[newIndex] and oldOwners[oldIndex].
abbrev matches : List AgentEvent → AgentEvent → ℕ
matches gones new = count_if (λ old. same_agent_restart old.agent new.agent) gones

abbrev owners : List AgentEvent → AgentEvent → ℕ
owners news old = count_if (λ new. same_agent_restart old.agent new.agent) news

abbrev is_paired : List AgentEvent → List AgentEvent → AgentEvent → Bool
is_paired gones news new =
    matches gones new == 1
    && any (λ old. owners news old == 1 && same_agent_restart old.agent new.agent) gones

-- orderSnapshotEvents
unfoldable pub order_snapshot_events :
    List AgentEvent → List AgentEvent → List AgentEvent → List AgentEvent
order_snapshot_events gone' appeared' changed' =
    let gones = sort_events gone' in
    let news = sort_events appeared' in
    select (is_paired gones news) news
    ++ (gones ++ (select (λ new. not (is_paired gones news new)) news ++ sort_events changed'))

-- The events that `Run` applies between two snapshots.
unfoldable pub apply_all : Registry → List HerdrEvent → Registry
apply_all r [] = r
apply_all r (ev ∷ evs) = apply_all (apply r ev).0 evs

-- The map of the listed agents: a pane without an agent kind is passed over.
pub list_agents : List Agent → GoMap Key Agent → GoMap Key Agent
list_agents [] next = next
list_agents (a ∷ rest) next =
    list_agents rest (if is_empty a.kind then next else insert a.key a next)

pub gone_events : GoMap Key Agent → GoMap Key Agent → List AgentEvent
gone_events next [] = []
gone_events next ((key, old) ∷ rest) =
    let evs = gone_events next rest in
    if has key next then evs else event gone (exited_agent old) ∷ evs

pub appeared_events : GoMap Key Agent → GoMap Key Agent → List AgentEvent
appeared_events old [] = []
appeared_events old ((key, a) ∷ rest) =
    let evs = appeared_events old rest in if has key old then evs else event appeared a ∷ evs

pub changed_events : GoMap Key Agent → GoMap Key Agent → List AgentEvent
changed_events old [] = []
changed_events old ((key, a) ∷ rest) =
    let evs = changed_events old rest in
    elim (lookup key old) [
      | none ↦ evs
      | some b ↦ if differs b a then event changed a ∷ evs else evs
    ]

pane_index : List Key → GoMap Text Key → GoMap Text Key
pane_index [] index = index
pane_index (key ∷ rest) index = pane_index rest (insert key.pane_id key index)

abbrev panes_of : List Key → List Text
panes_of [] = []
panes_of (key ∷ rest) = key.pane_id ∷ panes_of rest

-- applySnapshot: the registry, the events, and the panes to watch.
unfoldable pub apply_snapshot :
    Registry → List Agent → Time → Registry × List AgentEvent × List Text
unfolding list_agents gone_events appeared_events changed_events pane_index
apply_snapshot r listed now =
    let next = list_agents listed [] in
    (
      record {
        agents = next;
        by_pane = pane_index (keys next) [];
        retired = [];
        last_ok = now;
        last_err = none;
        last_err_at = r.last_err_at;
      },
      order_snapshot_events (gone_events next r.agents) (appeared_events r.agents next)
          (changed_events r.agents next),
      sort text_lt (panes_of (keys next)),
    )

-- Snapshot, over the answer of ListAgents: an error leaves the agents as they are.
unfoldable pub snapshot :
    Registry → List Agent ⊎ Text → Time → Registry × Option (List AgentEvent × List Text)
unfolding apply_snapshot
snapshot r (inr err) now = (record r { last_err = some err; last_err_at = now }, none)
snapshot r (inl listed) now =
    let (r', events, panes) = apply_snapshot r listed now in (r', some (events, panes))
