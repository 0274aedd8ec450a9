-- ===== src/App/Registry/Consistent.antt =====
-- The two indexes of the registry agree, before and after every event and snapshot.
use herdr_telegram_agents.Common.{
  ◌≡◌, refl, true, ◌⊎◌, inl, inr, some, List, [], ◌∷◌, arith, subst, sym, ap, if◌then◌else◌, elem,
  Option-cases, Bool-cases,
}
use herdr_telegram_agents.Common.Text.{Text, text_eq}
use herdr_telegram_agents.Common.GoMap.{
  GoMap, IsMap, insert-IsMap, keys, lookup, has, insert, lookup-insert, has-insert, lookup_of_has,
}
use herdr_telegram_agents.Domain.Key.{Key, key_eq, is_empty}
use herdr_telegram_agents.Domain.Agent.{Agent}
use herdr_telegram_agents.Domain.Mapping.{Time}
use herdr_telegram_agents.Domain.Events.{
  HerdrEvent, HerdrEventKind, pane_agent_status_changed, pane_updated, pane_agent_detected,
  pane_closed, pane_exited,
}
use herdr_telegram_agents.App.Registry.{
  Registry, retire_pane, agent_or_zero, with_status, keep_resolved, apply_status, status_step,
  apply_update, update_step, dispatch, apply, list_agents, pane_index, apply_snapshot, snapshot,
  new_registry,
}

-- A pane leads to a key of that pane that the registry lists, an agent stands under its key, and
-- no key has two agents.
pub record IsConsistent (r : Registry) : Type 0 where
  pub panes :
      (p : Text) (k : Key) → lookup p r.by_pane ≡ some k → (k.pane_id ≡ p) × (has k r.agents ≡ true)
  pub own_keys : (k : Key) (a : Agent) → lookup k r.agents ≡ some a → a.key ≡ k
  pub unique : IsMap r.agents

pub new_registry-IsConsistent : IsConsistent new_registry
unfolding new_registry
new_registry-IsConsistent = record {
  panes = λ p k h. ground arith;
  own_keys = λ k a h. ground arith;
  unique = ground arith;
}

-- A step that writes an agent under its own key, and leaves the panes.
write-IsConsistent :
    (r r' : Registry) (j : Key) (a : Agent)
    → a.key ≡ j
    → r'.agents ≡ insert j a r.agents
    → r'.by_pane ≡ r.by_pane
    → IsConsistent r
    → IsConsistent r'
write-IsConsistent r r' j a own agents panes c = record {
  panes = λ p k h.
      let old = c.panes p k (ground arith) in let there = has-insert j k a r.agents in ground arith;
  own_keys =
      λ k b h. let found = lookup-insert j k a r.agents in let old = c.own_keys k b in ground arith;
  unique = subst IsMap (sym agents) (insert-IsMap j a r.agents c.unique);
}

-- A step that changes neither.
same-IsConsistent :
    (r r' : Registry)
    → r'.agents ≡ r.agents
    → r'.by_pane ≡ r.by_pane
    → IsConsistent r
    → IsConsistent r'
same-IsConsistent r r' agents panes c = record {
  panes = λ p k h. let old = c.panes p k (ground arith) in ground arith;
  own_keys = λ k b h. c.own_keys k b (ground arith);
  unique = subst IsMap (sym agents) c.unique;
}

retire_pane-IsConsistent :
    (r : Registry) (p : Text) → IsConsistent r → IsConsistent (retire_pane r p)
unfolding retire_pane
retire_pane-IsConsistent r p c = same-IsConsistent r _ (ground arith) (ground arith) c

status_step-IsConsistent :
    (r : Registry) (j : Key) (update : Agent)
    → has j r.agents ≡ true
    → IsConsistent r
    → IsConsistent (status_step r j update).0
unfolding status_step
status_step-IsConsistent r j update known c =
    let (old, found) = lookup_of_has j r.agents known in
    write-IsConsistent r _ j (with_status (agent_or_zero r j) update)
      (let own = c.own_keys j old found in ground arith) (ground arith) (ground arith) c

update_step-IsConsistent :
    (r : Registry) (old update : Agent) → IsConsistent r → IsConsistent (update_step r old update).0
unfolding update_step
update_step-IsConsistent r old update c = elim (Bool-cases (elem update.key r.retired)) [
  | inl stale ↦ same-IsConsistent r _ (ground arith) (ground arith) c
  | inr fresh ↦
      write-IsConsistent r _ update.key (keep_resolved old update) refl (ground arith)
        (ground arith) c
]

apply_status-IsConsistent :
    (r : Registry) (ev : HerdrEvent) → IsConsistent r → IsConsistent (apply_status r ev).0
unfolding apply_status
apply_status-IsConsistent r ev c = elim (Option-cases (lookup ev.pane_id r.by_pane)) [
  | inl nobody ↦ same-IsConsistent r _ (ground arith) (ground arith) c
  | inr (j, there) ↦ elim (Option-cases ev.agent) [
    | inl nothing ↦ same-IsConsistent r _ (ground arith) (ground arith) c
    | inr (update, e) ↦ elim (Bool-cases (elem j r.retired)) [
      | inl stale ↦ same-IsConsistent r _ (ground arith) (ground arith) c
      | inr fresh ↦
          let s = status_step-IsConsistent r j update (c.panes ev.pane_id j there).1 c in
          subst IsConsistent (ground arith) s
    ]
  ]
]

apply_update-IsConsistent :
    (r : Registry) (ev : HerdrEvent) → IsConsistent r → IsConsistent (apply_update r ev).0
unfolding apply_update
apply_update-IsConsistent r ev c = elim (Option-cases ev.agent) [
  | inl nothing ↦ same-IsConsistent r _ (ground arith) (ground arith) c
  | inr (update, e) ↦ elim (Bool-cases (is_empty update.kind)) [
    | inl bare ↦ same-IsConsistent r _ (ground arith) (ground arith) c
    | inr kind ↦ elim (Option-cases (lookup update.key r.agents)) [
      | inl new ↦
          subst IsConsistent (ground arith) (retire_pane-IsConsistent r update.key.pane_id c)
      | inr (old, known) ↦
          subst IsConsistent (ground arith) (update_step-IsConsistent r old update c)
    ]
  ]
]

dispatch-IsConsistent :
    (kind : HerdrEventKind) (r : Registry) (ev : HerdrEvent)
    → IsConsistent r
    → IsConsistent (dispatch kind r ev).0
unfolding dispatch
dispatch-IsConsistent pane_agent_status_changed r ev c = apply_status-IsConsistent r ev c
dispatch-IsConsistent pane_updated r ev c = apply_update-IsConsistent r ev c
dispatch-IsConsistent pane_agent_detected r ev c = elim (Bool-cases ev.released) [
  | inl gone ↦ rw gone (retire_pane-IsConsistent r ev.pane_id c)
  | inr here ↦ rw here c
]
dispatch-IsConsistent pane_closed r ev c = retire_pane-IsConsistent r ev.pane_id c
dispatch-IsConsistent pane_exited r ev c = retire_pane-IsConsistent r ev.pane_id c
dispatch-IsConsistent _ r ev c = c

-- Every event keeps the registry consistent.
pub apply-IsConsistent :
    (r : Registry) (ev : HerdrEvent) → IsConsistent r → IsConsistent (apply r ev).0
unfolding apply
apply-IsConsistent r ev c = dispatch-IsConsistent ev.kind r ev c

pub list_agents-own_keys :
    (listed : List Agent) (next : GoMap Key Agent)
    → ((k : Key) (a : Agent) → lookup k next ≡ some a → a.key ≡ k)
    → (k : Key) (a : Agent) → lookup k (list_agents listed next) ≡ some a
    → a.key ≡ k
unfolding list_agents
list_agents-own_keys [] next own k a h = own k a h
list_agents-own_keys (b ∷ rest) next own k a h = elim (Bool-cases (is_empty b.kind)) [
  | inl bare ↦ list_agents-own_keys rest next own k a (ground arith)
  | inr kind ↦
      list_agents-own_keys rest (insert b.key b next)
        (λ j c f. let w = lookup-insert b.key j b next in let o = own j c in ground arith) k a
        (ground arith)
]

pub list_agents-IsMap :
    (listed : List Agent) (next : GoMap Key Agent) → IsMap next → IsMap (list_agents listed next)
unfolding list_agents
list_agents-IsMap [] next d = d
list_agents-IsMap (b ∷ rest) next d = elim (Bool-cases (is_empty b.kind)) [
  | inl bare ↦
      subst IsMap (ap (λ x. list_agents rest (if x then next else insert b.key b next)) (sym bare))
        (list_agents-IsMap rest next d)
  | inr kind ↦
      subst IsMap (ap (λ x. list_agents rest (if x then next else insert b.key b next)) (sym kind))
        (list_agents-IsMap rest (insert b.key b next) (insert-IsMap b.key b next d))
]

pane_index_sound :
    (ks : List Key) (index : GoMap Text Key) (p : Text) (k : Key)
    → lookup p (pane_index ks index) ≡ some k
    → ((k.pane_id ≡ p) × (elem k ks ≡ true)) ⊎ (lookup p index ≡ some k)
unfolding pane_index
pane_index_sound [] index p k h = inr h
pane_index_sound (j ∷ rest) index p k h =
    let w = lookup-insert j.pane_id p j index in
    let ih = pane_index_sound rest (insert j.pane_id j index) p k h in ground arith

elem-keys : (k : Key) (m : GoMap Key Agent) → elem k (keys m) ≡ has k m
elem-keys k [] = refl
elem-keys k ((j, a) ∷ m) = ground (arith, elem-keys k m)

-- A snapshot makes the registry consistent, whatever Herdr lists.
pub apply_snapshot-IsConsistent :
    (r : Registry) (listed : List Agent) (now : Time) → IsConsistent (apply_snapshot r listed now).0
unfolding apply_snapshot
apply_snapshot-IsConsistent r listed now = record {
  panes = λ p k h.
      let s = pane_index_sound (keys (list_agents listed [])) [] p k h in
      let e = elem-keys k (list_agents listed []) in ground arith;
  own_keys = λ k a h. list_agents-own_keys listed [] (λ j b f. ground arith) k a h;
  unique = list_agents-IsMap listed [] (ground arith);
}

-- What `Run` and `Snapshot` make of a registry: events and snapshots, in any order, and snapshots
-- that fail.
pub data Reachable : Registry → Type 0 where
  start : Reachable new_registry
  event : {r : Registry} → Reachable r → (ev : HerdrEvent) → Reachable (apply r ev).0
  listing :
      {r : Registry}
      → Reachable r
      → (answer : List Agent ⊎ Text) (now : Time) → Reachable (snapshot r answer now).0

-- In every registry that events, snapshots and failed snapshots can make, a pane leads to a listed
-- key of that pane, every agent stands under its own key, and no key is listed twice.
pub Reachable-IsConsistent : (r : Registry) → Reachable r → IsConsistent r
unfolding snapshot
Reachable-IsConsistent _ start = new_registry-IsConsistent
Reachable-IsConsistent _ (event {r = r} s ev) = apply-IsConsistent r ev (Reachable-IsConsistent r s)
Reachable-IsConsistent _ (listing {r = r} s (inl listed) now) =
    apply_snapshot-IsConsistent r listed now
Reachable-IsConsistent _ (listing {r = r} s (inr err) now) =
    same-IsConsistent r _ refl refl (Reachable-IsConsistent r s)
