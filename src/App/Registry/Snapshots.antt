-- ===== src/App/Registry/Snapshots.antt =====
-- What the events of a snapshot say.
use herdr_telegram_agents.Common.{
  ◌+◌, ◌≡◌, refl, Bool, true, false, not, ◌&&◌, none, some, List, [], ◌∷◌, ◌++◌, arith, ◌==◌,
  if◌then◌else◌, select, count_if, count_if-append, count_if-select,
}
use herdr_telegram_agents.Common.GoMap.{
  GoMap, IsMap, lookup, has, has_of_lookup, lookup-none_of_absent,
}
use herdr_telegram_agents.Common.Sort.{count_if-sort}
use herdr_telegram_agents.Domain.Key.{Key, key_eq}
use herdr_telegram_agents.Domain.Agent.{Agent}
use herdr_telegram_agents.Domain.Mapping.{Time}
use herdr_telegram_agents.App.Registry.{
  Registry, AgentEvent, AgentEventKind, appeared, changed, gone, differs, sort_events, is_paired,
  by_key, order_snapshot_events, list_agents, gone_events, appeared_events, changed_events,
  apply_snapshot,
}
use herdr_telegram_agents.App.Registry.Consistent.{
  IsConsistent, list_agents-IsMap, list_agents-own_keys,
}

-- The order of a snapshot's events loses none, and adds none.
order-count :
    (p : AgentEvent → Bool) (gones news changes : List AgentEvent)
    → count_if p (order_snapshot_events gones news changes)
      ≡ count_if p gones + (count_if p news + count_if p changes)
unfolding order_snapshot_events
order-count p gones news changes =
    let less = λ (a b : AgentEvent). by_key a.agent b.agent in
    let g = sort_events gones in
    let n = sort_events news in
    let c = sort_events changes in
    let q = is_paired g n in
    let parts = count_if-select p q n in
    let a = count_if-append p (select q n) (g ++ (select (λ x. not (q x)) n ++ c)) in
    let b = count_if-append p g (select (λ x. not (q x)) n ++ c) in
    let d = count_if-append p (select (λ x. not (q x)) n) c in
    let sg = count_if-sort less p gones in
    let sn = count_if-sort less p news in let sc = count_if-sort less p changes in omega arith

abbrev same_kind : AgentEventKind → AgentEventKind → Bool
same_kind appeared appeared = true
same_kind changed changed = true
same_kind gone gone = true
same_kind _ _ = false

-- An event of a kind about a key.
abbrev pub is_about : AgentEventKind → Key → AgentEvent → Bool
is_about kind k ev = same_kind kind ev.kind && ev.agent.key == k

OwnKeys : GoMap Key Agent → Type 0
OwnKeys m = (k : Key) (a : Agent) → lookup k m ≡ some a → a.key ≡ k

OwnKeys-tail :
    (j : Key) (b : Agent) (m : GoMap Key Agent)
    → IsMap ((j, b) ∷ m)
    → OwnKeys ((j, b) ∷ m)
    → (b.key ≡ j) × OwnKeys m
unfolding OwnKeys
OwnKeys-tail j b m d own =
    (own j b (ground arith), λ k a h. own k a (let x = has_of_lookup k m a h in ground arith))

gone_events-count :
    (next old : GoMap Key Agent) (k : Key)
    → IsMap old
    → OwnKeys old
    → count_if (is_about gone k) (gone_events next old)
      ≡ (if has k old && not (has k next) then 1 else 0)
unfolding gone_events
gone_events-count next [] k d own = refl
gone_events-count next ((j, b) ∷ old) k d own =
    let (here, tail) = OwnKeys-tail j b old d own in
    ground (arith, gone_events-count next old k d.1 tail)

gone_events-other :
    (kind : AgentEventKind) (next old : GoMap Key Agent) (k : Key)
    → same_kind kind gone ≡ false
    → count_if (is_about kind k) (gone_events next old) ≡ 0
unfolding gone_events
gone_events-other kind next [] k h = refl
gone_events-other kind next ((j, b) ∷ old) k h = ground (arith, gone_events-other kind next old k)

appeared_events-count :
    (old next : GoMap Key Agent) (k : Key)
    → IsMap next
    → OwnKeys next
    → count_if (is_about appeared k) (appeared_events old next)
      ≡ (if has k next && not (has k old) then 1 else 0)
unfolding appeared_events
appeared_events-count old [] k d own = refl
appeared_events-count old ((j, b) ∷ next) k d own =
    let (here, tail) = OwnKeys-tail j b next d own in
    ground (arith, appeared_events-count old next k d.1 tail)

appeared_events-other :
    (kind : AgentEventKind) (old next : GoMap Key Agent) (k : Key)
    → same_kind kind appeared ≡ false
    → count_if (is_about kind k) (appeared_events old next) ≡ 0
unfolding appeared_events
appeared_events-other kind old [] k h = refl
appeared_events-other kind old ((j, b) ∷ next) k h =
    ground (arith, appeared_events-other kind old next k)

-- Whether the agent of a key is in both maps, with a difference that an event reports.
abbrev pub is_changed : GoMap Key Agent → GoMap Key Agent → Key → Bool
is_changed old next k = elim (lookup k old) [
  | none ↦ false
  | some b ↦ elim (lookup k next) [ none ↦ false | some a ↦ differs b a ]
]

changed_events-count :
    (old next : GoMap Key Agent) (k : Key)
    → IsMap next
    → OwnKeys next
    → count_if (is_about changed k) (changed_events old next)
      ≡ (if is_changed old next k then 1 else 0)
unfolding changed_events
changed_events-count old [] k d own = ground arith
changed_events-count old ((j, b) ∷ next) k d own =
    let (here, tail) = OwnKeys-tail j b next d own in
    let absent = lookup-none_of_absent j next d.0 in
    ground (arith, changed_events-count old next k d.1 tail)

changed_events-other :
    (kind : AgentEventKind) (old next : GoMap Key Agent) (k : Key)
    → same_kind kind changed ≡ false
    → count_if (is_about kind k) (changed_events old next) ≡ 0
unfolding changed_events
changed_events-other kind old [] k h = refl
changed_events-other kind old ((j, b) ∷ next) k h =
    ground (arith, changed_events-other kind old next k)

-- What a snapshot that lists `listed` reports of a key, by the kind of the event.
abbrev pub reported : Registry → Registry → Key → AgentEventKind → Bool
reported r r' k gone = has k r.agents && not (has k r'.agents)
reported r r' k appeared = has k r'.agents && not (has k r.agents)
reported r r' k changed = is_changed r.agents r'.agents k

-- From a consistent registry, the events of a snapshot hold exactly one gone event for a key that
-- went, one appeared event for a key that came, one changed event for a key that stayed and
-- differs, and no other event about any key.
pub snapshot_exact :
    (r : Registry) (listed : List Agent) (now : Time) (k : Key) (kind : AgentEventKind)
    → IsConsistent r
    → count_if (is_about kind k) (apply_snapshot r listed now).1
      ≡ (if reported r (apply_snapshot r listed now).0 k kind then 1 else 0)
unfolding apply_snapshot OwnKeys
snapshot_exact r listed now k kind c =
    let next = list_agents listed [] in
    let unique = list_agents-IsMap listed [] (ground arith) in
    let own = list_agents-own_keys listed [] (λ j b f. ground arith) in
    let all =
      order-count (is_about kind k) (gone_events next r.agents) (appeared_events r.agents next)
        (changed_events r.agents next) in
    let g = gone_events-count next r.agents k c.unique c.own_keys in
    let g' = gone_events-other kind next r.agents k in
    let a = appeared_events-count r.agents next k unique own in
    let a' = appeared_events-other kind r.agents next k in
    let d = changed_events-count r.agents next k unique own in
    let d' = changed_events-other kind r.agents next k in
    elim kind [ gone ↦ ground arith | appeared ↦ ground arith | changed ↦ ground arith ]
