-- ===== src/Domain/Reassociation.antt =====
-- internal/domain/mapping.go, PlanReassociation: stored topics are matched to the agents of a
-- snapshot.
pub mod Passes
pub mod Apply
use herdr_telegram_agents.Common.{
  ℕ, Bool, true, false, not, ◌&&◌, ◌||◌, Option, none, some, List, [], ◌∷◌, ◌++◌, nat_eq, ◌==◌, ltb,
  if◌then◌else◌, elem, any, select, length, ◌⊎◌, inl, inr,
}
use herdr_telegram_agents.Common.Text.{Text, text_eq, text_lt}
use herdr_telegram_agents.Common.GoMap.{GoMap, lookup, insert, has}
use herdr_telegram_agents.Common.Sort.{sort}
use herdr_telegram_agents.Domain.Status.{live, strip_prefix}
use herdr_telegram_agents.Domain.Key.{
  Key, key_eq, key_string, parse_key, is_empty, same_session, conflicts_with, same_identity,
}
use herdr_telegram_agents.Domain.Agent.{Agent, desired}
use herdr_telegram_agents.Domain.Mapping.{Mapping, TopicEntry, sorted_keys}

pub data ReassociationReason : Type 0 where
  exact session fallback ambiguous_session ambiguous_fallback ambiguous_many_to_one :
      ReassociationReason

pub record ReassociationAssignment : Type 0 where
  pub from_key : Key
  pub to_key : Key
  pub reason : ReassociationReason

pub record ReassociationAmbiguity : Type 0 where
  pub live_key : Key
  pub candidate_count : ℕ
  pub reason : ReassociationReason

pub record ReassociationPlan : Type 0 where
  pub assignments : List ReassociationAssignment
  pub ambiguous : List ReassociationAmbiguity

pub record MappingCandidate : Type 0 where
  pub storage_key : Text
  pub key : Key
  pub entry : TopicEntry

pub record CandidateSet : Type 0 where
  pub agent : Agent
  pub candidates : List MappingCandidate

candidate : Mapping → Text → Option MappingCandidate
candidate m s = elim (parse_key s) [
  | none ↦ none
  | some key ↦ elim (lookup s m.topics) [
    | none ↦ none
    | some e ↦ some (record { storage_key = s; key = key; entry = e })
  ]
]

collect : Mapping → List Text → List MappingCandidate
collect m [] = []
collect m (s ∷ rest) =
    let cs = collect m rest in elim (candidate m s) [ none ↦ cs | some c ↦ c ∷ cs ]

-- The stored entries, in the order of their keys.
candidates_of : Mapping → List MappingCandidate
candidates_of m = collect m (sorted_keys m)

-- The first agent of each key; `seen` holds the keys so far.
first_of_each : List Key → List Agent → List Agent
first_of_each seen [] = []
first_of_each seen (a ∷ rest) = elim (elem a.key seen) [
  | true ↦ first_of_each seen rest
  | false ↦ a ∷ first_of_each (a.key ∷ seen) rest
]

unique_agents : List Agent → List Agent
unique_agents agents =
    first_of_each [] (sort (λ a b. text_lt (key_string a.key) (key_string b.key)) agents)

-- What the passes write: `assigned_live`, `used_entries` and `blocked_live` list the keys that the
-- maps of the source hold.
pub record Planning : Type 0 where
  pub assignments : List ReassociationAssignment
  pub assigned_live : List Key
  pub used_entries : List Text
  pub blocked_live : List Key
  pub ambiguous : List ReassociationAmbiguity

assign : Planning → Agent → MappingCandidate → ReassociationReason → Planning
assign s a c reason = record s {
  assignments =
      s.assignments ++ (record { from_key = c.key; to_key = a.key; reason = reason } ∷ []);
  assigned_live = a.key ∷ s.assigned_live;
  used_entries = c.storage_key ∷ s.used_entries;
}

note_ambiguous : Planning → Agent → ℕ → ReassociationReason → Planning
note_ambiguous s a count reason = if elem a.key s.blocked_live then s else record s {
  ambiguous = record { live_key = a.key; candidate_count = count; reason = reason } ∷ s.ambiguous;
  blocked_live = a.key ∷ s.blocked_live;
}

abbrev is_partial : Agent → Bool
is_partial a = is_empty a.key.pane_id || is_empty a.key.terminal_id

-- The first pass: the entry under the agent's own key.
exact_step : Mapping → Planning → Agent → Planning
exact_step m s a = if is_partial a then s else elim (candidate m (key_string a.key)) [
  | none ↦ s
  | some c ↦ if same_identity c.key a.key then assign s a c exact else s
]

exact_loop : Mapping → Planning → List Agent → Planning
exact_loop m s [] = s
exact_loop m s (a ∷ rest) = exact_loop m (exact_step m s a) rest

-- The sets of candidates of a pass, for the agents that pass `open_for`, by the test `fits`.
pub candidate_sets :
    (Agent → Bool)
    → (MappingCandidate → Agent → Bool)
    → List MappingCandidate
    → List Agent
    → List CandidateSet
candidate_sets open_for fits entries [] = []
candidate_sets open_for fits entries (a ∷ rest) =
    let sets = candidate_sets open_for fits entries rest in
    let cs = select (λ c. fits c a) entries in
    if not (open_for a) || length cs == 0
    then sets
    else record { agent = a; candidates = cs } ∷ sets

-- candidateOwners, at one storage key.
candidate_owners : List CandidateSet → Text → List Key
candidate_owners [] s = []
candidate_owners (set ∷ rest) s =
    let owners = candidate_owners rest s in
    if any (λ c. c.storage_key == s) set.candidates && not (elem set.agent.key owners)
    then set.agent.key ∷ owners
    else owners

-- A candidate that was selected is assigned unless another agent claims it too.
settle : List CandidateSet → Planning → Agent → MappingCandidate → ReassociationReason → Planning
settle sets s a c reason =
    let owners = length (candidate_owners sets c.storage_key) in
    if ltb 1 owners then note_ambiguous s a owners ambiguous_many_to_one else assign s a c reason

session_step : List CandidateSet → Planning → CandidateSet → Planning
session_step sets s set = elim set.candidates [
  | c ∷ [] ↦ settle sets s set.agent c session
  | _ ↦ note_ambiguous s set.agent (length set.candidates) ambiguous_session
]

session_loop : List CandidateSet → Planning → List CandidateSet → Planning
session_loop sets s [] = s
session_loop sets s (set ∷ rest) = session_loop sets (session_step sets s set) rest

session_open : Planning → Agent → Bool
session_open s a = not (elem a.key s.assigned_live || is_partial a)

session_fits : Planning → MappingCandidate → Agent → Bool
session_fits s c a = not (elem c.storage_key s.used_entries || not (same_session c.key a.key))

session_sets : List MappingCandidate → Planning → List Agent → List CandidateSet
session_sets entries s agents = candidate_sets (session_open s) (session_fits s) entries agents

-- eligibleFallback
unfoldable pub eligible_fallback : Key → TopicEntry → Agent → Bool
eligible_fallback entry_key entry a =
    if not (entry_key.pane_id == a.key.pane_id)
      || (conflicts_with entry_key a.key
          || not (is_empty entry_key.session_digest) && not (is_empty a.key.session_digest))
    then false
    else if is_empty a.cwd
        || (is_empty entry.cwd && not entry.legacy_no_cwd
            || not (is_empty entry.cwd) && not (entry.cwd == a.cwd))
    then false
    else if not (is_empty entry.agent_kind) && not (entry.agent_kind == a.kind)
    then false
    else strip_prefix entry.name == (desired a).0

-- One live candidate, or else one candidate.
select_fallback : List MappingCandidate → List MappingCandidate → Option MappingCandidate
select_fallback (c ∷ []) cs = some c
select_fallback _ (c ∷ []) = some c
select_fallback _ _ = none

fallback_step : List CandidateSet → Planning → CandidateSet → Planning
fallback_step sets s set =
    elim (select_fallback (select (λ c. live c.entry.status) set.candidates) set.candidates) [
      | none ↦ note_ambiguous s set.agent (length set.candidates) ambiguous_fallback
      | some c ↦ settle sets s set.agent c fallback
    ]

fallback_loop : List CandidateSet → Planning → List CandidateSet → Planning
fallback_loop sets s [] = s
fallback_loop sets s (set ∷ rest) = fallback_loop sets (fallback_step sets s set) rest

fallback_open : Planning → Agent → Bool
fallback_open s a = not (elem a.key s.assigned_live || (elem a.key s.blocked_live || is_partial a))

fallback_fits : Planning → MappingCandidate → Agent → Bool
fallback_fits s c a =
    not (elem c.storage_key s.used_entries || not (eligible_fallback c.key c.entry a))

fallback_sets : List MappingCandidate → Planning → List Agent → List CandidateSet
fallback_sets entries s agents = candidate_sets (fallback_open s) (fallback_fits s) entries agents

abbrev by_assignment : ReassociationAssignment → ReassociationAssignment → Bool
by_assignment a b =
    if key_string a.to_key == key_string b.to_key
    then text_lt (key_string a.from_key) (key_string b.from_key)
    else text_lt (key_string a.to_key) (key_string b.to_key)

abbrev by_live_key : ReassociationAmbiguity → ReassociationAmbiguity → Bool
by_live_key a b = text_lt (key_string a.live_key) (key_string b.live_key)

abbrev no_planning : Planning
no_planning = record {
  assignments = [];
  assigned_live = [];
  used_entries = [];
  blocked_live = [];
  ambiguous = [];
}

-- The three passes.
planned : Mapping → List Agent → Planning
planned m agents =
    let entries = candidates_of m in
    let s1 = exact_loop m no_planning agents in
    let sessions = session_sets entries s1 agents in
    let s2 = session_loop sessions s1 sessions in
    let fallbacks = fallback_sets entries s2 agents in fallback_loop fallbacks s2 fallbacks

-- PlanReassociation
unfoldable pub plan_reassociation : Mapping → List Agent → ReassociationPlan
unfolding session_open session_fits fallback_open fallback_fits candidates_of collect candidate
    unique_agents first_of_each planned exact_loop exact_step session_sets session_loop session_step
    fallback_sets fallback_loop fallback_step select_fallback candidate_sets candidate_owners settle
    assign note_ambiguous
plan_reassociation m agents =
    let s = planned m (unique_agents agents) in
    record {
      assignments = sort by_assignment s.assignments;
      ambiguous = sort by_live_key s.ambiguous;
    }
