-- ===== src/Domain/Reassociation/Passes/Plan.antt =====
-- What PlanReassociation may assign.
use herdr_telegram_agents.Common.{
  ◌≤◌, ◌≡◌, refl, ◌∙◌, sym, subst, Bool, true, false, not, ◌||◌, inl, inr, List, [], ◌∷◌, arith,
  ◌==◌, nat_eq, ltb, elem, All, Distinct, All-map, ap, Option-cases, Bool-cases, count_if,
}
use herdr_telegram_agents.Common.Text.{text_eq, text_lt}
use herdr_telegram_agents.Common.Sort.{sort, All-sort, count_if-sort}
use herdr_telegram_agents.Domain.Key.{
  Key, key_eq, key_string, same_session, same_identity, conflicts_with,
}
use herdr_telegram_agents.Domain.Agent.{Agent}
use herdr_telegram_agents.Domain.Mapping.{Mapping, sorted_keys}
use herdr_telegram_agents.Domain.Reassociation.{
  MappingCandidate, Planning, candidate, candidates_of, is_partial, assign, first_of_each,
  unique_agents, exact_step, exact_loop, session_open, session_fits, fallback_open, fallback_fits,
  session_loop, session_sets, eligible_fallback, fallback_sets, by_assignment, no_planning, planned,
  plan_reassociation, exact,
}
use herdr_telegram_agents.Domain.Reassociation.Passes.{
  agent_keys, IsSafe, candidate-IsStored, collect-IsStored, Sound, assign-Sound, session_loop-Sound,
  fallback_loop-Sound,
}
use herdr_telegram_agents.Domain.Reassociation.Passes.Open.{candidate_sets-AreOpen}

identity_no_conflict : (k j : Key) → same_identity k j ≡ true → conflicts_with k j ≡ false
unfolding same_identity conflicts_with
identity_no_conflict k j h = ground arith

session_no_conflict : (k j : Key) → same_session k j ≡ true → conflicts_with k j ≡ false
unfolding same_session conflicts_with
session_no_conflict k j h = ground arith

exact_step-Sound :
    (m : Mapping) (agents : List Agent) (s : Planning) (a : Agent)
    → Sound m agents s
    → elem a.key (agent_keys agents) ≡ true
    → elem a.key s.assigned_live ≡ false
    → Sound m agents (exact_step m s a)
unfolding exact_step
exact_step-Sound m agents s a h listed free = elim (Option-cases (candidate m (key_string a.key))) [
  | inl absent ↦ let same : s ≡ exact_step m s a = ground arith in subst (Sound m agents) same h
  | inr (c, e) ↦ elim (Bool-cases (is_partial a || not (same_identity c.key a.key))) [
    | inl differs ↦ let same : s ≡ exact_step m s a = ground arith in subst (Sound m agents) same h
    | inr same_agent ↦
        let same : assign s a c exact ≡ exact_step m s a = ground arith in
        subst (Sound m agents) same (
          assign-Sound m agents s a c exact h (candidate-IsStored m (key_string a.key) c e)
            (identity_no_conflict c.key a.key (ground arith)) listed free)
  ]
]

exact_step-others :
    (m : Mapping) (s : Planning) (a : Agent) (k : Key)
    → (a.key == k) ≡ false
    → elem k (exact_step m s a).assigned_live ≡ elem k s.assigned_live
unfolding exact_step assign
exact_step-others m s a k h = elim (Option-cases (candidate m (key_string a.key))) [
  | inl absent ↦ ground arith
  | inr (c, e) ↦ ground arith
]

exact_loop-Sound :
    (m : Mapping) (agents : List Agent) (s : Planning) (left : List Agent)
    → Sound m agents s
    → Distinct (agent_keys left)
    → ((k : Key) → elem k (agent_keys left) ≡ true → elem k (agent_keys agents) ≡ true)
    → ((k : Key) → elem k (agent_keys left) ≡ true → elem k s.assigned_live ≡ false)
    → Sound m agents (exact_loop m s left)
unfolding exact_loop
exact_loop-Sound m agents s [] h d sub free = h
exact_loop-Sound m agents s (a ∷ left) h d sub free =
    exact_loop-Sound m agents (exact_step m s a) left
      (exact_step-Sound m agents s a h (sub a.key (ground arith)) (free a.key (ground arith))) d.1
      (λ k e. sub k (ground arith))
      (λ k e.
        let old = free k (ground arith) in
        let other = exact_step-others m s a k (let n = d.0 in ground arith) in ground arith)

session_fits_no_conflict :
    (s : Planning) (c : MappingCandidate) (a : Agent)
    → session_fits s c a ≡ true
    → conflicts_with c.key a.key ≡ false
unfolding session_fits
session_fits_no_conflict s c a h = session_no_conflict c.key a.key (ground arith)

session_open_free :
    (s : Planning) (a : Agent) → session_open s a ≡ true → elem a.key s.assigned_live ≡ false
unfolding session_open
session_open_free s a h = ground arith

fallback_fits_no_conflict :
    (s : Planning) (c : MappingCandidate) (a : Agent)
    → fallback_fits s c a ≡ true
    → conflicts_with c.key a.key ≡ false
unfolding fallback_fits eligible_fallback
fallback_fits_no_conflict s c a h = ground arith

fallback_open_free :
    (s : Planning) (a : Agent) → fallback_open s a ≡ true → elem a.key s.assigned_live ≡ false
unfolding fallback_open
fallback_open_free s a h = ground arith

planned-Sound :
    (m : Mapping) (agents : List Agent)
    → Distinct (agent_keys agents)
    → Sound m agents (planned m agents)
unfolding planned session_sets fallback_sets candidates_of
planned-Sound m agents d =
    let entries = candidates_of m in
    let stored = collect-IsStored m (sorted_keys m) in
    let s1 = exact_loop m no_planning agents in
    let sound1 =
      exact_loop-Sound m agents no_planning agents (record { safe = tt; once = λ k. ground arith })
        d (λ k h. h) (λ k h. refl) in
    let sessions = session_sets entries s1 agents in
    let s2 = session_loop sessions s1 sessions in
    let sound2 = session_loop-Sound m agents sessions s1 sessions sound1 (
      candidate_sets-AreOpen m agents s1 (session_open s1) (session_fits s1) entries stored
        (session_fits_no_conflict s1) (session_open_free s1) agents d (λ k h. h)) in
    let fallbacks = fallback_sets entries s2 agents in
    fallback_loop-Sound m agents fallbacks s2 fallbacks sound2 (
      candidate_sets-AreOpen m agents s2 (fallback_open s2) (fallback_fits s2) entries stored
        (fallback_fits_no_conflict s2) (fallback_open_free s2) agents d (λ k h. h))

first_of_each-sub :
    (seen : List Key) (left : List Agent) (k : Key)
    → elem k (agent_keys (first_of_each seen left)) ≡ true
    → (elem k seen ≡ false) × (elem k (agent_keys left) ≡ true)
unfolding first_of_each
first_of_each-sub seen [] k h = absurd (ground arith)
first_of_each-sub seen (a ∷ left) k h = elim (Bool-cases (elem a.key seen)) [
  | inl known ↦ let r = first_of_each-sub seen left k (ground arith) in ground arith
  | inr new ↦ elim (Bool-cases (a.key == k)) [
    | inl here ↦ ground arith
    | inr there ↦ let r = first_of_each-sub (a.key ∷ seen) left k (ground arith) in ground arith
  ]
]

first_of_each-Distinct :
    (seen : List Key) (left : List Agent) → Distinct (agent_keys (first_of_each seen left))
unfolding first_of_each
first_of_each-Distinct seen [] = tt
first_of_each-Distinct seen (a ∷ left) = elim (Bool-cases (elem a.key seen)) [
  | inl known ↦ let r = first_of_each-Distinct seen left in ground arith
  | inr new ↦
      let r = first_of_each-Distinct (a.key ∷ seen) left in
      let n = first_of_each-sub (a.key ∷ seen) left a.key in ground arith
]

elem-agent_keys :
    (k : Key) (agents : List Agent)
    → elem k (agent_keys agents) ≡ ltb 0 (count_if (λ a. a.key == k) agents)
elem-agent_keys k [] = ground arith
elem-agent_keys k (a ∷ agents) = ground (arith, elem-agent_keys k agents)

by_string : Agent → Agent → Bool
by_string a b = text_lt (key_string a.key) (key_string b.key)

unique_agents-sub :
    (agents : List Agent) (k : Key)
    → elem k (agent_keys (unique_agents agents)) ≡ true
    → elem k (agent_keys agents) ≡ true
unfolding unique_agents by_string
unique_agents-sub agents k h =
    let less = λ (a b : Agent). text_lt (key_string a.key) (key_string b.key) in
    let r = first_of_each-sub [] (sort less agents) k h in
    elem-agent_keys k agents
    ∙ sym (ap (λ n. ltb 0 n) (count_if-sort less (λ a. a.key == k) agents))
    ∙ sym (elem-agent_keys k (sort less agents))
    ∙ r.1

-- Every assignment of PlanReassociation moves a stored entry to the key of an agent of the
-- snapshot, and never between keys of one pane with different known session digests.
pub plan_reassociation-IsSafe :
    (m : Mapping) (agents : List Agent)
    → All (IsSafe m agents) (plan_reassociation m agents).assignments
unfolding plan_reassociation
plan_reassociation-IsSafe m agents =
    let d = first_of_each-Distinct [] _ in
    let s = planned-Sound m (unique_agents agents) d in
    All-sort by_assignment (IsSafe m agents) (planned m (unique_agents agents)).assignments (
      All-map
        (λ a p. record {
          no_conflict = p.no_conflict;
          listed = unique_agents-sub agents a.to_key p.listed;
          stored = p.stored;
        })
        (planned m (unique_agents agents)).assignments s.safe)

-- PlanReassociation assigns no live key more than one entry.
pub plan_once :
    (m : Mapping) (agents : List Agent) (k : Key)
    → count_if (λ a. a.to_key == k) (plan_reassociation m agents).assignments ≤ 1
unfolding plan_reassociation unique_agents
plan_once m agents k =
    let s = planned-Sound m (unique_agents agents) (first_of_each-Distinct [] _) in
    let bound = s.once k in
    let same =
      count_if-sort by_assignment (λ a. a.to_key == k)
        (planned m (unique_agents agents)).assignments in
    ground arith
