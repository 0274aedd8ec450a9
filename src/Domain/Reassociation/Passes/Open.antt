-- ===== src/Domain/Reassociation/Passes/Open.antt =====
-- The sets of candidates of a pass are for different agents that are still open.
use herdr_telegram_agents.Common.{
  ◌≡◌, subst, Bool, true, false, not, ◌||◌, inl, inr, List, [], ◌∷◌, arith, ◌==◌, nat_eq, elem,
  select, length, All, Distinct, Bool-cases,
}
use herdr_telegram_agents.Common.Text.{text_eq}
use herdr_telegram_agents.Domain.Key.{Key, key_eq, conflicts_with}
use herdr_telegram_agents.Domain.Agent.{Agent}
use herdr_telegram_agents.Domain.Mapping.{Mapping}
use herdr_telegram_agents.Domain.Reassociation.{
  MappingCandidate, CandidateSet, Planning, candidate_sets,
}
use herdr_telegram_agents.Domain.Reassociation.Passes.{
  agent_keys, IsStored, set_keys, AreOpen, Fitting,
}

module _ (m : Mapping) (agents : List Agent) where
  module _ (s : Planning) (open_for : Agent → Bool) (fits : MappingCandidate → Agent → Bool)
      (entries : List MappingCandidate) (stored : All (IsStored m) entries)
      (fitting : (c : MappingCandidate) (a : Agent)
        → fits c a ≡ true
        → conflicts_with c.key a.key ≡ false)
      (free : (a : Agent) → open_for a ≡ true → elem a.key s.assigned_live ≡ false) where
    set_keys-sub :
        (left : List Agent) (k : Key)
        → elem k (set_keys (candidate_sets open_for fits entries left)) ≡ true
        → elem k (agent_keys left) ≡ true
    unfolding candidate_sets
    set_keys-sub [] k h = h
    set_keys-sub (a ∷ left) k h = ground (arith, set_keys-sub left k)

    select-Fitting :
        (a : Agent) (cs : List MappingCandidate)
        → All (IsStored m) cs
        → All (Fitting m agents a) (select (λ c. fits c a) cs)
    unfolding Fitting
    select-Fitting a [] h = tt
    select-Fitting a (c ∷ cs) h = elim (Bool-cases (fits c a)) [
      | inl yes_c ↦
          let new : All (Fitting m agents a) (c ∷ select (λ d. fits d a) cs) =
            ((h.0, fitting c a yes_c), select-Fitting a cs h.1) in
          let same : c ∷ select (λ d. fits d a) cs ≡ select (λ d. fits d a) (c ∷ cs) =
            ground arith in
          subst (All (Fitting m agents a)) same new
      | inr no_c ↦
          let same : select (λ d. fits d a) cs ≡ select (λ d. fits d a) (c ∷ cs) = ground arith in
          subst (All (Fitting m agents a)) same (select-Fitting a cs h.1)
    ]

    pub candidate_sets-AreOpen :
        (left : List Agent)
        → Distinct (agent_keys left)
        → ((k : Key) → elem k (agent_keys left) ≡ true → elem k (agent_keys agents) ≡ true)
        → AreOpen m agents s (candidate_sets open_for fits entries left)
    unfolding candidate_sets Fitting
    candidate_sets-AreOpen [] d sub = record {
      usable = tt;
      different = tt;
      open_now = λ k h. ground arith;
    }
    candidate_sets-AreOpen (a ∷ left) d sub =
        let ih = candidate_sets-AreOpen left d.1 (λ k h. sub k (ground arith)) in
        let sets = candidate_sets open_for fits entries left in
        let cs = select (λ c. fits c a) entries in
        elim (Bool-cases (not (open_for a) || length cs == 0)) [
          | inl shut ↦
              let same : sets ≡ candidate_sets open_for fits entries (a ∷ left) = ground arith in
              subst (AreOpen m agents s) same ih
          | inr ready ↦
              let set : CandidateSet = record { agent = a; candidates = cs } in
              let new : AreOpen m agents s (set ∷ sets) = record {
                usable = (
                  record {
                    listed = sub a.key (ground arith);
                    fitting = select-Fitting a entries stored;
                  },
                  ih.usable,
                );
                different = (let b = set_keys-sub left a.key in ground arith, ih.different);
                open_now =
                    λ k h. let o = ih.open_now k in let f = free a (ground arith) in ground arith;
              } in
              let same : set ∷ sets ≡ candidate_sets open_for fits entries (a ∷ left) =
                ground arith in
              subst (AreOpen m agents s) same new
        ]
