-- ===== src/Domain/Reassociation/Passes.antt =====
-- The passes of PlanReassociation: what each assigns is safe, and each agent is assigned once.
pub mod Open
pub mod Plan
use herdr_telegram_agents.Common.{
  ℕ, suc, ◌+◌, ◌≤◌, ◌≡◌, refl, ◌∙◌, sym, subst, Bool, true, false, not, ◌&&◌, ◌||◌, ◌⊎◌, inl, inr,
  Option, none, some, List, [], ◌∷◌, ◌++◌, arith, ◌==◌, nat_eq, ltb, if◌then◌else◌, elem, any,
  select, length, All, Distinct, Option-cases, Bool-cases, count_if, count_if-append,
}
use herdr_telegram_agents.Common.Text.{Text, text_eq, text_lt}
use herdr_telegram_agents.Common.GoMap.{GoMap, lookup, has, has_of_lookup}
use herdr_telegram_agents.Common.Sort.{sort, All-sort, count_if-sort, elem-sort}
use herdr_telegram_agents.Domain.Status.{live}
use herdr_telegram_agents.Domain.Key.{
  Key, key_eq, key_string, parse_key, same_session, same_identity, conflicts_with,
}
use herdr_telegram_agents.Domain.Key.RoundTrip.{key_string-parse_key}
use herdr_telegram_agents.Domain.Agent.{Agent}
use herdr_telegram_agents.Domain.Mapping.{Mapping, TopicEntry, sorted_keys}
use herdr_telegram_agents.Domain.Reassociation.{
  ReassociationAssignment, ReassociationPlan, ReassociationReason, MappingCandidate, CandidateSet,
  Planning, candidate, collect, candidates_of, first_of_each, unique_agents, assign, note_ambiguous,
  exact_step, exact_loop, candidate_sets, candidate_owners, settle, session_step, session_loop,
  session_sets, eligible_fallback, select_fallback, fallback_step, fallback_loop, fallback_sets,
  by_assignment, no_planning, planned, plan_reassociation, exact, session, fallback,
  ambiguous_fallback, is_partial,
}

abbrev pub agent_keys : List Agent → List Key
agent_keys [] = []
agent_keys (a ∷ rest) = a.key ∷ agent_keys rest

-- An entry of the mapping goes to an agent of the list, and not across a change of session.
pub record IsSafe (m : Mapping) (agents : List Agent) (a : ReassociationAssignment) : Type 0 where
  pub no_conflict : conflicts_with a.from_key a.to_key ≡ false
  pub listed : elem a.to_key (agent_keys agents) ≡ true
  pub stored : has (key_string a.from_key) m.topics ≡ true

pub IsStored : Mapping → MappingCandidate → Type 0
IsStored m c = has (key_string c.key) m.topics ≡ true

candidate-IsStored :
    (m : Mapping) (s : Text) (c : MappingCandidate) → candidate m s ≡ some c → IsStored m c
unfolding candidate IsStored
candidate-IsStored m s c h = elim (Option-cases (parse_key s)) [
  | inl bad ↦ absurd (ground arith)
  | inr (k, p) ↦ elim (Option-cases (lookup s m.topics)) [
    | inl absent ↦ absurd (ground arith)
    | inr (e, found) ↦
        let back = key_string-parse_key s k p in
        let here = has_of_lookup s m.topics e found in ground arith
  ]
]

collect-IsStored : (m : Mapping) (ss : List Text) → All (IsStored m) (collect m ss)
unfolding collect
collect-IsStored m [] = tt
collect-IsStored m (s ∷ ss) = elim (Option-cases (candidate m s)) [
  | inl none_here ↦
      let same : collect m ss ≡ collect m (s ∷ ss) = ground arith in
      subst (All (IsStored m)) same (collect-IsStored m ss)
  | inr (c, e) ↦
      let cs : All (IsStored m) (c ∷ collect m ss) =
        (candidate-IsStored m s c e, collect-IsStored m ss) in
      let same : c ∷ collect m ss ≡ collect m (s ∷ ss) = ground arith in
      subst (All (IsStored m)) same cs
]

abbrev set_keys : List CandidateSet → List Key
set_keys [] = []
set_keys (set ∷ sets) = set.agent.key ∷ set_keys sets

module _ (m : Mapping) (agents : List Agent) where
  -- The assignments so far: safe, and one for an assigned agent.
  record Sound (s : Planning) : Type 0 where
    safe : All (IsSafe m agents) s.assignments
    once :
        (k : Key)
        → count_if (λ a. a.to_key == k) s.assignments ≤ (if elem k s.assigned_live then 1 else 0)

  -- A set of candidates that may be assigned.
  record IsUsable (set : CandidateSet) : Type 0 where
    listed : elem set.agent.key (agent_keys agents) ≡ true
    fitting : All (λ c. IsStored m c × (conflicts_with c.key set.agent.key ≡ false)) set.candidates

  All-append :
      (xs : List ReassociationAssignment) (a : ReassociationAssignment)
      → All (IsSafe m agents) xs
      → IsSafe m agents a
      → All (IsSafe m agents) (xs ++ a ∷ [])
  All-append [] a h p = (p, tt)
  All-append (x ∷ xs) a h p = (h.0, All-append xs a h.1 p)

  assign-Sound :
      (s : Planning) (a : Agent) (c : MappingCandidate) (reason : ReassociationReason)
      → Sound s
      → IsStored m c
      → conflicts_with c.key a.key ≡ false
      → elem a.key (agent_keys agents) ≡ true
      → elem a.key s.assigned_live ≡ false
      → Sound (assign s a c reason)
  unfolding assign IsStored
  assign-Sound s a c reason h stored fits listed free = record {
    safe =
        All-append s.assignments _ h.safe
          (record { no_conflict = fits; listed = listed; stored = stored });
    once = λ k.
        let old = h.once k in
        let sum =
          count_if-append (λ x. x.to_key == k) s.assignments
            (record { from_key = c.key; to_key = a.key; reason = reason } ∷ []) in
        ground arith;
  }

  note-Sound :
      (s : Planning) (a : Agent) (n : ℕ) (reason : ReassociationReason)
      → Sound s
      → Sound (note_ambiguous s a n reason)
  unfolding note_ambiguous
  note-Sound s a n reason h = elim (Bool-cases (elem a.key s.blocked_live)) [
    | inl known ↦ rw known h
    | inr new ↦ rw new (record { safe = h.safe; once = h.once })
  ]

  settle-Sound :
      (sets : List CandidateSet) (s : Planning) (a : Agent) (c : MappingCandidate)
      (reason : ReassociationReason)
      → Sound s
      → IsStored m c
      → conflicts_with c.key a.key ≡ false
      → elem a.key (agent_keys agents) ≡ true
      → elem a.key s.assigned_live ≡ false
      → Sound (settle sets s a c reason)
  unfolding settle
  settle-Sound sets s a c reason h stored fits listed free =
      elim (Bool-cases (ltb 1 (length (candidate_owners sets c.storage_key)))) [
        | inl shared ↦ rw shared (note-Sound s a _ _ h)
        | inr own ↦ rw own (assign-Sound s a c reason h stored fits listed free)
      ]

  -- The sets that a pass is left with: for different agents that are not assigned.
  record AreOpen (s : Planning) (sets : List CandidateSet) : Type 0 where
    usable : All (IsUsable) sets
    different : Distinct (set_keys sets)
    open_now : (k : Key) → elem k (set_keys sets) ≡ true → elem k s.assigned_live ≡ false

  -- A step of a pass assigns at most the agent of its set.
  record IsStep (s s' : Planning) (set : CandidateSet) : Type 0 where
    sound : Sound s'
    others :
        (k : Key) → (set.agent.key == k) ≡ false → elem k s'.assigned_live ≡ elem k s.assigned_live

  settle-IsStep :
      (sets : List CandidateSet) (s : Planning) (set : CandidateSet) (c : MappingCandidate)
      (reason : ReassociationReason)
      → Sound s
      → IsStored m c
      → conflicts_with c.key set.agent.key ≡ false
      → elem set.agent.key (agent_keys agents) ≡ true
      → elem set.agent.key s.assigned_live ≡ false
      → IsStep s (settle sets s set.agent c reason) set
  settle-IsStep sets s set c reason h stored fits listed free = record {
    sound = settle-Sound sets s set.agent c reason h stored fits listed free;
    others = λ k other. unfold settle assign note_ambiguous in ground arith;
  }

  note-IsStep :
      (s : Planning) (set : CandidateSet) (n : ℕ) (reason : ReassociationReason)
      → Sound s
      → IsStep s (note_ambiguous s set.agent n reason) set
  note-IsStep s set n reason h = record {
    sound = note-Sound s set.agent n reason h;
    others = λ k other. unfold note_ambiguous in ground arith;
  }

  session_step-IsStep :
      (sets : List CandidateSet) (s : Planning) (a : Agent) (cs : List MappingCandidate)
      → Sound s
      → IsUsable (record { agent = a; candidates = cs })
      → elem a.key s.assigned_live ≡ false
      → IsStep s
          (session_step sets s (record { agent = a; candidates = cs }))
          (record { agent = a; candidates = cs })
  unfolding session_step
  session_step-IsStep sets s a [] h u free = note-IsStep s _ _ _ h
  session_step-IsStep sets s a (c ∷ []) h u free =
      settle-IsStep sets s _ c session h u.fitting.0.0 u.fitting.0.1 u.listed free
  session_step-IsStep sets s a (c ∷ d ∷ cs) h u free = note-IsStep s _ _ _ h

  All-select :
      (P : MappingCandidate → Type 0) (p : MappingCandidate → Bool) (cs : List MappingCandidate)
      → All P cs
      → All P (select p cs)
  All-select P p [] h = tt
  All-select P p (c ∷ cs) h = elim (Bool-cases (p c)) [
    | inl yes_c ↦
        let new : All P (c ∷ select p cs) = (h.0, All-select P p cs h.1) in
        let same : c ∷ select p cs ≡ select p (c ∷ cs) = ground arith in subst (All P) same new
    | inr no_c ↦
        let same : select p cs ≡ select p (c ∷ cs) = ground arith in
        subst (All P) same (All-select P p cs h.1)
  ]

  Fitting : Agent → MappingCandidate → Type 0
  Fitting a c = IsStored m c × (conflicts_with c.key a.key ≡ false)

  select_fallback-Fitting :
      (a : Agent) (ls cs : List MappingCandidate) (c : MappingCandidate)
      → All (Fitting a) ls
      → All (Fitting a) cs
      → select_fallback ls cs ≡ some c
      → Fitting a c
  unfolding select_fallback
  select_fallback-Fitting a (l ∷ []) cs c hl hc h =
      subst (Fitting a) (let e : l ≡ c = ground arith in e) hl.0
  select_fallback-Fitting a [] (d ∷ []) c hl hc h =
      subst (Fitting a) (let e : d ≡ c = ground arith in e) hc.0
  select_fallback-Fitting a (l ∷ k ∷ ls) (d ∷ []) c hl hc h =
      subst (Fitting a) (let e : d ≡ c = ground arith in e) hc.0
  select_fallback-Fitting a [] [] c hl hc h = absurd (ground arith)
  select_fallback-Fitting a [] (d ∷ f ∷ cs) c hl hc h = absurd (ground arith)
  select_fallback-Fitting a (l ∷ k ∷ ls) [] c hl hc h = absurd (ground arith)
  select_fallback-Fitting a (l ∷ k ∷ ls) (d ∷ f ∷ cs) c hl hc h = absurd (ground arith)

  fallback_step-IsStep :
      (sets : List CandidateSet) (s : Planning) (set : CandidateSet)
      → Sound s
      → IsUsable set
      → elem set.agent.key s.assigned_live ≡ false
      → IsStep s (fallback_step sets s set) set
  unfolding fallback_step Fitting
  fallback_step-IsStep sets s set h u free =
      let ls = select (λ c. live c.entry.status) set.candidates in
      elim (Option-cases (select_fallback ls set.candidates)) [
        | inl unclear ↦
            let out = note_ambiguous s set.agent (length set.candidates) ambiguous_fallback in
            let same : out ≡ fallback_step sets s set = ground arith in
            subst (λ x. IsStep s x set) same (note-IsStep s set _ _ h)
        | inr (c, e) ↦
            let f =
              select_fallback-Fitting set.agent ls set.candidates c
                (All-select (Fitting set.agent) _ set.candidates u.fitting) u.fitting e in
            let same : settle sets s set.agent c fallback ≡ fallback_step sets s set =
              ground arith in
            subst (λ x. IsStep s x set) same
              (settle-IsStep sets s set c fallback h f.0 f.1 u.listed free)
      ]

  AreOpen-step :
      (s s' : Planning) (set : CandidateSet) (rest : List CandidateSet)
      → AreOpen s (set ∷ rest)
      → IsStep s s' set
      → AreOpen s' rest
  AreOpen-step s s' set rest o t = record {
    usable = o.usable.1;
    different = o.different.1;
    open_now = λ k h.
        let old = o.open_now k (ground arith) in
        let same = t.others k (let d = o.different.0 in ground arith) in ground arith;
  }

  session_loop-Sound :
      (sets : List CandidateSet) (s : Planning) (rest : List CandidateSet)
      → Sound s
      → AreOpen s rest
      → Sound (session_loop sets s rest)
  unfolding session_loop
  session_loop-Sound sets s [] h o = h
  session_loop-Sound sets s (set ∷ rest) h o =
      let t =
        session_step-IsStep sets s set.agent set.candidates h o.usable.0
          (o.open_now set.agent.key (ground arith)) in
      session_loop-Sound sets (session_step sets s set) rest t.sound
        (AreOpen-step s (session_step sets s set) set rest o t)

  fallback_loop-Sound :
      (sets : List CandidateSet) (s : Planning) (rest : List CandidateSet)
      → Sound s
      → AreOpen s rest
      → Sound (fallback_loop sets s rest)
  unfolding fallback_loop
  fallback_loop-Sound sets s [] h o = h
  fallback_loop-Sound sets s (set ∷ rest) h o =
      let t =
        fallback_step-IsStep sets s set h o.usable.0 (o.open_now set.agent.key (ground arith)) in
      fallback_loop-Sound sets (fallback_step sets s set) rest t.sound
        (AreOpen-step s (fallback_step sets s set) set rest o t)
