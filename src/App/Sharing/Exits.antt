-- ===== src/App/Sharing/Exits.antt =====
-- A lifecycle event that cannot be saved denies access to the grants that it concerns.
use herdr_telegram_agents.Common.{
  ◌+◌, ◌%◌, ◌^◌, ◌≡◌, ◌≢◌, refl, sym, subst, ap, Bool, true, false, ◌⊎◌, inl, inr, some, List, [],
  ◌∷◌, arith, nat_eq, Bool-cases, elem,
}
use herdr_telegram_agents.Common.Text.{Text, text_eq}
use herdr_telegram_agents.Common.Int.{int_eq}
use herdr_telegram_agents.Common.GoMap.{GoMap, lookup, lookup-insert}
use herdr_telegram_agents.Domain.Mapping.{Time}
use herdr_telegram_agents.Domain.Access.{ShareOrigin, ShareAction}
use herdr_telegram_agents.Domain.Sharing.{ShareGrant, grant_state_eq}
use herdr_telegram_agents.App.Registry.{AgentEvent}
use herdr_telegram_agents.App.Sharing.{Sharing, Store, SharingError, save_locked}
use herdr_telegram_agents.App.Sharing.Grants.{
  AgentLookup, rewrite_grant, swap_grant, by_persistence,
}
use herdr_telegram_agents.App.Sharing.Sweeps.{
  Fate, unconcerned, kept, becomes, Sweep, fate_of, is_concerned, lifecycle_loop, suspend,
  suspend_all, grant_or_zero, lifecycle,
}
use herdr_telegram_agents.App.Sharing.Dispatch.{begin}
use herdr_telegram_agents.App.Sharing.Denials.{IsStopped, stopped_denied, disabled_denied}

-- The grants in the list are suspended.
suspend_all-IsStopped :
    (ids : List Text) (id : Text) (s : Sharing)
    → (elem id ids ≡ true) ⊎ IsStopped id s
    → IsStopped id (suspend_all ids s)
unfolding suspend_all
suspend_all-IsStopped [] id s (inl listed) = absurd (ground arith)
suspend_all-IsStopped [] id s (inr stopped) = stopped
suspend_all-IsStopped (j ∷ ids) id s how =
    let g = suspend by_persistence (grant_or_zero (lookup j s.state.grants)) in
    let e = lookup-insert j id g s.state.grants in
    suspend_all-IsStopped ids id (rewrite_grant j g s) (elim (text_eq.dec j id) [
      | yes here ↦ inr (λ g' known up.
          let same : g ≡ g' = ground arith in
          let state = ap (λ x. x.state) same in absurd (ground arith))
      | no other ↦ elim how [
        | inl listed ↦ inl (ground arith)
        | inr stopped ↦ inr (λ g' known up. stopped g' (ground arith) up)
      ]
    ])

fate_of-concerned :
    (process_id : Text) (e : AgentEvent) (now : Time) (g : ShareGrant)
    → is_concerned e g ≡ true
    → fate_of process_id e now g ≢ unconcerned
unfolding fate_of
fate_of-concerned process_id e now g c same = ground arith

fate_cases : (f : Fate) → (f ≡ unconcerned) ⊎ (f ≡ kept) ⊎ ((g : ShareGrant) × (f ≡ becomes g))
fate_cases unconcerned = inl refl
fate_cases kept = inr (inl refl)
fate_cases (becomes g) = inr (inr (g, refl))

-- Listing one grant leaves the others to be found.
listed_or_later :
    (j : Text) (h : ShareGrant) (live : List Text) (gs : GoMap Text ShareGrant) (id : Text)
    (e : AgentEvent)
    → (elem id live ≡ true)
      ⊎ ((g : ShareGrant) × (lookup id ((j, h) ∷ gs) ≡ some g) × (is_concerned e g ≡ true))
    → (elem id (j ∷ live) ≡ true)
      ⊎ ((g : ShareGrant) × (lookup id gs ≡ some g) × (is_concerned e g ≡ true))
listed_or_later j h live gs id e (inl listed) = inl (ground arith)
listed_or_later j h live gs id e (inr (g, known, c)) = elim (text_eq.dec j id) [
  | yes here ↦ inl (ground arith)
  | no elsewhere ↦ inr (g, ground arith, c)
]

-- The loop lists every grant that the event concerns, unless it gives up.
lifecycle_loop-lists :
    (e : AgentEvent) (now : Time) (gs : GoMap Text ShareGrant) (w : Sweep) (id : Text)
    → (elem id w.live ≡ true)
      ⊎ ((g : ShareGrant) × (lookup id gs ≡ some g) × (is_concerned e g ≡ true))
    → (elem id (lifecycle_loop e now gs w).live ≡ true)
      ⊎ ((lifecycle_loop e now gs w).gave_up ≡ true)
unfolding lifecycle_loop
lifecycle_loop-lists e now [] w id (inl listed) = inl listed
lifecycle_loop-lists e now [] w id (inr (g, known, c)) = absurd (ground arith)
lifecycle_loop-lists e now ((j, h) ∷ gs) w id how =
    elim (fate_cases (fate_of w.sharing.process_id e now h)) [
      | inl other ↦
          let rest = lifecycle_loop-lists e now gs w id (elim how [
            | inl listed ↦ inl listed
            | inr (g, known, c) ↦ elim (text_eq.dec j id) [
              | yes here ↦
                  let same : h ≡ g = ground arith in
                  absurd (
                    fate_of-concerned w.sharing.process_id e now h
                      (subst (λ x. is_concerned e x ≡ true) (sym same) c) other)
              | no elsewhere ↦ inr (g, ground arith, c)
            ]
          ]) in
          ground arith
      | inr (inl same) ↦
          let rest =
            lifecycle_loop-lists e now gs (record w { live = j ∷ w.live }) id
              (listed_or_later j h w.live gs id e how) in
          ground arith
      | inr (inr (g', changes)) ↦
          let g1 = record g' { revision = (g'.revision + 1) % 2 ^ 64 } in
          let w1 = record w {
            sharing = swap_grant j g1 w.sharing;
            live = j ∷ w.live;
            is_changed = true;
          } in
          let rest = lifecycle_loop-lists e now gs w1 id (listed_or_later j h w.live gs id e how) in
          ground arith
    ]

-- A loop that gives up disables the manager.
lifecycle_loop-disabled :
    (e : AgentEvent) (now : Time) (gs : GoMap Text ShareGrant) (w : Sweep)
    → w.gave_up ≡ false
    → (lifecycle_loop e now gs w).gave_up ≡ true
    → (lifecycle_loop e now gs w).sharing.disabled ≡ true
unfolding lifecycle_loop
lifecycle_loop-disabled e now [] w fresh over = absurd (ground arith)
lifecycle_loop-disabled e now ((j, h) ∷ gs) w fresh over =
    elim (fate_cases (fate_of w.sharing.process_id e now h)) [
      | inl other ↦ let rest = lifecycle_loop-disabled e now gs w fresh in ground arith
      | inr (inl same) ↦
          let rest = lifecycle_loop-disabled e now gs (record w { live = j ∷ w.live }) fresh in
          ground arith
      | inr (inr (g', changes)) ↦
          let g1 = record g' { revision = (g'.revision + 1) % 2 ^ 64 } in
          let w1 = record w {
            sharing = swap_grant j g1 w.sharing;
            live = j ∷ w.live;
            is_changed = true;
          } in
          let rest = lifecycle_loop-disabled e now gs w1 fresh in ground arith
    ]

-- When Lifecycle reports an error, Begin refuses every dispatch on a stored grant that the event
-- concerned.
pub lifecycle_denies :
    (store : Store) (e : AgentEvent) (now : Time) (s : Sharing) (err : SharingError) (id : Text)
    (g : ShareGrant) (look : AgentLookup) (ended : Bool) (token : Text) (o : ShareOrigin)
    (action : ShareAction) (later : Time)
    → (lifecycle store e now s).1 ≡ some err
    → lookup id s.state.grants ≡ some g
    → is_concerned e g ≡ true
    → o.grant_id ≡ id
    → (begin look ended token o action later (lifecycle store e now s).0).1.is_allowed ≡ false
unfolding lifecycle
lifecycle_denies store e now s err id g look ended token o action later failed known concerned
      same =
    let begun : Sweep = record { sharing = s; live = []; is_changed = false; gave_up = false } in
    let w = lifecycle_loop e now s.state.grants begun in
    let lists = lifecycle_loop-lists e now s.state.grants begun id (inr (g, known, concerned)) in
    let s1 = (save_locked store now (record w.sharing { dirty = true })).0 in
    elim (Bool-cases w.gave_up) [
      | inl over ↦
          let off = lifecycle_loop-disabled e now s.state.grants begun refl over in
          disabled_denied look ended token o action later (lifecycle store e now s).0 (ground arith)
      | inr through ↦
          let halted = suspend_all-IsStopped w.live id s1 (inl (ground arith)) in
          let left : (lifecycle store e now s).0 ≡ suspend_all w.live s1 = ground arith in
          subst (λ t. (begin look ended token o action later t).1.is_allowed ≡ false) (sym left)
            (stopped_denied look ended token o action later (suspend_all w.live s1)
              (subst (λ i. IsStopped i (suspend_all w.live s1)) (sym same) halted))
    ]
