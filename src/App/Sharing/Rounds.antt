-- ===== src/App/Sharing/Rounds.antt =====
-- What the methods that go over every grant come to.
use herdr_telegram_agents.Common.{
  ◌+◌, ◌%◌, ◌^◌, ◌≡◌, refl, Bool, true, false, ◌⊎◌, inl, inr, List, [], ◌∷◌, arith, nat_eq,
  Option-cases,
}
use herdr_telegram_agents.Common.Text.{Text, text_eq}
use herdr_telegram_agents.Common.Int.{int_eq}
use herdr_telegram_agents.Common.GoMap.{GoMap, lookup}
use herdr_telegram_agents.Domain.Mapping.{Time}
use herdr_telegram_agents.Domain.Sharing.{ShareGrant, grant_state_eq, expired, transition}
use herdr_telegram_agents.App.Registry.{AgentEvent}
use herdr_telegram_agents.App.Sharing.{Sharing, Store, save_locked}
use herdr_telegram_agents.App.Sharing.Grants.{
  rewrite_grant, swap_grant, replace_grant, by_persistence,
}
use herdr_telegram_agents.App.Sharing.Sweeps.{
  Fate, unconcerned, kept, becomes, Sweep, fate_of, lifecycle_loop, suspend, suspend_all,
  grant_or_zero, lifecycle, expire_loop, expire,
}

fate_cases : (f : Fate) → (f ≡ unconcerned) ⊎ (f ≡ kept) ⊎ ((g : ShareGrant) × (f ≡ becomes g))
fate_cases unconcerned = inl refl
fate_cases kept = inr (inl refl)
fate_cases (becomes g) = inr (inr (g, refl))

module _ (P : Sharing → Type 0)
    (replaced : (id : Text) (g : ShareGrant) (s : Sharing) → P s → P (replace_grant id g s)) where
  lifecycle_loop_cases :
      ((id : Text) (g : ShareGrant) (s : Sharing) → P s → P (swap_grant id g s))
      → ((s : Sharing) → P s → P (record s { disabled = true }))
      → (e : AgentEvent) (now : Time) (gs : GoMap Text ShareGrant) (w : Sweep) → P w.sharing
      → P (lifecycle_loop e now gs w).sharing
  unfolding lifecycle_loop
  lifecycle_loop_cases swapped stopped e now [] w start = start
  lifecycle_loop_cases swapped stopped e now ((id, g) ∷ gs) w start =
      elim (fate_cases (fate_of w.sharing.process_id e now g)) [
        | inl other ↦
            let rest = lifecycle_loop_cases swapped stopped e now gs w start in ground arith
        | inr (inl same) ↦
            let rest =
              lifecycle_loop_cases swapped stopped e now gs (record w { live = id ∷ w.live })
                start in
            ground arith
        | inr (inr (g', changes)) ↦
            let g1 = record g' { revision = (g'.revision + 1) % 2 ^ 64 } in
            let w1 = record w {
              sharing = swap_grant id g1 w.sharing;
              live = id ∷ w.live;
              is_changed = true;
            } in
            let rest =
              lifecycle_loop_cases swapped stopped e now gs w1 (swapped id g1 w.sharing start) in
            let over = stopped w.sharing start in ground arith
      ]

  pub expire_loop_cases :
      (now : Time) (gs : GoMap Text ShareGrant) (s : Sharing) (is_changed : Bool)
      → P s
      → P (expire_loop now gs s is_changed).0
  unfolding expire_loop
  expire_loop_cases now [] s is_changed start = start
  expire_loop_cases now ((id, g) ∷ gs) s is_changed start =
      elim (Option-cases (transition g expired)) [
        | inl refused ↦ let rest = expire_loop_cases now gs s is_changed start in ground arith
        | inr (next, accepted) ↦
            let rest = expire_loop_cases now gs s is_changed start in
            let rest' =
              expire_loop_cases now gs (replace_grant id next s) true (replaced id next s start) in
            ground arith
      ]

  module _ (store : Store)
      (saves : (now : Time) (s : Sharing) → P s → P (save_locked store now s).0) where
    pub expire_cases : (now : Time) (s : Sharing) → P s → P (expire store now s).0
    unfolding expire
    expire_cases now s start =
        let swept = expire_loop_cases now s.state.grants s false start in
        let done = saves now (expire_loop now s.state.grants s false).0 swept in ground arith

    suspend_all_cases :
        ((id : Text) (s : Sharing)
          → P s
          → P (
              rewrite_grant id
                (suspend by_persistence (grant_or_zero (lookup id s.state.grants)))
                s))
        → (ids : List Text) (s : Sharing) → P s
        → P (suspend_all ids s)
    unfolding suspend_all
    suspend_all_cases suspends [] s start = start
    suspend_all_cases suspends (id ∷ ids) s start =
        suspend_all_cases suspends ids _ (suspends id s start)

    pub lifecycle_cases :
        ((id : Text) (g : ShareGrant) (s : Sharing) → P s → P (swap_grant id g s))
        → ((s : Sharing) → P s → P (record s { disabled = true }))
        → ((s : Sharing) → P s → P (record s { dirty = true }))
        → ((id : Text) (s : Sharing)
            → P s
            → P (
                rewrite_grant id
                  (suspend by_persistence (grant_or_zero (lookup id s.state.grants)))
                  s))
        → (e : AgentEvent) (now : Time) (s : Sharing) → P s
        → P (lifecycle store e now s).0
    unfolding lifecycle
    lifecycle_cases swapped stopped dirtied suspends e now s start =
        let begun : Sweep = record {
          sharing = s;
          live = [];
          is_changed = false;
          gave_up = false;
        } in
        let w = lifecycle_loop e now s.state.grants begun in
        let swept = lifecycle_loop_cases swapped stopped e now s.state.grants begun start in
        let s1 = record w.sharing { dirty = true } in
        let done = saves now s1 (dirtied w.sharing swept) in
        let denied = suspend_all_cases suspends w.live (save_locked store now s1).0 done in
        ground arith
