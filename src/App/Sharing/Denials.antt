-- ===== src/App/Sharing/Denials.antt =====
-- A change of a grant that takes a permission away denies at once, whatever the store answers.
use herdr_telegram_agents.Common.{
  ℕ, ◌+◌, ◌%◌, ◌^◌, ◌≡◌, ◌≢◌, refl, sym, subst, Bool, true, false, ◌⊎◌, inl, inr, none, some, arith,
  nat_eq, Bool-cases, Option-cases, List, [], ◌∷◌, elem,
}
use herdr_telegram_agents.Common.Text.{Text, text_eq}
use herdr_telegram_agents.Common.Int.{int_eq}
use herdr_telegram_agents.Common.GoMap.{GoMap, lookup, has, lookup-insert, lookup-delete}
use herdr_telegram_agents.Domain.Mapping.{Time}
use herdr_telegram_agents.Domain.Access.{ShareOrigin, ShareAction, authorize_share}
use herdr_telegram_agents.Domain.Access.Decision.{authorize_exact}
use herdr_telegram_agents.Domain.Sharing.{
  ShareGrant, GrantState, grant_state_eq, active, suspended, transition,
}
use herdr_telegram_agents.App.Sharing.{
  Sharing, Store, Call, not_durable, save_locked, tokens, calls_of, cancel_locked,
}
use herdr_telegram_agents.App.Sharing.Grants.{
  AgentLookup, replace_grant, change_state, change_refused, activation_refused, owner,
}
use herdr_telegram_agents.App.Sharing.Mirrors.{mirror_of}
use herdr_telegram_agents.App.Sharing.Dispatch.{begin}
use herdr_telegram_agents.App.Sharing.Kept.{save_locked-Keeps, outcome_cases}

-- The grant that an id leads to, if any, is not active.
abbrev pub IsStopped : Text → Sharing → Type 0
IsStopped id s = (g : ShareGrant) → lookup id s.state.grants ≡ some g → g.state ≢ active

-- The grants that are not active have no dispatch.
pub stopped_denied :
    (agent : AgentLookup) (ended : Bool) (token : Text) (o : ShareOrigin) (action : ShareAction)
    (now : Time) (s : Sharing)
    → IsStopped o.grant_id s
    → (begin agent ended token o action now s).1.is_allowed ≡ false
unfolding begin
stopped_denied none ended token o action now s stopped = refl
stopped_denied (some agent) ended token o action now s stopped =
    elim (Option-cases (lookup o.grant_id s.state.grants)) [
      | inl unknown ↦ ground arith
      | inr (g, known) ↦ elim (Option-cases (agent g.key)) [
        | inl dead ↦ ground arith
        | inr (a, live) ↦
            elim (Bool-cases (authorize_share g (mirror_of s g.id) o a.key action now).is_allowed) [
              | inl permitted ↦ absurd (
                  stopped g known
                    ((authorize_exact g (mirror_of s g.id) o a.key action now).0
                      permitted).live_grant)
              | inr denied ↦ ground arith
            ]
      ]
    ]

transition-state :
    (g g' : ShareGrant) (next : GrantState) → transition g next ≡ some g' → g'.state ≡ next
unfolding transition
transition-state g g' next accepted = ground arith

-- The calls that are registered are among the cancelled ones.
elem-tokens :
    (token : Text) (calls : GoMap Text Call) (rest : List Text)
    → (has token calls ≡ false) ⊎ (elem token (tokens calls rest) ≡ true)
unfolding tokens
elem-tokens token [] rest = inl refl
elem-tokens token ((t, c) ∷ calls) rest = let e = elem-tokens token calls rest in ground arith

save_locked-cancelled :
    (store : Store) (now : Time) (s : Sharing) → (save_locked store now s).0.cancelled ≡ s.cancelled
unfolding save_locked
save_locked-cancelled store now s =
    let o = outcome_cases (store (record s.state { revision = (s.state.revision + 1) % 2 ^ 64 })) in
    ground arith

-- What `ChangeState` leaves for a grant that it changed.
change_state-done :
    (store : Store) (agent : AgentLookup) (id : Text) (revision : ℕ) (next : GrantState)
    (now : Time) (s : Sharing)
    → (((change_state store agent id revision next now s).1 ≡ none) × (next ≢ active))
      ⊎ ((change_state store agent id revision next now s).1 ≡ some not_durable)
    → (g : ShareGrant) × (lookup id (change_state store agent id revision next now s).0.state.grants
        ≡ some g)
      × (g.state ≢ active)
      × (lookup id (change_state store agent id revision next now s).0.inflight ≡ none)
      × ((change_state store agent id revision next now s).0.cancelled
          ≡ tokens (calls_of s id) s.cancelled)
unfolding change_state cancel_locked change_refused activation_refused
change_state-done store agent id revision next now s how =
    elim (Option-cases (lookup id s.state.grants)) [
      | inl unknown ↦ absurd (ground arith)
      | inr (g, known) ↦ elim (Option-cases (transition g next)) [
        | inl no_transition ↦ absurd (ground arith)
        | inr (moved, accepted) ↦
            let c = record moved { suspend_reason = owner } in
            let d = record c { state = suspended } in
            let to = transition-state g moved next accepted in
            let k = save_locked-Keeps store now (replace_grant id c s) in
            let o = save_locked-cancelled store now (replace_grant id c s) in
            let e1 = lookup-insert id id c s.state.grants in
            let e2 =
              lookup-insert id id d (save_locked store now (replace_grant id c s)).0.state.grants in
            let e3 = lookup-delete id id s.inflight in
            elim (grant_state_eq.dec next active) [
              | yes up ↦ (d, ground arith, ground arith, ground (arith, k.inflight), ground arith)
              | no down ↦ (
                c,
                ground (arith, k.grants),
                ground arith,
                ground (arith, k.inflight),
                ground arith,
              )
            ]
      ]
    ]

-- Once ChangeState took a grant out of the active state, or failed to save a change, the calls
-- that were registered for the grant are cancelled, none is in flight, and Begin refuses every
-- dispatch on it.
pub change_denies :
    (store : Store) (agent : AgentLookup) (id : Text) (revision : ℕ) (next : GrantState)
    (now : Time) (s : Sharing) (look : AgentLookup) (ended : Bool) (token : Text) (o : ShareOrigin)
    (action : ShareAction) (later : Time) (running : Text)
    → (((change_state store agent id revision next now s).1 ≡ none) × (next ≢ active))
      ⊎ ((change_state store agent id revision next now s).1 ≡ some not_durable)
    → o.grant_id ≡ id
    → ((begin look ended token o action later
          (change_state store agent id revision next now s).0).1.is_allowed
        ≡ false)
      × (lookup id (change_state store agent id revision next now s).0.inflight ≡ none)
      × ((has running (calls_of s id) ≡ false)
          ⊎ (elem running (change_state store agent id revision next now s).0.cancelled ≡ true))
change_denies store agent id revision next now s look ended token o action later running how same =
    let s1 = (change_state store agent id revision next now s).0 in
    let (g, known, stopped, idle, cancelled) =
      change_state-done store agent id revision next now s how in
    let e = elem-tokens running (calls_of s id) s.cancelled in
    let halted : IsStopped id s1 = λ g' known' up. stopped (ground arith) in
    (
      stopped_denied look ended token o action later s1
          (subst (λ i. IsStopped i s1) (sym same) halted),
      idle,
      ground arith,
    )

-- A disabled manager admits no dispatch.
pub disabled_denied :
    (agent : AgentLookup) (ended : Bool) (token : Text) (o : ShareOrigin) (action : ShareAction)
    (now : Time) (s : Sharing)
    → s.disabled ≡ true
    → (begin agent ended token o action now s).1.is_allowed ≡ false
unfolding begin
disabled_denied none ended token o action now s off = refl
disabled_denied (some agent) ended token o action now s off = ground arith
