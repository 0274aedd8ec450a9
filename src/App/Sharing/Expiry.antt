-- ===== src/App/Sharing/Expiry.antt =====
-- What a sweep of `Expire` makes of each grant.
use herdr_telegram_agents.Common.{
  ◌+◌, ◌%◌, ◌^◌, ◌≤◌, ◌≡◌, ◌≢◌, ◌∙◌, ap, refl, subst, Bool, true, false, ◌⊎◌, inl, inr, none, some,
  [], ◌∷◌, arith, nat_eq, if◌then◌else◌, Option-cases, Bool-cases,
}
use herdr_telegram_agents.Common.Text.{Text, text_eq}
use herdr_telegram_agents.Common.GoMap.{GoMap, lookup, has, lookup-insert, IsMap}
use herdr_telegram_agents.Domain.Mapping.{Time}
use herdr_telegram_agents.Domain.Sharing.{
  ShareGrant, grant_state_eq, active, suspended, pending, expired, max_uint64, transition,
}
use herdr_telegram_agents.App.Sharing.{Sharing, Store, cancel_locked}
use herdr_telegram_agents.App.Sharing.Grants.{replace_grant}
use herdr_telegram_agents.App.Sharing.Sweeps.{is_due, expire_loop, expire}
use herdr_telegram_agents.App.Sharing.Kept.{save_locked-Keeps}

-- What the sweep makes of a grant.
swept : Time → ShareGrant → ShareGrant
swept now g =
    if is_due now g then elim (transition g expired) [ none ↦ g | some next ↦ next ] else g

-- The sweep leaves the grants that it does not come to.
expire_loop_absent :
    (now : Time) (gs : GoMap Text ShareGrant) (s : Sharing) (is_changed : Bool) (id : Text)
    → has id gs ≡ false
    → lookup id (expire_loop now gs s is_changed).0.state.grants ≡ lookup id s.state.grants
unfolding expire_loop cancel_locked
expire_loop_absent now [] s is_changed id absent = refl
expire_loop_absent now ((j, g) ∷ gs) s is_changed id absent =
    elim (Option-cases (transition g expired)) [
      | inl refused ↦ let rest = expire_loop_absent now gs s is_changed id in ground arith
      | inr (next, accepted) ↦
          let e = lookup-insert j id next s.state.grants in
          let rest = expire_loop_absent now gs s is_changed id in
          let rest' = expire_loop_absent now gs (replace_grant j next s) true id in ground arith
    ]

-- Each grant that it comes to is swept.
expire_loop-swept :
    (now : Time) (gs : GoMap Text ShareGrant) (s : Sharing) (is_changed : Bool) (id : Text)
    (g : ShareGrant)
    → IsMap gs
    → lookup id gs ≡ some g
    → lookup id s.state.grants ≡ some g
    → lookup id (expire_loop now gs s is_changed).0.state.grants ≡ some (swept now g)
unfolding expire_loop swept cancel_locked
expire_loop-swept now [] s is_changed id g d known stored = absurd (ground arith)
expire_loop-swept now ((j, h) ∷ gs) s is_changed id g d known stored = elim (text_eq.dec j id) [
  | yes here ↦
      let same : h ≡ g = ground arith in
      let absent : has id gs ≡ false = subst (λ i. has i gs ≡ false) here d.0 in
      elim (Option-cases (transition h expired)) [
        | inl refused ↦ let rest = expire_loop_absent now gs s is_changed id absent in ground arith
        | inr (next, accepted) ↦
            let e = lookup-insert j id next s.state.grants in
            let rest = expire_loop_absent now gs s is_changed id absent in
            let rest' = expire_loop_absent now gs (replace_grant j next s) true id absent in
            ground arith
      ]
  | no other ↦ elim (Option-cases (transition h expired)) [
    | inl refused ↦ let rest = expire_loop-swept now gs s is_changed id g d.1 in ground arith
    | inr (next, accepted) ↦
        let e = lookup-insert j id next s.state.grants in
        let rest = expire_loop-swept now gs s is_changed id g d.1 in
        let rest' = expire_loop-swept now gs (replace_grant j next s) true id g d.1 in ground arith
  ]
]

-- A grant that may still be used and whose end has come; a grant without an end has none.
pub record IsPastEnd (now : Time) (g : ShareGrant) : Type 0 where
  pub live_state : (g.state ≡ active) ⊎ (g.state ≡ suspended) ⊎ (g.state ≡ pending)
  pub has_end : g.expires_at ≢ 0
  pub ended : g.expires_at ≤ now

abbrev pub over : ShareGrant → ShareGrant
over g = record g { state = expired; revision = (g.revision + 1) % 2 ^ 64 }

-- The test of the sweep.
is_due-cases :
    (now : Time) (g : ShareGrant)
    → (IsPastEnd now g × (is_due now g ≡ true)) ⊎ (¬ IsPastEnd now g × (is_due now g ≡ false))
unfolding is_due
is_due-cases now g = elim (Bool-cases (is_due now g)) [
  | inl due ↦
      inl (record { live_state = ground arith; has_end = ground arith; ended = ground arith }, due)
  | inr early ↦ inr (
    (λ p. let o = p.live_state in let h = p.has_end in let e = p.ended in absurd (ground arith)),
    early,
  )
]

swept-cases :
    (now : Time) (g : ShareGrant)
    → (IsPastEnd now g × (g.revision ≢ max_uint64) × (swept now g ≡ over g))
      ⊎ (((¬ IsPastEnd now g) ⊎ (g.revision ≡ max_uint64)) × (swept now g ≡ g))
unfolding swept transition
swept-cases now g = elim (is_due-cases now g) [
  | inr (early, e) ↦ inr (inl early, ground arith)
  | inl (past, e) ↦ elim (nat_eq.dec g.revision max_uint64) [
    | yes top ↦ inr (inr top, ground arith)
    | no room ↦ let o = past.live_state in inl (past, room, ground arith)
  ]
]

-- In an enabled manager without repeated grant ids, and whatever the store answers, Expire makes a
-- stored grant expired, with the next revision, exactly if it is active, suspended or pending, has
-- an end, and the end is not after now, unless its revision is the uint64 maximum; it leaves every
-- other grant as it is.
pub expire_exact :
    (store : Store) (now : Time) (s : Sharing) (id : Text) (g : ShareGrant)
    → IsMap s.state.grants
    → s.disabled ≡ false
    → lookup id s.state.grants ≡ some g
    → (IsPastEnd now g
        × (g.revision ≢ max_uint64)
        × (lookup id (expire store now s).0.state.grants ≡ some (over g)))
      ⊎ (((¬ IsPastEnd now g) ⊎ (g.revision ≡ max_uint64))
          × (lookup id (expire store now s).0.state.grants ≡ some g))
unfolding expire
expire_exact store now s id g d on known =
    let k = save_locked-Keeps store now (expire_loop now s.state.grants s false).0 in
    let e = expire_loop-swept now s.state.grants s false id g d known known in
    let kept : lookup id (expire store now s).0.state.grants ≡ some (swept now g) =
      ground (arith, k.grants) in
    elim (swept-cases now g) [
      | inl (past, room, same) ↦ inl (past, room, kept ∙ ap some same)
      | inr (why, same) ↦ inr (why, kept ∙ ap some same)
    ]
