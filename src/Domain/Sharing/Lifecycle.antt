-- ===== src/Domain/Sharing/Lifecycle.antt =====
-- The life of a grant: revisions only grow, and nothing becomes active but through `pending`.
use herdr_telegram_agents.Common.{
  ◌+◌, ◌≤◌, ◌≡◌, ◌≢◌, Bool, true, false, inl, inr, some, List, [], ◌∷◌, arith, length, elem,
  Option-cases,
}
use herdr_telegram_agents.Domain.Sharing.{
  GrantState, grant_state_eq, pending, active, revoked, expired, needs_repair, is_valid, ShareGrant,
  max_uint64, transition, transitions,
}

-- An accepted transition takes the state that was asked for and the next revision, without
-- wrapping around, and changes nothing else that access depends on.
pub transition_accepted :
    (g g' : ShareGrant) (next : GrantState)
    → g.revision ≤ max_uint64
    → transition g next ≡ some g'
    → (g' ≡ record g { state = next; revision = g.revision + 1 })
      × (g'.revision ≤ max_uint64)
      × (is_valid next ≡ true)
unfolding transition
transition_accepted g g' next fits h = ground arith

-- If the revision of a grant fits a uint64, a run of accepted transitions raises it by the number
-- of transitions, within uint64, and leaves the id, the recipient, the role and the key.
pub transitions-revision :
    (g g' : ShareGrant) (path : List GrantState)
    → g.revision ≤ max_uint64
    → transitions g path ≡ some g'
    → (g'.revision ≡ g.revision + length path)
      × (g'.revision ≤ max_uint64)
      × (g'.id ≡ g.id)
      × (g'.recipient_id ≡ g.recipient_id)
      × (g'.role ≡ g.role)
      × (g'.key ≡ g.key)
unfolding transitions
transitions-revision g g' [] fits h = ground arith
transitions-revision g g' (next ∷ path) fits h = elim (Option-cases (transition g next)) [
  | inl refused ↦ absurd (ground arith)
  | inr (m, accepted) ↦
      let step = transition_accepted g m next fits accepted in
      let rest = transitions-revision m g' path (ground arith) (ground arith) in ground arith
]

abbrev pub is_dead : GrantState → Bool
is_dead revoked = true
is_dead expired = true
is_dead needs_repair = true
is_dead _ = false

dead_step :
    (g m : ShareGrant) (next : GrantState)
    → is_dead g.state ≡ true
    → transition g next ≡ some m
    → next ≢ pending
    → is_dead m.state ≡ true
unfolding transition
dead_step g m next dead h p = ground arith

-- If a run of accepted transitions takes a grant from revoked, expired or needs_repair to active,
-- the state pending was asked for on the way.
pub revival_needs_pending :
    (g g' : ShareGrant) (path : List GrantState)
    → is_dead g.state ≡ true
    → transitions g path ≡ some g'
    → g'.state ≡ active
    → elem pending path ≡ true
unfolding transitions
revival_needs_pending g g' [] dead h a = ground arith
revival_needs_pending g g' (next ∷ path) dead h a = elim (Option-cases (transition g next)) [
  | inl refused ↦ absurd (ground arith)
  | inr (m, accepted) ↦ elim (grant_state_eq.dec next pending) [
    | yes p ↦ ground arith
    | no p ↦
        let ih =
          revival_needs_pending m g' path (dead_step g m next dead accepted p) (ground arith) a in
        ground arith
  ]
]
