-- ===== src/Domain/Access/Safety.antt =====
-- What the access decision promises the owner of an agent.
use herdr_telegram_agents.Common.{
  ◌≤◌, ◌≡◌, ◌≢◌, inl, inr, refl, Bool, true, false, not, ◌||◌, some, List, [], ◌∷◌, arith, nat_eq,
  if◌then◌else◌, Bool-cases,
}
use herdr_telegram_agents.Domain.Key.{Key}
use herdr_telegram_agents.Domain.Mapping.{Time}
use herdr_telegram_agents.Domain.Sharing.{
  GrantState, ShareGrant, read, MirrorBinding, max_uint64, transitions,
}
use herdr_telegram_agents.Domain.Sharing.Lifecycle.{transitions-revision}
use herdr_telegram_agents.Domain.Access.{
  ShareAction, prompt, attachment, dialog, keys, forward, git, close, focus, ShareOrigin, expired,
  is_expired, share_permits, authorize_share,
}
use herdr_telegram_agents.Domain.Access.Decision.{authorize_exact}

-- Work that carries the revision of a grant is refused once the grant made one or more
-- transitions, whichever they were, if the revision had not passed the uint64 maximum.
pub stale_work_refused :
    (g g' : ShareGrant) (path : List GrantState) (m : MirrorBinding) (o : ShareOrigin)
    (current : Key) (action : ShareAction) (now : Time)
    → g.revision ≤ max_uint64
    → o.revision ≡ g.revision
    → path ≢ []
    → transitions g path ≡ some g'
    → (authorize_share g' m o current action now).is_allowed ≡ false
stale_work_refused g g' [] m o current action now fits admitted moved h = absurd (moved refl)
stale_work_refused g g' (next ∷ path) m o current action now fits admitted moved h =
    elim (Bool-cases (authorize_share g' m o current action now).is_allowed) [
      | inl yielded ↦
          let ok = (authorize_exact g' m o current action now).0 yielded in
          let counted = transitions-revision g g' (next ∷ path) fits h in absurd (omega arith)
      | inr refused ↦ refused
    ]

-- The actions that change something: the terminal, the agent, or the owner's screen.
abbrev pub acts : ShareAction → Bool
acts prompt = true
acts attachment = true
acts dialog = true
acts keys = true
acts forward = true
acts close = true
acts focus = true
acts _ = false

abbrev pub is_git : ShareAction → Bool
is_git git = true
is_git _ = false

reader_permits :
    (g : ShareGrant) (action : ShareAction)
    → g.role ≡ read
    → share_permits g action ≡ true
    → (acts action ≡ false) × ((not (is_git action) || g.repository_read) ≡ true)
unfolding share_permits
reader_permits g action reader h = ground arith

-- A request that is allowed to a reader is not for an action that needs control, and is for git
-- only if the grant lets its recipient read the repository.
pub reader_never_acts :
    (g : ShareGrant) (m : MirrorBinding) (o : ShareOrigin) (current : Key) (action : ShareAction)
    (now : Time)
    → g.role ≡ read
    → (authorize_share g m o current action now).is_allowed ≡ true
    → (acts action ≡ false) × ((not (is_git action) || g.repository_read) ≡ true)
reader_never_acts g m o current action now reader h =
    let ok = ((authorize_exact g m o current action now).0 h).permitted in
    reader_permits g action reader ok

-- A request that is allowed at one time gets at a later one the same decision, or is refused as
-- expired, exactly if the grant has expired by then.
pub time_only_expires :
    (g : ShareGrant) (m : MirrorBinding) (o : ShareOrigin) (current : Key) (action : ShareAction)
    (now later : Time)
    → now ≤ later
    → (authorize_share g m o current action now).is_allowed ≡ true
    → authorize_share g m o current action later ≡ (
        if is_expired g later
        then record { is_allowed = false; reason = expired; history_cursor = 0 }
        else authorize_share g m o current action now)
unfolding authorize_share
time_only_expires g m o current action now later h ok = ground arith
