-- ===== src/App/Presence/Latest.antt =====
-- The quiet flag, and what the daemon loop hears of it.
use herdr_telegram_agents.Common.{
  ℕ, ◌+◌, ◌<◌, ◌≡◌, refl, Bool, false, not, ◌&&◌, ◌||◌, ◌⊎◌, inl, inr, none, some, arith, nat_eq,
  ltb, Bool-cases,
}
use herdr_telegram_agents.Domain.Mapping.{Time}
use herdr_telegram_agents.App.Presence.{
  Presence, QuietOptions, IdleAnswer, idle_for, idle_unsupported, idle_failed, effective, recompute,
  set_desk_default, state_of, expire_away, poll_start, sample, poll_finish, away, here, receive,
  new_presence,
}

-- The tracker with the last value that the daemon loop took from the channel, in every interleaving
-- of the loop's polls with the bridge's commands and the changes of the options.
pub data Reachable : Presence → Bool → Type 0 where
  fresh : (has_idle : Bool) → Reachable (new_presence has_idle) false
  desk :
      {p : Presence} {seen : Bool}
      → Reachable p seen
      → (opts : QuietOptions) (on : Bool) → Reachable (set_desk_default opts on p) seen
  polling :
      {p : Presence} {seen : Bool}
      → Reachable p seen
      → (opts : QuietOptions) (now : Time) → Reachable (poll_start opts now p).0 seen
  answered :
      {p : Presence} {seen : Bool}
      → Reachable p seen
      → (opts : QuietOptions) (answer : IdleAnswer) (threshold : ℕ)
      → Reachable (poll_finish opts answer threshold p) seen
  leave :
      {p : Presence} {seen : Bool}
      → Reachable p seen
      → (opts : QuietOptions) (d : ℕ) (now : Time) → Reachable (away opts d now p) seen
  come :
      {p : Presence} {seen : Bool}
      → Reachable p seen
      → (opts : QuietOptions) → Reachable (here opts p) seen
  toggled :
      {p : Presence} {seen : Bool}
      → Reachable p seen
      → (opts : QuietOptions) → Reachable (recompute opts p) seen
  taken :
      {p : Presence} {seen : Bool}
      → Reachable p seen
      → (value : Bool) → p.changes ≡ some value
      → Reachable (receive p) value

-- The channel holds the flag, or is empty and the loop has the flag.
pub record IsHeard (p : Presence) (seen : Bool) : Type 0 where
  pub latest : (p.changes ≡ some p.quiet) ⊎ ((p.changes ≡ none) × (seen ≡ p.quiet))

recompute-IsHeard :
    (opts : QuietOptions) (p p' : Presence) (seen : Bool)
    → p'.quiet ≡ p.quiet
    → p'.changes ≡ p.changes
    → IsHeard p seen
    → IsHeard (recompute opts p') seen
unfolding recompute
recompute-IsHeard opts p p' seen q c h = record {
  latest =
      let old = h.latest in
      elim (Bool-cases (effective opts.enabled p')) [
        | inl on ↦ ground arith
        | inr off ↦ ground arith
      ];
}

sample-keeps :
    (answer : IdleAnswer) (threshold : ℕ) (p : Presence)
    → ((sample answer threshold p).quiet ≡ p.quiet)
      × ((sample answer threshold p).changes ≡ p.changes)
unfolding sample
sample-keeps (idle_for d) threshold p = (refl, refl)
sample-keeps idle_unsupported threshold p = (refl, refl)
sample-keeps idle_failed threshold p = (refl, refl)

expire_away-keeps :
    (now : Time) (p : Presence)
    → ((expire_away now p).quiet ≡ p.quiet) × ((expire_away now p).changes ≡ p.changes)
unfolding expire_away
expire_away-keeps now p = (ground arith, ground arith)

poll_start-IsHeard :
    (opts : QuietOptions) (now : Time) (p : Presence) (seen : Bool)
    → IsHeard p seen
    → IsHeard (poll_start opts now p).0 seen
unfolding poll_start
poll_start-IsHeard opts now p seen h =
    let k = expire_away-keeps now p in
    let r = recompute-IsHeard opts p (expire_away now p) seen k.0 k.1 h in
    let l = h.latest in let rl = r.latest in record { latest = ground arith }

-- In every interleaving of polls, commands and option changes with the receipts of the daemon
-- loop, the channel holds the current quiet flag, or is empty and the loop took the current flag
-- last.
pub Reachable-IsHeard : (p : Presence) (seen : Bool) → Reachable p seen → IsHeard p seen
unfolding set_desk_default poll_finish away here receive new_presence
Reachable-IsHeard _ _ (fresh has_idle) = record { latest = inr (refl, refl) }
Reachable-IsHeard _ _ (desk {p = p} {seen = seen} r opts on) =
    recompute-IsHeard opts p _ seen refl refl (Reachable-IsHeard p seen r)
Reachable-IsHeard _ _ (polling {p = p} {seen = seen} r opts now) =
    poll_start-IsHeard opts now p seen (Reachable-IsHeard p seen r)
Reachable-IsHeard _ _ (answered {p = p} {seen = seen} r opts answer threshold) =
    let k = sample-keeps answer threshold p in
    recompute-IsHeard opts p (sample answer threshold p) seen k.0 k.1 (Reachable-IsHeard p seen r)
Reachable-IsHeard _ _ (leave {p = p} {seen = seen} r opts d now) =
    recompute-IsHeard opts p _ seen refl refl (Reachable-IsHeard p seen r)
Reachable-IsHeard _ _ (come {p = p} {seen = seen} r opts) =
    recompute-IsHeard opts p _ seen refl refl (Reachable-IsHeard p seen r)
Reachable-IsHeard _ _ (toggled {p = p} {seen = seen} r opts) =
    recompute-IsHeard opts p p seen refl refl (Reachable-IsHeard p seen r)
Reachable-IsHeard _ _ (taken {p = p} {seen = seen} r value held) =
    let h = (Reachable-IsHeard p seen r).latest in record { latest = ground arith }

-- In the state after a recomputation, quiet is in force exactly if it is enabled, no away override
-- is active, and presence is by hand or a supported source saw the operator at the desk.
pub state_of-quiet :
    (opts : QuietOptions) (p : Presence)
    → (state_of opts (recompute opts p)).quiet ≡ (
        (state_of opts (recompute opts p)).enabled
        && (not (state_of opts (recompute opts p)).manual_away
            && ((state_of opts (recompute opts p)).manual_here
                || (state_of opts (recompute opts p)).supported
                  && (state_of opts (recompute opts p)).at_desk)))
unfolding state_of recompute
state_of-quiet opts p = ground arith

-- Away for a time that is not zero turns quiet mode off, and a later poll keeps the override
-- exactly while that time has not passed.
pub away_expires :
    (opts : QuietOptions) (p : Presence) (d now later : ℕ)
    → 0 < d
    → ((away opts d now p).quiet ≡ false)
      × ((poll_start opts later (away opts d now p)).0.manual_away ≡ ltb later (now + d))
unfolding away poll_start expire_away recompute
away_expires opts p d now later pos = (ground arith, ground arith)
