-- ===== src/App/Presence.antt =====
-- internal/app/presence.go and the state of internal/domain/presence.go: whether quiet mode is in
-- force. Every function here runs under the mutex; Poll is two of them, since the probe of the idle
-- source runs without it. The options are read anew each time, and are an argument.
pub mod Latest
use herdr_telegram_agents.Common.{
  ℕ, ◌+◌, ◌*◌, Bool, true, false, not, ◌&&◌, ◌||◌, Option, none, some, nat_eq, ◌==◌, ltb, leb,
  if◌then◌else◌,
}
use herdr_telegram_agents.Common.Text.{Text, codes}
use herdr_telegram_agents.Domain.Mapping.{Time}

-- QuietEnabled and QuietIdle.
pub record QuietOptions : Type 0 where
  pub enabled : Bool
  pub idle_after : ℕ

-- `changes` is the channel, with its one place.
pub record Presence : Type 0 where
  pub has_idle : Bool
  pub at_desk : Bool
  pub sampled : Bool
  pub unsupported : Bool
  pub failing : Bool
  pub last_sample_try : Time
  pub manual_away : Bool
  pub manual_until : Time
  pub desk_default : Bool
  pub manual_here : Bool
  pub quiet : Bool
  pub changes : Option Bool

pub record PresenceState : Type 0 where
  pub enabled : Bool
  pub supported : Bool
  pub at_desk : Bool
  pub manual_away : Bool
  pub manual_here : Bool
  pub until : Time
  pub quiet : Bool

-- PresenceState.Word
unfoldable pub word : PresenceState → Text
word s =
    if not s.enabled
    then codes "off"
    else if s.manual_away
    then codes "away-manual"
    else if s.quiet
    then codes "on"
    else if not s.supported
    then codes "off"
    else codes "away"

unfoldable pub new_presence : Bool → Presence
new_presence has_idle = record {
  has_idle = has_idle;
  at_desk = false;
  sampled = false;
  unsupported = not has_idle;
  failing = false;
  last_sample_try = 0;
  manual_away = false;
  manual_until = 0;
  desk_default = false;
  manual_here = false;
  quiet = false;
  changes = none;
}

abbrev pub by_hand : Presence → Bool
by_hand p = p.unsupported && (p.desk_default || p.manual_here)

-- The flag that `recompute` derives.
abbrev pub effective : Bool → Presence → Bool
effective enabled p =
    let automatic = not p.unsupported && (p.sampled && p.at_desk) in
    enabled && (not p.manual_away && (automatic || by_hand p))

abbrev same_flag : Bool → Bool → Bool
same_flag true b = b
same_flag false b = not b

unfoldable pub recompute : QuietOptions → Presence → Presence
recompute opts p =
    let quiet = effective opts.enabled p in
    if same_flag quiet p.quiet then p else record p { quiet = quiet; changes = some quiet }

-- SetDeskDefault
unfoldable pub set_desk_default : QuietOptions → Bool → Presence → Presence
set_desk_default opts on p = recompute opts (record p { desk_default = on })

-- State
unfoldable pub state_of : QuietOptions → Presence → PresenceState
state_of opts p = record {
  enabled = opts.enabled;
  supported = not p.unsupported;
  at_desk = p.sampled && p.at_desk;
  manual_away = p.manual_away;
  manual_here = by_hand p;
  until = p.manual_until;
  quiet = p.quiet;
}

abbrev pub presence_unsupported_retry : ℕ
presence_unsupported_retry = 60 * 1_000_000_000

expire_away : Time → Presence → Presence
expire_away now p =
    if p.manual_away && (not (p.manual_until == 0) && leb p.manual_until now)
    then record p { manual_away = false; manual_until = 0 }
    else p

abbrev skips_probe : Time → Presence → Bool
skips_probe now p =
    not p.has_idle
    || p.unsupported
      && not (p.last_sample_try == 0)
      && ltb now (p.last_sample_try + presence_unsupported_retry)

-- Poll up to the probe, and whether the probe follows.
unfoldable pub poll_start : QuietOptions → Time → Presence → Presence × Bool
unfolding expire_away
poll_start opts now p =
    let p1 = expire_away now p in
    if skips_probe now p1
    then (recompute opts p1, false)
    else (record p1 { last_sample_try = now }, true)

-- An answer of the idle source.
pub data IdleAnswer : Type 0 where
  idle_for : ℕ → IdleAnswer
  idle_unsupported idle_failed : IdleAnswer

unfoldable pub sample : IdleAnswer → ℕ → Presence → Presence
sample idle_unsupported threshold p = record p {
  unsupported = true;
  failing = false;
  at_desk = false;
  sampled = true;
}
sample idle_failed threshold p = record p { failing = true }
sample (idle_for d) threshold p = record p {
  failing = false;
  manual_here = if p.unsupported then false else p.manual_here;
  unsupported = false;
  at_desk = ltb d threshold;
  sampled = true;
}

-- Poll after the probe; the threshold was read before it.
unfoldable pub poll_finish : QuietOptions → IdleAnswer → ℕ → Presence → Presence
poll_finish opts answer threshold p = recompute opts (sample answer threshold p)

-- Away: for ever when `d` is 0.
unfoldable pub away : QuietOptions → ℕ → Time → Presence → Presence
away opts d now p = recompute opts (record p {
  manual_away = true;
  manual_until = if ltb 0 d then now + d else 0;
  manual_here = false;
})

-- Here
unfoldable pub here : QuietOptions → Presence → Presence
here opts p =
    recompute opts (record p { manual_away = false; manual_until = 0; manual_here = p.unsupported })

-- The daemon loop takes a value from `Changes`.
unfoldable pub receive : Presence → Presence
receive p = record p { changes = none }
