-- ===== src/App/Sharing.antt =====
-- internal/app/sharing.go: the manager of the private shares. Its mutex makes each method one step; the
-- store answers each save with an outcome, which the methods take as the parameter `store`.
pub mod Contacts
pub mod Grants
pub mod Sweeps
pub mod Mirrors
pub mod Dispatch
pub mod Steps
pub mod Cases
pub mod Kept
pub mod Rounds
pub mod Current
pub mod Admitted
pub mod Flights
pub mod Denials
pub mod Exits
pub mod Expiry
pub mod Disabled
use herdr_telegram_agents.Common.{
  ℕ, ◌+◌, ◌-◌, ◌*◌, ◌%◌, ◌^◌, Bool, true, false, not, ◌&&◌, ◌||◌, Option, none, some, List, [], ◌∷◌,
  nat_eq, ◌==◌, ltb, leb, if◌then◌else◌, select, take, length,
}
use herdr_telegram_agents.Common.Text.{Text, text_eq}
use herdr_telegram_agents.Common.Int.{pos, ℤ, int_eq, is_nonpos}
use herdr_telegram_agents.Common.Blanks.{trim_space}
use herdr_telegram_agents.Common.GoMap.{GoMap, lookup, has, insert, delete}
use herdr_telegram_agents.Encoding.Utf8.{runes, of_runes}
use herdr_telegram_agents.Domain.Mapping.{Time}
use herdr_telegram_agents.Domain.Sharing.{ShareGrant, max_uint64, grant_state_eq, revoked, expired}
use herdr_telegram_agents.Domain.Sharing.State.{
  SharingState, Recipient, new_sharing_state, max_recipients, max_recipient_name,
  max_recipient_username,
}

-- What a cancel function in the source's map stands for: the call that it cancels. A dispatch is a call
-- that `Begin` let through; the others come from a binding guard. `admitted` is the revision it was let
-- through at.
pub record Call : Type 0 where
  pub is_dispatch : Bool
  pub admitted : ℕ

-- `cancelled` holds the tokens whose cancel function was called.
pub record Sharing : Type 0 where
  pub bot_id : ℤ
  pub process_id : Text
  pub inflight : GoMap Text (GoMap Text Call)
  pub cancelled : List Text
  pub state : SharingState
  pub disabled : Bool
  pub dirty : Bool
  pub last_save : Time
  pub contact_window : Time
  pub contact_count : ℕ

-- What the store answers; `full` is ErrSharingStateFull.
pub data SaveOutcome : Type 0 where
  saved full failed : SaveOutcome

pub data SharingError : Type 0 where
  unavailable capacity registration_busy invalid_contact : SharingError
  recipient_not_found no_contact invalid_grant grant_changed stale_selection : SharingError
  bad_transition choose_new_expiry needs_new_grant agent_unavailable not_durable : SharingError
  not_pending creation_unknown changed_during_creation no_repair_needed stale_mirror : SharingError
  access_changed bad_display bad_fold invalid_service_topic mirror_changed : SharingError
  save_full save_failed : SharingError

abbrev pub Store : Type 0
Store = SharingState → SaveOutcome

-- SharingState{}
abbrev no_state : SharingState
no_state = record {
  version = pos 0;
  bot_id = pos 0;
  revision = 0;
  update_id = pos 0;
  recipients = [];
  grants = [];
  mirrors = [];
  service_topics = [];
  dashboards = [];
}

-- NewSharing, after the store's Load gave a state or an error, with which it gives the zero state.
unfoldable pub new_sharing : ℤ → Text → Option SharingState → Sharing
new_sharing bot_id process_id loaded = record {
  bot_id = bot_id;
  process_id = process_id;
  inflight = [];
  cancelled = [];
  state = elim loaded [ none ↦ no_state | some st ↦ st ];
  disabled = elim loaded [ none ↦ true | some st ↦ false ];
  dirty = false;
  last_save = 0;
  contact_window = 0;
  contact_count = 0;
}

-- Snapshot
unfoldable pub snapshot : Sharing → SharingState × Bool
unfolding new_sharing_state
snapshot s = if s.disabled then (new_sharing_state, false) else (s.state, true)

holds_grant : ℤ → GoMap Text ShareGrant → Bool
holds_grant actor [] = false
holds_grant actor ((id, g) ∷ gs) =
    g.recipient_id == actor && not (g.state == revoked) && not (g.state == expired)
    || holds_grant actor gs

-- Grantee
unfoldable pub grantee : Sharing → ℤ → Bool
unfolding holds_grant
grantee s actor = not s.disabled && holds_grant actor s.state.grants

-- saveLocked
unfoldable pub save_locked : Store → Time → Sharing → Sharing × Option SharingError
save_locked store now s =
    if s.state.revision == max_uint64
    then (record s { disabled = true }, some unavailable)
    else let next = record s.state { revision = (s.state.revision + 1) % 2 ^ 64 } in
      elim (store next) [
        | saved ↦ (record s { state = next; last_save = now; dirty = false }, none)
        | full ↦ (s, some save_full)
        | failed ↦ (s, some save_failed)
      ]

pub tokens : GoMap Text Call → List Text → List Text
tokens [] rest = rest
tokens ((token, c) ∷ calls) rest = token ∷ tokens calls rest

abbrev pub calls_of : Sharing → Text → GoMap Text Call
calls_of s id = elim (lookup id s.inflight) [ none ↦ [] | some calls ↦ calls ]

-- cancelLocked
unfoldable pub cancel_locked : Text → Sharing → Sharing
unfolding tokens
cancel_locked id s = record s {
  cancelled = tokens (calls_of s id) s.cancelled;
  inflight = delete id s.inflight;
}

abbrev pub minute : ℕ
minute = 60 * 1000000000

abbrev pub max_new_contacts_per_minute : ℕ
max_new_contacts_per_minute = 30

-- newContactAllowed
unfoldable pub new_contact_allowed : Time → Sharing → Sharing × Bool
new_contact_allowed now s0 =
    let s =
      if leb minute (now - s0.contact_window)
      then record s0 { contact_window = now; contact_count = 0 }
      else s0 in
    if leb max_new_contacts_per_minute s.contact_count
    then (s, false)
    else (record s { contact_count = s.contact_count + 1 }, true)

-- unicode.IsControl
abbrev is_control : ℕ → Bool
is_control r = ltb r 0x20 || leb 0x7f r && leb r 0x9f

-- boundedContact
unfoldable pub bounded_contact : Text → ℕ → Text
unfolding is_control
bounded_contact value max =
    let printed = of_runes (select (λ r. not (is_control r)) (runes value)) in
    of_runes (take max (runes (trim_space printed)))

new_recipient : ℤ → Time → Recipient
new_recipient id now = record {
  id = id;
  chat_id = id;
  name = [];
  username = [];
  first_seen = now;
  last_seen = 0;
  unavailable = false;
  hidden = false;
}

seen_again : Text → Text → Time → Recipient → Recipient
seen_again name username now r = record r {
  name = bounded_contact name max_recipient_name;
  username = bounded_contact username max_recipient_username;
  last_seen = if ltb r.last_seen now then now else r.last_seen;
  unavailable = false;
}

abbrev pub put_recipient : ℤ → Recipient → Sharing → Sharing
put_recipient id r s = record s {
  state = record s.state { recipients = insert id r s.state.recipients };
  dirty = true;
}

-- The end of `Register` for a first contact: what a failed save leaves.
abbrev pub registered :
    Sharing → Sharing × Option SharingError → Sharing × Option SharingError × Bool
registered old (s, none) = (s, none, true)
registered old (s, some save_full) = (record s { state = old.state }, some capacity, false)
registered old (s, some e) = (record s { state = old.state }, some e, false)

-- Register
unfoldable pub register :
    Store → ℤ → ℤ → Text → Text → Time → Sharing → Sharing × Option SharingError × Bool
unfolding new_recipient seen_again
register store id chat_id name username now s =
    if s.disabled
    then (s, some unavailable, false)
    else if is_nonpos id || not (chat_id == id) || now == 0
    then (s, some invalid_contact, false)
    else elim (lookup id s.state.recipients) [
      | some r ↦ (put_recipient id (seen_again name username now r) s, none, false)
      | none ↦
          if leb max_recipients (length s.state.recipients)
          then (s, some capacity, false)
          else let (s1, fits) = new_contact_allowed now s in
            if not fits
            then (s1, some registration_busy, false)
            else let r = seen_again name username now (new_recipient id now) in
              registered s1 (save_locked store now (put_recipient id r s1))
    ]

abbrev flush_interval : ℕ
flush_interval = 30 * 1000000000

-- Flush
unfoldable pub flush : Store → Time → Bool → Sharing → Sharing × Option SharingError
flush store now force s =
    if s.disabled
    then (s, some unavailable)
    else if not s.dirty || not force && ltb (now - s.last_save) flush_interval
    then (s, none)
    else save_locked store now s
