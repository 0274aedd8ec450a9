-- ===== src/Domain/Sharing.antt =====
-- internal/domain/sharing.go: grants of an agent to a recipient, and their state machine.
pub mod Lifecycle
pub mod State
use herdr_telegram_agents.Common.{
  ℕ, ◌+◌, ◌-◌, ◌%◌, ◌^◌, Bool, true, false, not, ◌||◌, Option, none, some, List, [], ◌∷◌, nat_eq,
  ℕ_discrete, DecEq, ◌==◌, if◌then◌else◌,
}
use herdr_telegram_agents.Common.Text.{Text}
use herdr_telegram_agents.Common.Int.{ℤ, ℤ-discrete}
use herdr_telegram_agents.Domain.Key.{Key}
use herdr_telegram_agents.Domain.Mapping.{Time}

pub record TopicAddress : Type 0 where
  pub chat_id : ℤ
  pub thread_id : ℤ

unfoldable pub TopicAddress-discrete : Discrete TopicAddress
unfolding ℕ_discrete
TopicAddress-discrete = hlevel ℕ_discrete

instance abbrev pub address_eq : DecEq TopicAddress
address_eq = record { dec = TopicAddress-discrete }

-- `other` holds a string that is none of the six: a sharing file may carry one.
pub data GrantState : Type 0 where
  pending active suspended revoked expired needs_repair : GrantState
  other : Text → GrantState

unfoldable pub GrantState-discrete : Discrete GrantState
unfolding ℕ_discrete
GrantState-discrete = hlevel ℕ_discrete

instance abbrev pub grant_state_eq : DecEq GrantState
grant_state_eq = record { dec = GrantState-discrete }

-- GrantState.Valid
abbrev pub is_valid : GrantState → Bool
is_valid (other s) = false
is_valid _ = true

pub data ShareRole : Type 0 where
  read control : ShareRole
  other_role : Text → ShareRole

unfoldable pub ShareRole-discrete : Discrete ShareRole
unfolding ℕ_discrete
ShareRole-discrete = hlevel ℕ_discrete

instance abbrev pub role_eq : DecEq ShareRole
role_eq = record { dec = ShareRole-discrete }

pub record ShareGrant : Type 0 where
  pub suspend_reason : Text
  pub id : Text
  pub recipient_id : ℤ
  pub key : Key
  pub revision : ℕ  -- uint64
  pub state : GrantState
  pub role : ShareRole
  pub repository_read : Bool
  pub close_agent : Bool
  pub local_focus : Bool
  pub exited_at : Time
  pub expires_at : Time
  pub activated_at : Time
  pub history_cursor : ℕ
  pub process_id : Text

abbrev pub max_uint64 : ℕ
max_uint64 = 2 ^ 64 - 1

-- The second `switch` of `Transition`.
abbrev pub allowed : GrantState → GrantState → Bool
allowed from revoked = true
allowed from pending = not (from == active)
allowed from active = from == pending || from == suspended
allowed from suspended = from == active || (from == pending || from == suspended)
allowed from expired = from == active || (from == pending || from == suspended)
allowed from needs_repair = from == pending || from == active
allowed from (other s) = false

-- Transition; `none` is ErrGrantTransition, with the grant unchanged.
unfoldable pub transition : ShareGrant → GrantState → Option ShareGrant
transition g next =
    if not (is_valid g.state) || (not (is_valid next) || g.revision == max_uint64)
    then none
    else if not (allowed g.state next)
    then none
    else some (record g { state = next; revision = (g.revision + 1) % 2 ^ 64 })

-- A run of transitions, stopped by the first refusal.
unfoldable pub transitions : ShareGrant → List GrantState → Option ShareGrant
transitions g [] = some g
transitions g (next ∷ rest) = elim (transition g next) [
  | none ↦ none
  | some g' ↦ transitions g' rest
]

pub record MirrorPreferences : Type 0 where
  pub alias : Text
  pub paused : Bool
  pub silent : Bool
  pub display : Text
  pub fold : ℤ
  pub metadata : Bool

pub record MirrorBinding : Type 0 where
  pub grant_id : Text
  pub address : TopicAddress
  pub preferences : MirrorPreferences
  pub keyboard_message_id : ℤ
  pub last_output : Text
  pub navigation_id : Text
  pub creating : Bool
