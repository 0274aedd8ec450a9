-- ===== src/App/Sharing/Dispatch.antt =====
-- internal/app/sharing.go: the admission of work, and its release. `token` is a new random id; `ended`
-- says that the caller's context is done.
use herdr_telegram_agents.Common.{
  ℕ, Bool, true, false, not, ◌||◌, Option, none, some, [], ◌∷◌, nat_eq, ◌==◌, if◌then◌else◌,
}
use herdr_telegram_agents.Common.Text.{Text, text_eq}
use herdr_telegram_agents.Common.Int.{pos, int_eq}
use herdr_telegram_agents.Common.GoMap.{lookup, insert, delete}
use herdr_telegram_agents.Domain.Mapping.{Time}
use herdr_telegram_agents.Domain.Key.{Key}
use herdr_telegram_agents.Domain.Agent.{Agent}
use herdr_telegram_agents.Domain.Sharing.{ShareGrant}
use herdr_telegram_agents.Domain.Access.{
  ShareAction, ShareOrigin, AccessDecision, authorize_share, deny, inactive,
}
use herdr_telegram_agents.App.Sharing.{Sharing, Call, calls_of}
use herdr_telegram_agents.App.Sharing.Grants.{AgentLookup, zero_key, is_gone}
use herdr_telegram_agents.App.Sharing.Mirrors.{mirror_of, no_address}

abbrev pub admit : Text → Text → Call → Sharing → Sharing
admit id token c s = record s { inflight = insert id (insert token c (calls_of s id)) s.inflight }

-- The decision of `Begin` on a grant that is stored.
abbrev pub decision_on :
    (Key → Option Agent) → ShareGrant → Sharing → ShareOrigin → ShareAction → Time → AccessDecision
decision_on agent g s o action now = elim (agent g.key) [
  | none ↦ deny inactive
  | some a ↦
      if is_gone (some a)
      then deny inactive
      else authorize_share g (mirror_of s g.id) o a.key action now
]

abbrev pub begin_with :
    (Key → Option Agent)
    → Text
    → ShareOrigin
    → ShareAction
    → Time
    → Sharing
    → Sharing × AccessDecision
begin_with agent token o action now s = elim (lookup o.grant_id s.state.grants) [
  | none ↦ (s, deny inactive)
  | some g ↦
      let d = decision_on agent g s o action now in
      if not d.is_allowed
      then (s, d)
      else (admit g.id token (record { is_dispatch = true; admitted = g.revision }) s, d)
]

-- Begin
unfoldable pub begin :
    AgentLookup
    → Bool
    → Text
    → ShareOrigin
    → ShareAction
    → Time
    → Sharing
    → Sharing × AccessDecision
begin none ended token o action now s = (s, deny inactive)
begin (some agent) ended token o action now s =
    if s.disabled || ended || not (s.bot_id == s.state.bot_id)
    then (s, deny inactive)
    else begin_with agent token o action now s

-- BindingGuard, when the guard is called: whether the call may go on.
unfoldable pub binding_guard : Bool → Text → Text → ℕ → Sharing → Sharing × Bool
binding_guard ended token id revision s = elim (lookup id s.state.grants) [
  | none ↦ (s, false)
  | some g ↦
      if s.disabled || not (g.revision == revision) || not (s.bot_id == s.state.bot_id) || ended
      then (s, false)
      else (admit id token (record { is_dispatch = false; admitted = g.revision }) s, true)
]

-- The release function of either.
unfoldable pub release : Text → Text → Sharing → Sharing
release id token s =
    let s1 = record s { cancelled = token ∷ s.cancelled } in
    elim (lookup id s.inflight) [
      | none ↦ s1
      | some calls ↦ record s1 { inflight = insert id (delete token calls) s.inflight }
    ]

abbrev no_origin : ShareOrigin
no_origin = record {
  actor_id = pos 0;
  address = no_address;
  message_id = pos 0;
  grant_id = [];
  revision = 0;
  key = zero_key;
  process_id = [];
}

-- Origin
unfoldable pub origin : Sharing → Text → ShareOrigin × Bool
origin s id = elim (lookup id s.state.grants) [
  | none ↦ (no_origin, false)
  | some g ↦ if s.disabled then (no_origin, false) else (
    record {
      actor_id = g.recipient_id;
      address = (mirror_of s id).address;
      message_id = pos 0;
      grant_id = id;
      revision = g.revision;
      key = g.key;
      process_id = s.process_id;
    },
    true,
  )
]
