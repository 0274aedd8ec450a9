-- ===== src/Domain/Sharing/State.antt =====
-- The sharing state of internal/domain/sharing.go, and `BotIdentity` of internal/domain/setup.go.
-- Every map is made, never nil.
use herdr_telegram_agents.Common.{
  ℕ, Bool, true, false, not, ◌&&◌, ◌||◌, Option, none, some, List, [], ◌∷◌, nat_eq, ◌==◌, leb,
  if◌then◌else◌, length, elem, all,
}
use herdr_telegram_agents.Common.Text.{Text, text_eq}
use herdr_telegram_agents.Common.Int.{ℤ, pos, int_eq, is_nonpos, is_neg}
use herdr_telegram_agents.Common.GoMap.{GoMap, lookup, has}
use herdr_telegram_agents.Encoding.Utf8.{runes}
use herdr_telegram_agents.Domain.Key.{is_empty}
use herdr_telegram_agents.Domain.Mapping.{Time}
use herdr_telegram_agents.Domain.Sharing.{
  TopicAddress, address_eq, ShareGrant, MirrorBinding, grant_state_eq, active, is_valid, role_eq,
  read, control,
}

pub record MessageAddress : Type 0 where
  pub chat_id : ℤ
  pub message_id : ℤ

pub record Recipient : Type 0 where
  pub id : ℤ
  pub chat_id : ℤ
  pub name : Text
  pub username : Text
  pub first_seen : Time
  pub last_seen : Time
  pub unavailable : Bool
  pub hidden : Bool

pub record SharingState : Type 0 where
  pub version : ℤ
  pub bot_id : ℤ
  pub revision : ℕ  -- uint64
  pub update_id : ℤ
  pub recipients : GoMap ℤ Recipient
  pub grants : GoMap Text ShareGrant
  pub mirrors : GoMap Text MirrorBinding
  pub service_topics : GoMap ℤ TopicAddress
  pub dashboards : GoMap ℤ MessageAddress

abbrev pub sharing_version : ℤ
sharing_version = pos 1

abbrev pub max_recipients : ℕ
max_recipients = 10000

abbrev pub max_share_grants : ℕ
max_share_grants = 2000

abbrev pub max_recipient_name : ℕ
max_recipient_name = 128

abbrev pub max_recipient_username : ℕ
max_recipient_username = 64

unfoldable pub new_sharing_state : SharingState
new_sharing_state = record {
  version = sharing_version;
  bot_id = pos 0;
  revision = 0;
  update_id = pos 0;
  recipients = [];
  grants = [];
  mirrors = [];
  service_topics = [];
  dashboards = [];
}

pub record BotIdentity : Type 0 where
  pub id : ℤ
  pub username : Text
  pub has_topics_enabled : Bool

-- BotIdentity.PrivateTopicsReady
abbrev pub private_topics_ready : BotIdentity → Bool
private_topics_ready b = not (is_nonpos b.id) && b.has_topics_enabled

-- SharingState.MatchesBot
abbrev pub matches_bot : SharingState → BotIdentity → Bool
matches_bot s b = not (is_nonpos b.id) && (s.bot_id == pos 0 || s.bot_id == b.id)

-- The tests of `Validate`, one for each of its loops.
recipient_ok : ℤ × Recipient → Bool
recipient_ok (id, r) =
    not (is_nonpos id)
    && r.id == id
    && r.chat_id == id
    && leb (length (runes r.name)) max_recipient_name
    && leb (length (runes r.username)) max_recipient_username
    && not (r.first_seen == 0)
    && leb r.first_seen r.last_seen

mirror_settled : Option MirrorBinding → Bool
mirror_settled none = false
mirror_settled (some m) = not m.creating && not (is_nonpos m.address.thread_id)

grant_ok : SharingState → Text × ShareGrant → Bool
grant_ok s (id, g) =
    not (s.bot_id == pos 0)
    && not (is_empty id)
    && leb (length id) 64
    && id == g.id
    && not (g.revision == 0)
    && is_valid g.state
    && (g.role == read || g.role == control)
    && not (is_empty g.key.pane_id)
    && not (is_empty g.key.terminal_id)
    && has g.recipient_id s.recipients
    && (not (g.state == active) || mirror_settled (lookup id s.mirrors))

mirror_owned : Option ShareGrant → Text → MirrorBinding → Bool
mirror_owned none id m = false
mirror_owned (some g) id m =
    m.grant_id == id
    && m.address.chat_id == g.recipient_id
    && not (is_neg m.address.thread_id)
    && (not (m.address.thread_id == pos 0) || m.creating)

-- The addresses seen so far, or `none` for a refusal.
mirrors_ok :
    SharingState → GoMap Text MirrorBinding → List TopicAddress → Option (List TopicAddress)
mirrors_ok s [] seen = some seen
mirrors_ok s ((id, m) ∷ ms) seen =
    if not (mirror_owned (lookup id s.grants) id m)
    then none
    else elim (is_nonpos m.address.thread_id) [
      | true ↦ mirrors_ok s ms seen
      | false ↦ if elem m.address seen then none else mirrors_ok s ms (m.address ∷ seen)
    ]

topics_ok : SharingState → GoMap ℤ TopicAddress → List TopicAddress → Bool
topics_ok s [] seen = true
topics_ok s ((id, a) ∷ topics) seen =
    has id s.recipients
    && a.chat_id == id
    && not (is_neg a.thread_id)
    && not (elem a seen)
    && topics_ok s topics (a ∷ seen)

dashboard_ok : SharingState → ℤ × MessageAddress → Bool
dashboard_ok s (id, a) = has id s.service_topics && a.chat_id == id && not (is_nonpos a.message_id)

counts_ok : SharingState → Bool
counts_ok s =
    s.version == sharing_version
    && not (is_neg s.bot_id)
    && leb (length s.recipients) max_recipients
    && leb (length s.grants) max_share_grants
    && leb (length s.mirrors) max_share_grants

addresses_ok : SharingState → Bool
addresses_ok s = elim (mirrors_ok s s.mirrors []) [
  | none ↦ false
  | some seen ↦ topics_ok s s.service_topics seen
]

-- SharingState.Validate
unfoldable pub validate : SharingState → Bool
unfolding counts_ok recipient_ok grant_ok addresses_ok dashboard_ok mirror_settled mirrors_ok
    mirror_owned topics_ok
validate s =
    counts_ok s
    && all recipient_ok s.recipients
    && all (grant_ok s) s.grants
    && addresses_ok s
    && all (dashboard_ok s) s.dashboards
