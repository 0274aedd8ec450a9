-- ===== src/App/Sharing/Contacts.antt =====
-- internal/app/sharing.go: the methods on recipients, service topics and dashboards.
use herdr_telegram_agents.Common.{
  Bool, true, false, not, ◌&&◌, ◌||◌, Option, none, some, ◌==◌, if◌then◌else◌,
}
use herdr_telegram_agents.Common.Int.{ℤ, pos, int_eq, is_neg, int_lt}
use herdr_telegram_agents.Common.GoMap.{lookup, has, insert, delete}
use herdr_telegram_agents.Domain.Mapping.{Time}
use herdr_telegram_agents.Domain.Sharing.{TopicAddress}
use herdr_telegram_agents.Domain.Sharing.State.{Recipient, MessageAddress}
use herdr_telegram_agents.App.Sharing.{
  Sharing, Store, SharingError, unavailable, recipient_not_found, invalid_service_topic,
  no_repair_needed, save_locked, put_recipient,
}

-- Two flags are equal.
same_flag : Bool → Bool → Bool
same_flag true b = b
same_flag false b = not b

-- ObserveUpdate
unfoldable pub observe_update : ℤ → Sharing → Sharing
observe_update id s =
    if not s.disabled && int_lt s.state.update_id id
    then record s { state = record s.state { update_id = id }; dirty = true }
    else s

-- Reachability
unfoldable pub reachability : Store → ℤ → Bool → Time → Sharing → Sharing × Option SharingError
unfolding same_flag
reachability store id gone now s =
    if s.disabled then (s, some unavailable) else elim (lookup id s.state.recipients) [
      | none ↦ (s, none)
      | some r ↦
          if same_flag r.unavailable gone
          then (s, none)
          else save_locked store now (put_recipient id (record r { unavailable = gone }) s)
    ]

-- What a failed save of `HideRecipient` leaves.
abbrev pub hidden_or_back :
    ℤ → Recipient → Sharing × Option SharingError → Sharing × Option SharingError
hidden_or_back id old (s, none) = (s, none)
hidden_or_back id old (s, some e) =
    (record s { state = record s.state { recipients = insert id old s.state.recipients } }, some e)

-- HideRecipient
unfoldable pub hide_recipient : Store → ℤ → Bool → Time → Sharing → Sharing × Option SharingError
hide_recipient store id hidden now s =
    if s.disabled then (s, some unavailable) else elim (lookup id s.state.recipients) [
      | none ↦ (s, some recipient_not_found)
      | some r ↦
          hidden_or_back id r
            (save_locked store now (put_recipient id (record r { hidden = hidden }) s))
    ]

-- ServiceTopic
unfoldable pub service_topic :
    Store → ℤ → TopicAddress → Time → Sharing → Sharing × Option SharingError
service_topic store recipient address now s =
    if s.disabled || not (s.bot_id == s.state.bot_id)
    then (s, some unavailable)
    else if not (has recipient s.state.recipients)
        || not (address.chat_id == recipient)
        || is_neg address.thread_id
    then (s, some invalid_service_topic)
    else let topics = insert recipient address s.state.service_topics in
      save_locked store now
        (record s { state = record s.state { service_topics = topics }; dirty = true })

-- Dashboard
unfoldable pub dashboard :
    Store → ℤ → MessageAddress → Time → Sharing → Sharing × Option SharingError
dashboard store recipient address now s =
    if s.disabled || not (s.bot_id == s.state.bot_id)
    then (s, some unavailable)
    else let boards =
        if address.message_id == pos 0
        then delete recipient s.state.dashboards
        else insert recipient address s.state.dashboards in
      save_locked store now
        (record s { state = record s.state { dashboards = boards }; dirty = true })

-- RepairService
unfoldable pub repair_service : Store → ℤ → Time → Sharing → Sharing × Option SharingError
repair_service store recipient now s =
    if s.disabled
    then (s, some no_repair_needed)
    else elim (lookup recipient s.state.service_topics) [
      | none ↦ (s, some no_repair_needed)
      | some a ↦
          if not (a.thread_id == pos 0)
          then (s, some no_repair_needed)
          else save_locked store now (record s {
            state = record s.state {
              service_topics = delete recipient s.state.service_topics;
              dashboards = delete recipient s.state.dashboards;
            };
            dirty = true;
          })
    ]
