-- ===== src/Tests/Data.antt =====
-- The values that the runs share.
use herdr_telegram_agents.Common.{ℕ, Bool, true, false, [], ◌∷◌}
use herdr_telegram_agents.Common.Text.{codes}
use herdr_telegram_agents.Common.Int.{pos}
use herdr_telegram_agents.Domain.Status.{Status, working, exited, idle}
use herdr_telegram_agents.Domain.Key.{Key}
use herdr_telegram_agents.Domain.Agent.{Agent, SessionTuple}
use herdr_telegram_agents.Domain.Mapping.{TopicEntry, Mapping, Topic}

abbrev pub key_one : Key
key_one = record { pane_id = codes "p1"; terminal_id = codes "t1"; session_digest = [] }

abbrev pub key_two : Key
key_two = record { pane_id = codes "p2"; terminal_id = codes "t2"; session_digest = [] }

abbrev pub claude : Agent
claude = record {
  key = key_one;
  workspace_id = codes "w1";
  workspace_label = codes "shop";
  tab_id = codes "1";
  tab_label = codes "api";
  kind = codes "claude";
  name = [];
  title = [];
  status = working;
  revision = 1;
  state_change_seq = 1;
  focused = false;
  cwd = codes "/srv";
}

abbrev pub entry_at : ℕ → Status → Bool → ℕ → TopicEntry
entry_at thread status closed at = record {
  thread_id = pos thread;
  name = codes "shop";
  status = status;
  closed = closed;
  muted = false;
  cwd = codes "/srv";
  agent_kind = codes "claude";
  legacy_no_cwd = false;
  updated_at = at;
}

-- Two keys that claim thread 7: the second is newer.
abbrev pub shared_thread : Mapping
shared_thread = record {
  version = 2;
  chat_id = pos 1;
  topics =
      (codes "p1/t1", entry_at 7 working false 10)
      ∷ (codes "p2/t2", entry_at 7 idle false 20)
      ∷ (codes "p3/t3", entry_at 8 exited true 5)
      ∷ [];
  dashboard = pos 3;
  pending_creates = [];
  pending_dashboard = false;
}

abbrev pub new_topic : Topic
new_topic = record { thread_id = pos 9; name = []; icon_emoji_id = []; closed = false }

abbrev pub claude_session : SessionTuple
claude_session = record {
  source = codes "hook";
  agent = codes "claude";
  kind = codes "id";
  value = codes "42";
}
