-- ===== src/Domain/Events.antt =====
-- internal/domain/events.go: the events of the Herdr socket.
use herdr_telegram_agents.Common.{Bool, Option}
use herdr_telegram_agents.Common.Text.{Text}
use herdr_telegram_agents.Domain.Status.{Status}
use herdr_telegram_agents.Domain.Agent.{Agent}

-- `other` is any other string of the wire.
pub data HerdrEventKind : Type 0 where
  pane_agent_detected pane_agent_status_changed pane_closed pane_exited : HerdrEventKind
  pane_updated tab_renamed workspace_renamed stream_reset : HerdrEventKind
  other : Text → HerdrEventKind

pub record HerdrEvent : Type 0 where
  pub kind : HerdrEventKind
  pub pane_id : Text
  pub workspace_id : Text
  pub tab_id : Text
  pub agent : Option Agent
  pub label : Text
  pub final_status : Option Status
  pub released : Bool
