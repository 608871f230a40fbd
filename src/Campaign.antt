-- ===== src/Campaign.antt =====
-- Campaigns of outbound calls: the rows of storage/models.py that the campaign code keeps its state in,
-- with the statuses of domain/enums.py. Ids go by number and instants by seconds.
pub mod Schedule
pub mod Table
pub mod Claims
pub mod Repo
pub mod Control
pub mod Worker
pub mod Dialer
pub mod Lifecycle
pub mod Settle
pub mod Pass
mod Examples
use turncall.Prelude.{ℕ, String, Bool, true, false, Option, List, is_yes, any}
use turncall.Routing.{Weighted}

pub data CampaignStatus : Type 0 where
  queued running paused completed cancelled : CampaignStatus

pub CampaignStatus-discrete : Discrete CampaignStatus
CampaignStatus-discrete = hlevel

pub data TargetStatus : Type 0 where
  pending dialling placing calling : TargetStatus
  completed suppressed failed cancelled : TargetStatus

pub TargetStatus-discrete : Discrete TargetStatus
TargetStatus-discrete = hlevel

unfoldable pub is_final : TargetStatus → Bool
is_final TargetStatus.completed = true
is_final suppressed = true
is_final failed = true
is_final TargetStatus.cancelled = true
is_final _ = false

-- Local hours [start, end) on the given ISO weekdays (1 = Monday), in seconds of the day.
pub record CallingWindow : Type 0 where
  pub start : ℕ
  pub end : ℕ
  pub days : List ℕ

-- One entry of a retry policy, for one reason.
pub record RetryRule : Type 0 where
  pub max_attempts : ℕ
  pub spacing_seconds : ℕ

pub record CampaignRow : Type 0 where
  pub id : ℕ
  pub project_id : ℕ
  pub name : String
  pub agent_id : Option ℕ
  pub agent_weights : Option (List Weighted)
  pub from_number_id : ℕ
  pub timezone : Option String
  pub calling_window : Option CallingWindow
  pub retry_policy : List (String × RetryRule)
  pub status : CampaignStatus
  pub started_at : Option ℕ
  pub completed_at : Option ℕ

pub record TargetRow : Type 0 where
  pub id : ℕ
  pub campaign_id : ℕ
  pub position : ℕ
  pub e164_number : String
  pub variables : List (String × String)
  pub timezone : String
  pub agent_id : Option ℕ
  pub status : TargetStatus
  pub attempts : ℕ
  pub next_attempt_at : Option ℕ
  pub claimed_at : Option ℕ
  pub call_id : Option ℕ
  pub ended_reason : Option String
  pub error : Option String
  pub updated_at : ℕ

pub record Db : Type 0 where
  pub campaigns : List CampaignRow
  pub targets : List TargetRow
