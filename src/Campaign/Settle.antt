-- ===== src/Campaign/Settle.antt =====
-- campaigns/dialer.py, `_settle`: the targets whose calls have ended go back to `pending` for a retry, or
-- end. The calls' rows are given by two functions: whether a call's row is there, and the reason that
-- the call's view gives it, none while it is live.
pub mod Left
mod Examples
use turncall.Prelude.{
  ℕ, String, Bool, true, false, ◌&&◌, Option, none, some, List, [], ◌∷◌, filter, ◌==◌,
  if◌then◌else◌,
}
use turncall.Campaign.{TargetStatus, calling, TargetStatus-discrete, CampaignRow, TargetRow, Db}
use turncall.Campaign.Table.{is_target_status}
use turncall.Campaign.Repo.{retry_target, finish_target}
use turncall.Campaign.Schedule.{Zone, retry_at}

pub record Calls : Type 0 where
  pub is_there : ℕ → Bool
  pub ended_reason : ℕ → Option String

abbrev has_row : Calls → Option ℕ → Bool
has_row calls none = false
has_row calls (some call) = calls.is_there call

-- `calling_targets`: an inner join with the calls.
unfoldable pub calling_targets : ℕ → Calls → Db → List TargetRow
unfolding TargetStatus-discrete
calling_targets campaign calls db =
    filter
      (λ t.
        t.campaign_id == campaign && is_target_status t.status calling && has_row calls t.call_id)
      db.targets

abbrev pub reason_of : Calls → Option ℕ → Option String
reason_of calls none = none
reason_of calls (some call) = calls.ended_reason call

-- The two moves; none is the exception of a window that never opens.
unfoldable pub settle_at : ℕ → String → Option (Option ℕ) → ℕ → Db → Option Db
unfolding retry_target finish_target
settle_at target reason none stamp db =
    some (finish_target target TargetStatus.completed (some reason) none stamp db).1
settle_at target reason (some none) stamp db = none
settle_at target reason (some (some at)) stamp db = some (retry_target target reason at stamp db).1

module _ (zones : String → Zone) (campaign : CampaignRow) (calls : Calls) (now stamp : ℕ) where
  unfoldable pub settle_target : TargetRow → Option String → Db → Option Db
  unfolding settle_at retry_at
  settle_target t none db = some db
  settle_target t (some reason) db =
      settle_at t.id reason
        (retry_at campaign.retry_policy (some reason) t.attempts now (zones t.timezone)
          campaign.calling_window)
        stamp db

  unfoldable pub settle_all : List TargetRow → Db → Option Db
  unfolding settle_target
  settle_all [] db = some db
  settle_all (t ∷ rest) db = elim (settle_target t (reason_of calls t.call_id) db) [
    | none ↦ none
    | some db' ↦ settle_all rest db'
  ]

  -- `_settle`; nothing is committed where it raises.
  unfoldable pub settle : Db → Option Db
  unfolding settle_all calling_targets
  settle db = settle_all (calling_targets campaign.id calls db) db
