-- ===== src/Campaign/Control.antt =====
-- storage/repositories/campaign_repo.py: pause, resume and cancel.
use turncall.Prelude.{ℕ, Bool, ◌&&◌, Option, none, some, List, [], ◌∷◌, any, ◌==◌, if◌then◌else◌}
use turncall.Campaign.{
  CampaignStatus, queued, running, paused, CampaignStatus-discrete, TargetStatus, pending, dialling,
  TargetStatus-discrete, CampaignRow, TargetRow, Db,
}
use turncall.Campaign.Table.{is_status, is_target_status, update_targets, update_campaigns}

-- `_set_campaign_status`: the campaign of that id, if its status is one of `frm`.
unfoldable pub set_campaign_status :
    ℕ → List CampaignStatus → (CampaignRow → CampaignStatus) → Db → Bool × Db
unfolding CampaignStatus-discrete
set_campaign_status campaign frm status =
    update_campaigns (λ c. c.id == campaign && any (is_status c.status) frm)
      (λ c. record c { status = status c })

unfoldable pub pause_campaign : ℕ → Db → Bool × Db
unfolding set_campaign_status
pause_campaign campaign = set_campaign_status campaign (queued ∷ running ∷ []) (λ _. paused)

-- Where a paused campaign was: `queued` if it never started.
unfoldable pub resumed_status : Option ℕ → CampaignStatus
resumed_status none = queued
resumed_status (some at) = running

unfoldable pub resume_campaign : ℕ → Db → Bool × Db
unfolding set_campaign_status resumed_status
resume_campaign campaign =
    set_campaign_status campaign (paused ∷ []) (λ c. resumed_status c.started_at)

-- Every target of the campaign that is not yet at the carrier.
abbrev pub may_cancel : ℕ → TargetRow → Bool
may_cancel campaign t =
    t.campaign_id == campaign && any (is_target_status t.status) (pending ∷ dialling ∷ [])

abbrev pub cancelled_row : ℕ → TargetRow → TargetRow
cancelled_row stamp t = record t {
  status = TargetStatus.cancelled;
  claimed_at = none;
  updated_at = stamp;
}

unfoldable pub cancel_targets : ℕ → ℕ → Db → Db
unfolding TargetStatus-discrete
cancel_targets campaign stamp db = (update_targets (may_cancel campaign) (cancelled_row stamp) db).1

unfoldable pub cancel_campaign : ℕ → ℕ → Db → Bool × Db
unfolding set_campaign_status cancel_targets
cancel_campaign campaign stamp db =
    let (moved, db') =
      set_campaign_status campaign (queued ∷ running ∷ paused ∷ []) (λ _. CampaignStatus.cancelled)
        db in
    (moved, if moved then cancel_targets campaign stamp db' else db')
