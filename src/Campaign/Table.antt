-- ===== src/Campaign/Table.antt =====
-- storage/repositories/campaign_repo.py: its queries over the two tables. An UPDATE returns whether it
-- changed a row.
use turncall.Prelude.{ℕ, Bool, ◌&&◌, List, map, any, filter, ◌==◌, is_yes, if◌then◌else◌, length}
use turncall.Campaign.{
  CampaignStatus, running, CampaignStatus-discrete, TargetStatus, TargetStatus-discrete,
  CampaignRow, TargetRow, Db,
}

abbrev pub is_status : CampaignStatus → CampaignStatus → Bool
is_status a b = is_yes (CampaignStatus-discrete a b)

abbrev pub is_target_status : TargetStatus → TargetStatus → Bool
is_target_status a b = is_yes (TargetStatus-discrete a b)

-- `UPDATE ... SET ... WHERE`, and whether its rowcount is not 0.
abbrev pub update_where {ℓ} : {A : Type ℓ} → (A → Bool) → (A → A) → List A → List A
update_where p f = map (λ x. if p x then f x else x)

abbrev pub update_targets : (TargetRow → Bool) → (TargetRow → TargetRow) → Db → Bool × Db
update_targets p f db = (any p db.targets, record db { targets = update_where p f db.targets })

abbrev pub update_campaigns : (CampaignRow → Bool) → (CampaignRow → CampaignRow) → Db → Bool × Db
update_campaigns p f db =
    (any p db.campaigns, record db { campaigns = update_where p f db.campaigns })

-- How many rows an UPDATE changes.
abbrev pub count_where {ℓ} : {A : Type ℓ} → (A → Bool) → List A → ℕ
count_where p xs = length (filter p xs)

-- `_campaign_running`
unfoldable pub campaign_running : ℕ → Db → Bool
unfolding CampaignStatus-discrete
campaign_running campaign db =
    any (λ c. c.id == campaign && is_status c.status running) db.campaigns
