-- ===== src/Campaign/Claims.antt =====
-- storage/repositories/campaign_repo.py: creating a campaign's targets and claiming the next one to dial.
use turncall.Prelude.{
  ℕ, ◌+◌, String, Bool, true, false, not, ◌&&◌, ◌||◌, Option, none, some, List, [], ◌∷◌, ◌++◌,
  filter, ltb, leb, ◌==◌, if◌then◌else◌,
}
use turncall.Campaign.{queued, pending, dialling, TargetStatus-discrete, CampaignRow, TargetRow, Db}
use turncall.Campaign.Table.{is_target_status, update_targets, campaign_running}

-- What a created campaign's targets are given.
pub record NewTarget : Type 0 where
  pub id : ℕ
  pub number : String
  pub variables : List (String × String)
  pub timezone : String
  pub agent_id : Option ℕ

unfoldable pub new_targets : ℕ → ℕ → ℕ → List NewTarget → List TargetRow
new_targets campaign stamp position [] = []
new_targets campaign stamp position (t ∷ rest) =
    record {
      id = t.id;
      campaign_id = campaign;
      position = position;
      e164_number = t.number;
      variables = t.variables;
      timezone = t.timezone;
      agent_id = t.agent_id;
      status = pending;
      attempts = 0;
      next_attempt_at = none;
      claimed_at = none;
      call_id = none;
      ended_reason = none;
      error = none;
      updated_at = stamp;
    }
    ∷ new_targets campaign stamp (position + 1) rest

unfoldable pub create_campaign : ℕ → CampaignRow → List NewTarget → Db → Db
unfolding new_targets
create_campaign stamp row targets db = record {
  campaigns = db.campaigns ++ record row { status = queued } ∷ [];
  targets = db.targets ++ new_targets row.id stamp 0 targets;
}

-- `ORDER BY ... LIMIT 1`: the first of the rows that no other comes before.
unfoldable pub better : (TargetRow → TargetRow → Bool) → TargetRow → Option TargetRow → TargetRow
better before t none = t
better before t (some u) = if before u t then u else t

unfoldable pub first_by : (TargetRow → TargetRow → Bool) → List TargetRow → Option TargetRow
unfolding better
first_by before [] = none
first_by before (t ∷ rest) = some (better before t (first_by before rest))

-- By `next_attempt_at`, then by `position`; and by `position`.
unfoldable pub attempt_before : ℕ → ℕ → Option ℕ → Option ℕ → Bool
attempt_before a b none _ = false
attempt_before a b (some x) none = false
attempt_before a b (some x) (some y) = ltb x y || x == y && ltb a b

unfoldable pub sooner : TargetRow → TargetRow → Bool
unfolding attempt_before
sooner a b = attempt_before a.position b.position a.next_attempt_at b.next_attempt_at

unfoldable pub earlier_in_list : TargetRow → TargetRow → Bool
earlier_in_list a b = ltb a.position b.position

unfoldable pub due_by : ℕ → Option ℕ → Bool
due_by now none = false
due_by now (some at) = leb at now

abbrev pub never_set : Option ℕ → Bool
never_set none = true
never_set (some at) = false

-- `_first_pending`; `locked` holds of the rows that another transaction has locked, which are skipped.
unfoldable pub first_pending :
    ℕ → (ℕ → Bool) → (TargetRow → Bool) → (TargetRow → TargetRow → Bool) → Db → Option TargetRow
unfolding first_by campaign_running TargetStatus-discrete
first_pending campaign locked where_ before db = first_by before (
    filter
      (λ t.
        t.campaign_id == campaign
        && campaign_running campaign db
        && is_target_status t.status pending
        && where_ t
        && not (locked t.id))
      db.targets)

abbrev pub coalesce {ℓ} : {A : Type ℓ} → Option A → Option A → Option A
coalesce none b = b
coalesce (some a) b = some a

-- The target that the claim takes: the earliest one due, else the next one never dialled.
unfoldable pub next_target : ℕ → (ℕ → Bool) → ℕ → Db → Option TargetRow
unfolding first_pending due_by sooner earlier_in_list
next_target campaign locked now db =
    coalesce (first_pending campaign locked (λ t. due_by now t.next_attempt_at) sooner db)
      (first_pending campaign locked (λ t. never_set t.next_attempt_at) earlier_in_list db)

-- The UPDATE sets no `updated_at`: the column's `onupdate` does.
abbrev pub claimed : ℕ → ℕ → TargetRow → TargetRow
claimed now stamp t = record t { status = dialling; claimed_at = some now; updated_at = stamp }

-- The UPDATE of `claim_statement`, and the row it returns.
unfoldable pub claim_row : ℕ → ℕ → Option TargetRow → Db → Option TargetRow × Db
claim_row now stamp none db = (none, db)
claim_row now stamp (some t) db =
    (some (claimed now stamp t), (update_targets (λ u. u.id == t.id) (claimed now stamp) db).1)

unfoldable pub claim_next_target : ℕ → (ℕ → Bool) → ℕ → ℕ → Db → Option TargetRow × Db
unfolding next_target claim_row
claim_next_target campaign locked now stamp db =
    claim_row now stamp (next_target campaign locked now db) db
