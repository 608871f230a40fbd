-- ===== src/Campaign/Repo.antt =====
-- storage/repositories/campaign_repo.py: the worker's moves of a target, each one guarded UPDATE, and
-- the janitor. `stamp` is the `utc_now()` that a move writes.
use turncall.Prelude.{
  ℕ, ◌+◌, String, Bool, false, not, ◌&&◌, Option, none, some, List, [], ◌∷◌, any, ltb, ◌==◌,
}
use turncall.Campaign.{
  CampaignStatus, queued, running, CampaignStatus-discrete, TargetStatus, pending, dialling,
  placing, calling, failed, TargetStatus-discrete, is_final, TargetRow, Db,
}
use turncall.Campaign.Table.{
  is_status, is_target_status, update_targets, update_campaigns, count_where, campaign_running,
}

unfoldable pub start_campaign : ℕ → ℕ → Db → Bool × Db
unfolding CampaignStatus-discrete
start_campaign campaign now =
    update_campaigns (λ c. c.id == campaign && is_status c.status queued)
      (λ c. record c { status = running; started_at = some now })

-- What each move asks of a row, and what it writes.
abbrev pub may_place : Db → ℕ → TargetRow → Bool
may_place db target t =
    t.id == target && is_target_status t.status dialling && campaign_running t.campaign_id db

abbrev pub placing_row : ℕ → ℕ → TargetRow → TargetRow
placing_row now stamp t = record t { status = placing; claimed_at = some now; updated_at = stamp }

unfoldable pub begin_placing : ℕ → ℕ → ℕ → Db → Bool × Db
unfolding campaign_running TargetStatus-discrete
begin_placing target now stamp db = update_targets (may_place db target) (placing_row now stamp) db

-- `_move`: the row of that id, if its status is one of `frm`.
abbrev pub may_move : ℕ → List TargetStatus → TargetRow → Bool
may_move target frm t = t.id == target && any (is_target_status t.status) frm

unfoldable pub move : ℕ → List TargetStatus → (TargetRow → TargetRow) → Db → Bool × Db
unfolding TargetStatus-discrete
move target frm values = update_targets (may_move target frm) values

abbrev pub dialled_row : ℕ → ℕ → TargetRow → TargetRow
dialled_row call stamp t = record t {
  status = calling;
  call_id = some call;
  attempts = t.attempts + 1;
  ended_reason = none;
  claimed_at = none;
  updated_at = stamp;
}

unfoldable pub record_dial : ℕ → ℕ → ℕ → Db → Bool × Db
unfolding move
record_dial target call stamp = move target (placing ∷ []) (dialled_row call stamp)

abbrev pub deferred_row : ℕ → ℕ → TargetRow → TargetRow
deferred_row until stamp t = record t {
  status = pending;
  next_attempt_at = some until;
  claimed_at = none;
  updated_at = stamp;
}

unfoldable pub defer : ℕ → ℕ → ℕ → Db → Bool × Db
unfolding move
defer target until stamp = move target (dialling ∷ []) (deferred_row until stamp)

abbrev pub unclaimed_row : ℕ → TargetRow → TargetRow
unclaimed_row stamp t = record t { status = pending; claimed_at = none; updated_at = stamp }

unfoldable pub unclaim : ℕ → ℕ → Db → Bool × Db
unfolding move
unclaim target stamp = move target (dialling ∷ []) (unclaimed_row stamp)

abbrev pub retried_row : String → ℕ → ℕ → TargetRow → TargetRow
retried_row reason at stamp t = record t {
  status = pending;
  ended_reason = some reason;
  next_attempt_at = some at;
  updated_at = stamp;
}

unfoldable pub retry_target : ℕ → String → ℕ → ℕ → Db → Bool × Db
unfolding move
retry_target target reason at stamp = move target (calling ∷ []) (retried_row reason at stamp)

abbrev pub finished_row : TargetStatus → Option String → Option String → ℕ → TargetRow → TargetRow
finished_row status reason error stamp t = record t {
  status = status;
  ended_reason = reason;
  error = error;
  claimed_at = none;
  updated_at = stamp;
}

abbrev pub unfinished : List TargetStatus
unfinished = dialling ∷ placing ∷ calling ∷ []

unfoldable pub finish_target : ℕ → TargetStatus → Option String → Option String → ℕ → Db → Bool × Db
unfolding move
finish_target target status reason error stamp =
    move target unfinished (finished_row status reason error stamp)

unfoldable pub has_open_target : ℕ → Db → Bool
unfolding is_final
has_open_target campaign db =
    any (λ t. t.campaign_id == campaign && not (is_final t.status)) db.targets

unfoldable pub complete_if_done : ℕ → ℕ → Db → Bool × Db
unfolding has_open_target CampaignStatus-discrete
complete_if_done campaign now db =
    update_campaigns
      (λ c. c.id == campaign && is_status c.status running && not (has_open_target campaign db))
      (λ c. record c { status = CampaignStatus.completed; completed_at = some now }) db

-- `claimed_at < now - timeout`; a claim with no time is not stale. The cutoff is an instant long after
-- the epoch, so the sum says the same.
unfoldable pub is_stale : ℕ → ℕ → Option ℕ → Bool
is_stale now timeout none = false
is_stale now timeout (some at) = ltb (at + timeout) now

abbrev pub dial_outcome_unknown : String
dial_outcome_unknown =
    "dial_outcome_unknown: the worker stopped while asking the carrier to place this call, so it may have rung; not dialled again"

-- The janitor: its two UPDATEs, one after the other.
abbrev pub is_dead : TargetStatus → ℕ → ℕ → TargetRow → Bool
unfolding is_stale TargetStatus-discrete
is_dead status now timeout t = is_target_status t.status status && is_stale now timeout t.claimed_at

unfoldable pub repend_stale : ℕ → ℕ → ℕ → Db → ℕ × Db
unfolding is_stale TargetStatus-discrete
repend_stale now timeout stamp db = (
  count_where (is_dead dialling now timeout) db.targets,
  (update_targets (is_dead dialling now timeout) (unclaimed_row stamp) db).1,
)

abbrev pub unknown_row : ℕ → TargetRow → TargetRow
unknown_row stamp t = record t {
  status = failed;
  error = some dial_outcome_unknown;
  claimed_at = none;
  updated_at = stamp;
}

unfoldable pub fail_stale : ℕ → ℕ → ℕ → Db → ℕ × Db
unfolding is_stale TargetStatus-discrete
fail_stale now timeout stamp db = (
  count_where (is_dead placing now timeout) db.targets,
  (update_targets (is_dead placing now timeout) (unknown_row stamp) db).1,
)

-- How many rows went back to `pending`, how many ended `failed`, and the rows after both.
unfoldable pub reclaim_abandoned : ℕ → ℕ → ℕ → Db → ℕ × ℕ × Db
unfolding repend_stale fail_stale
reclaim_abandoned now timeout stamp db =
    let (repended, db₁) = repend_stale now timeout stamp db in
    let (unknown, db₂) = fail_stale now timeout stamp db₁ in (repended, unknown, db₂)
