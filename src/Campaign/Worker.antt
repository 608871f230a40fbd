-- ===== src/Campaign/Worker.antt =====
-- The moves that workers, the janitor and the API make on the rows, in any order: each is one committed
-- step, so a history of a campaign is a list of them. (Creating a campaign adds rows of new ids.)
pub mod Rows
pub mod Picked
pub mod Placing
pub mod Stopped
pub mod Cancel
pub mod Final
use turncall.Prelude.{ℕ, String, Bool, Option, none, some, List, [], ◌∷◌}
use turncall.Campaign.{TargetStatus, suppressed, failed, Db}
use turncall.Campaign.Claims.{claim_next_target}
use turncall.Campaign.Repo.{
  start_campaign, begin_placing, record_dial, defer, unclaim, retry_target, finish_target,
  complete_if_done, reclaim_abandoned,
}
use turncall.Campaign.Control.{pause_campaign, resume_campaign, cancel_campaign}

-- The statuses that the dialler passes to `finish_target`.
pub data Ending : Type 0 where
  ends_completed ends_suppressed ends_failed : Ending

abbrev pub ending_status : Ending → TargetStatus
ending_status ends_completed = TargetStatus.completed
ending_status ends_suppressed = suppressed
ending_status ends_failed = failed

pub data Op : Type 0 where
  start : (campaign now : ℕ) → Op
  claim : (campaign : ℕ) (locked : ℕ → Bool) (now stamp : ℕ) → Op
  place : (target now stamp : ℕ) → Op
  dialled : (target call stamp : ℕ) → Op
  put_off : (target until stamp : ℕ) → Op
  give_back : (target stamp : ℕ) → Op
  retry : (target : ℕ) (reason : String) (at stamp : ℕ) → Op
  finish : (target : ℕ) → Ending → (reason error : Option String) (stamp : ℕ) → Op
  complete : (campaign now : ℕ) → Op
  reclaim : (now timeout stamp : ℕ) → Op
  pause : (campaign : ℕ) → Op
  resume : (campaign : ℕ) → Op
  cancel : (campaign stamp : ℕ) → Op

unfoldable pub apply : Op → Db → Db
unfolding claim_next_target start_campaign begin_placing record_dial defer unclaim retry_target
    finish_target complete_if_done reclaim_abandoned pause_campaign resume_campaign cancel_campaign
apply (start c now) db = (start_campaign c now db).1
apply (claim c locked now stamp) db = (claim_next_target c locked now stamp db).1
apply (place t now stamp) db = (begin_placing t now stamp db).1
apply (dialled t call stamp) db = (record_dial t call stamp db).1
apply (put_off t until stamp) db = (defer t until stamp db).1
apply (give_back t stamp) db = (unclaim t stamp db).1
apply (retry t reason at stamp) db = (retry_target t reason at stamp db).1
apply (finish t e reason error stamp) db =
    (finish_target t (ending_status e) reason error stamp db).1
apply (complete c now) db = (complete_if_done c now db).1
apply (reclaim now timeout stamp) db = (reclaim_abandoned now timeout stamp db).2
apply (pause c) db = (pause_campaign c db).1
apply (resume c) db = (resume_campaign c db).1
apply (cancel c stamp) db = (cancel_campaign c stamp db).1

unfoldable pub apply_all : List Op → Db → Db
apply_all [] db = db
apply_all (op ∷ ops) db = apply_all ops (apply op db)
