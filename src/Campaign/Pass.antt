-- ===== src/Campaign/Pass.antt =====
-- campaigns/dialer.py: `advance`, one campaign's share of a pass, over `_settle`, the turns of
-- `_dial_next` and the lifecycle; and `run_pass`. What each step meets is given by the step: a
-- campaign's row as the pass read it, its calls, and a turn for each dial.
pub mod Closing
mod Examples
use turncall.Prelude.{
  ℕ, String, Bool, true, false, not, ◌||◌, ◌&&◌, Option, none, some, List, [], ◌∷◌, ltb, ◌==◌, any,
  filter, if◌then◌else◌,
}
use turncall.Limits.{
  DialCheck, allowed, full_live_calls, full_calls_per_second, Redis, ProjectLimits,
}
use turncall.Campaign.{
  CampaignStatus, CampaignStatus-discrete, queued, running, paused, calling, CampaignRow, TargetRow,
  Db, TargetStatus-discrete,
}
use turncall.Campaign.Table.{is_status, is_target_status}
use turncall.Campaign.Repo.{reclaim_abandoned}
use turncall.Campaign.Schedule.{Zone}
use turncall.Campaign.Dialer.{
  Turn, World, Went, limited, none_due, never_opens, put_off_until, dialled, dial_next,
}
use turncall.Campaign.Settle.{Calls, settle}
use turncall.Campaign.Lifecycle.{Announcing, start, finish_if_done}

-- What the pass works on.
pub record Pass : Type 0 where
  pub announcing : Announcing
  pub redis : Redis

-- How an advance ends: with the wait of the limit that stopped it, if one did, in milliseconds; with an
-- exception; or not at all with the turns that it was given.
pub data Ending : Type 0 where
  waits : (retry_after_ms : Option ℕ) → Ending
  raised unfinished : Ending

abbrev pub retry_after : DialCheck → Option ℕ
retry_after (full_calls_per_second max wait) = if wait == 0 then none else some wait
retry_after (full_live_calls max) = none
retry_after allowed = none

unfoldable pub dials_more : Went → Bool
dials_more (dialled target is_placed) = true
dials_more (put_off_until target at) = true
dials_more (limited check) = false
dials_more none_due = false
dials_more never_opens = false

abbrev pub ending_of : Went → Ending
ending_of (limited check) = waits (retry_after check)
ending_of never_opens = raised
ending_of _ = waits none

abbrev world_of : Pass → World
world_of p = record { db = p.announcing.db; redis = p.redis }

abbrev with_world : Pass → World → Pass
with_world p w = record { announcing = record p.announcing { db = w.db }; redis = w.redis }

-- What an advance of one campaign meets.
pub record Meets : Type 0 where
  pub calls : Calls
  pub settled_at : ℕ
  pub stamp : ℕ
  pub started_at : ℕ
  pub finished_at : ℕ
  pub from_number : String
  pub limits : ProjectLimits
  pub default_cps : ℕ
  pub turns : List Turn

module _ (zones : String → Zone) (campaign : CampaignRow) (m : Meets) where
  -- The `while` of `advance`.
  unfoldable pub dial_all : List Turn → Pass → Ending × Pass
  unfolding dial_next dials_more
  dial_all [] p = (unfinished, p)
  dial_all (turn ∷ turns) p =
      let (went, world) =
        dial_next zones turn campaign m.from_number m.limits m.default_cps (world_of p) in
      let more = dial_all turns (with_world p world) in
      if dials_more went then more else (ending_of went, with_world p world)

  -- What follows the dials.
  unfoldable pub closed : Ending × Pass → Ending × Pass
  unfolding finish_if_done
  closed (waits wait, p) = (
    waits wait,
    record p { announcing = (finish_if_done campaign.id m.finished_at p.announcing).1 },
  )
  closed (raised, p) = (raised, p)
  closed (unfinished, p) = (unfinished, p)

  unfoldable pub begun : Pass → Pass
  unfolding start
  begun p =
      if is_status campaign.status queued
      then record p { announcing = (start campaign.id m.started_at p.announcing).1 }
      else p

  unfoldable pub dial_and_close : Pass → Ending × Pass
  unfolding begun dial_all closed
  dial_and_close p = closed (dial_all m.turns (begun p))

  unfoldable pub settled : Option Db → Pass → Ending × Pass
  unfolding dial_and_close CampaignStatus-discrete
  settled none p = (raised, p)
  settled (some db) p =
      let p' : Pass = record p { announcing = record p.announcing { db = db } } in
      if any (is_status campaign.status) (queued ∷ running ∷ [])
      then dial_and_close p'
      else (waits none, p')

  -- `advance`
  unfoldable pub advance : Pass → Ending × Pass
  unfolding settle settled
  advance p = settled (settle zones campaign m.calls m.settled_at m.stamp p.announcing.db) p

-- `min(waits, default=None)`, one wait at a time
unfoldable pub sooner : Option ℕ → Option ℕ → Option ℕ
sooner none b = b
sooner (some a) none = some a
sooner (some a) (some b) = if ltb a b then some a else some b

abbrev pub wait_of : Ending → Option ℕ
wait_of (waits wait) = wait
wait_of raised = none
wait_of unfinished = none

-- `active_campaigns`, over rows that stand in the order of their creation. `deleted` says which projects
-- are.
unfoldable pub is_active : (ℕ → Bool) → Db → CampaignRow → Bool
unfolding CampaignStatus-discrete TargetStatus-discrete
is_active deleted db c =
    (any (is_status c.status) (queued ∷ running ∷ paused ∷ [])
      || (is_status c.status CampaignStatus.cancelled
          && any (λ t. t.campaign_id == c.id && is_target_status t.status calling) db.targets))
    && not (deleted c.project_id)

unfoldable pub active_campaigns : (ℕ → Bool) → Db → List CampaignRow
unfolding is_active
active_campaigns deleted db = filter (is_active deleted db) db.campaigns

module _ (zones : String → Zone) (meets : ℕ → Meets) where
  -- The campaigns one after another, an exception of one being passed over.
  unfoldable pub advance_all : List CampaignRow → Pass → Option ℕ × Pass
  unfolding advance sooner
  advance_all [] p = (none, p)
  advance_all (c ∷ rest) p =
      let (ending, p') = advance zones c (meets c.id) p in
      let (wait, p'') = advance_all rest p' in (sooner (wait_of ending) wait, p'')

  -- `run_pass`, with the janitor's clock and time-out.
  unfoldable pub run_pass : (now timeout stamp : ℕ) → (ℕ → Bool) → Pass → Option ℕ × Pass
  unfolding reclaim_abandoned active_campaigns advance_all
  run_pass now timeout stamp deleted p =
      let db = (reclaim_abandoned now timeout stamp p.announcing.db).2 in
      advance_all (active_campaigns deleted db)
        (record p { announcing = record p.announcing { db = db } })
