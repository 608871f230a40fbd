-- ===== src/Campaign/Dialer.antt =====
-- campaigns/dialer.py: one dial of a campaign: reserve, claim, check the window, ask the carrier, and
-- record what became of it. The dial itself is Outbound.antt's, over the rows, with
-- `begin_placing` as its `before_carrier`.
pub mod Inside
pub mod Reservation
mod Examples
use turncall.Prelude.{
  ℕ, String, Bool, true, false, Option, none, some, List, [], ◌∷◌, ◌==◌, leb, if◌then◌else◌,
  str_append,
}
use turncall.Limits.{
  Redis, Sent, DialSent, DialCheck, allowed, full_live_calls, full_calls_per_second, ProjectLimits,
  reserve_dial, release_dial,
}
use turncall.Outbound.{
  Fault, rate_limited, call_init_raised, Facts, Carrier, Outcome, placed, refused, stopped,
  carrier_failed, Request, place_outbound_call,
}
use turncall.Campaign.{TargetStatus, suppressed, failed, CallingWindow, CampaignRow, TargetRow, Db}
use turncall.Campaign.Claims.{claim_next_target}
use turncall.Campaign.Repo.{begin_placing, record_dial, defer, unclaim, retry_target, finish_target}
use turncall.Campaign.Schedule.{Zone, next_open, retry_at}
use turncall.Campaign.Worker.{Op, apply_all}

-- An exception of the dial, as `_refusal` tells them apart: the API's refusal of a suppressed number,
-- another of its refusals, and any other exception.
pub data Refusal : Type 0 where
  suppressed_number : (message : String) → Refusal
  api_error : (code message : String) → Refusal
  other_error : (type_name text : String) → Refusal

-- `_refusal`
unfoldable pub refusal : Refusal → TargetStatus × String
refusal (suppressed_number message) = (suppressed, message)
refusal (api_error code message) = (failed, str_append code (str_append ": " message))
refusal (other_error type_name text) = (failed, str_append type_name (str_append ": " text))

-- Why nothing was dialled: `_NotPlacing`, `RateLimitedError`, or a refusal.
pub data Stop : Type 0 where
  not_placing lapsed : Stop
  because : Refusal → Stop

-- `_not_dialled`
unfoldable pub not_dialled : ℕ → Stop → ℕ → Db → Db
unfolding unclaim finish_target refusal
not_dialled target not_placing stamp db = (unclaim target stamp db).1
not_dialled target lapsed stamp db = (unclaim target stamp db).1
not_dialled target (because r) stamp db =
    let (status, error) = refusal r in (finish_target target status none (some error) stamp db).1

-- `_not_recorded`; `saved` says whether its own write went through.
unfoldable pub not_recorded : ℕ → String → String → Bool → ℕ → Db → Db
unfolding finish_target
not_recorded target sid error saved stamp db =
    if saved
    then (finish_target target failed none
        (some (
          str_append "dial_not_recorded: the carrier placed this call ("
            (str_append sid (str_append ") but recording it failed: " error))))
        stamp db).1
    else db

-- What the dialler makes of a refusal of `place_outbound_call`; `wording` has the code and the message of
-- the API's error.
unfoldable pub stop_of : (Fault → String × String) → Fault → Stop
stop_of wording (rate_limited check) = lapsed
stop_of wording (Fault.number_suppressed number) =
    because (suppressed_number (wording (Fault.number_suppressed number)).1)
stop_of wording call_init_raised =
    because (other_error (wording call_init_raised).0 (wording call_init_raised).1)
stop_of wording fault = because (api_error (wording fault).0 (wording fault).1)

-- What one call of `_dial_next` meets: the commands it sends to Redis, its clock, the locks of others; and
-- for its dial what `place_outbound_call` reads and the carrier answers, whether the commit after it
-- succeeds, what the failure of a write says and whether writing that down succeeds; and the moves that
-- others make between the commit of `begin_placing` and the carrier's answer.
pub record Turn : Type 0 where
  pub call : ℕ
  pub sent : DialSent
  pub release_slot : Sent
  pub release_window : Sent
  pub now : ℕ
  pub stamp : ℕ
  pub locked : ℕ → Bool
  pub dial_now : ℕ
  pub facts : Facts
  pub admission : DialSent
  pub release : Sent
  pub carrier : Carrier
  pub wording : Fault → String × String
  pub carrier_refusal : String → Refusal
  pub is_committed : Bool
  pub failure : String
  pub is_saved : Bool
  pub others : List Op

pub record World : Type 0 where
  pub db : Db
  pub redis : Redis

-- How `_dial_next` ends: a limit is full, no target is due, the window never opens (an exception, with
-- nothing committed), the target waits for its window, or it was dialled.
pub data Went : Type 0 where
  limited : DialCheck → Went
  none_due never_opens : Went
  put_off_until : (target at : ℕ) → Went
  dialled : (target : ℕ) (is_placed : Bool) → Went

-- `before_carrier`, and what others do before the carrier answers.
unfoldable pub before_carrier : Turn → ℕ → Db → Bool × Db
unfolding begin_placing
before_carrier turn target db =
    let (moved, db') = begin_placing target turn.dial_now turn.stamp db in
    (moved, apply_all turn.others db')

-- What `_dial` does after `place_outbound_call`: whether a call was placed, and the rows.
unfoldable pub after_dial : Turn → ℕ → Outcome → Db → Bool × Db
unfolding record_dial not_recorded not_dialled stop_of
after_dial turn target (placed sid) db =
    if turn.is_committed
    then (true, (record_dial target turn.call turn.stamp db).1)
    else (true, not_recorded target sid turn.failure turn.is_saved turn.stamp db)
after_dial turn target (Outcome.not_recorded sid) db =
    (true, not_recorded target sid turn.failure turn.is_saved turn.stamp db)
after_dial turn target (refused fault) db =
    (false, not_dialled target (stop_of turn.wording fault) turn.stamp db)
after_dial turn target stopped db = (false, not_dialled target not_placing turn.stamp db)
after_dial turn target (carrier_failed error) db =
    (false, not_dialled target (because (turn.carrier_refusal error)) turn.stamp db)

abbrev pub request_of : Turn → ℕ → String → Request
request_of turn project to_number = record {
  project = project;
  call = turn.call;
  to_number = to_number;
  admission = turn.admission;
  release = turn.release;
}

-- `_dial`
unfoldable pub dial : Turn → ℕ → TargetRow → World → Bool × World
unfolding before_carrier after_dial place_outbound_call
dial turn project target w =
    let (outcome, db, redis) =
      place_outbound_call (before_carrier turn target.id) turn.facts
        (request_of turn project target.e164_number) turn.carrier w.db w.redis in
    let (is_placed, db') = after_dial turn target.id outcome db in
    (is_placed, record { db = db'; redis = redis })

module _ (zones : String → Zone) (turn : Turn) (campaign : CampaignRow) (from_number : String) where
  unfoldable pub released : Redis → Redis
  unfolding release_dial
  released =
      release_dial turn.release_slot turn.release_window campaign.project_id from_number turn.call

  unfoldable pub dialled_next : ℕ → Bool × World → Went × World
  unfolding released
  dialled_next target (true, w) = (dialled target true, w)
  dialled_next target (false, w) = (dialled target false, record w { redis = released w.redis })

  -- `_defer_outside_window`, and what follows each of its answers.
  unfoldable pub opened : TargetRow → Option ℕ → Db → Db → Redis → Went × World
  unfolding defer dial dialled_next released
  opened target none before db redis = (never_opens, record { db = before; redis = redis })
  opened target (some opens) before db redis =
      if leb opens turn.now
      then dialled_next target.id
          (dial turn campaign.project_id target (record { db = db; redis = redis }))
      else (
        put_off_until target.id opens,
        record { db = (defer target.id opens turn.stamp db).1; redis = released redis },
      )

  unfoldable pub with_target : Option TargetRow → Db → Db → Redis → Went × World
  unfolding opened next_open released
  with_target none before db redis = (none_due, record { db = db; redis = released redis })
  with_target (some target) before db redis =
      opened target (next_open (zones target.timezone) turn.now campaign.calling_window) before db
        redis

  unfoldable pub reserved_next : DialCheck → Db → Redis → Went × World
  unfolding claim_next_target with_target
  reserved_next allowed db redis =
      let (target, db') = claim_next_target campaign.id turn.locked turn.now turn.stamp db in
      with_target target db db' redis
  reserved_next check db redis = (limited check, record { db = db; redis = redis })

  -- `_dial_next`
  unfoldable pub dial_next : ProjectLimits → ℕ → World → Went × World
  unfolding reserve_dial reserved_next
  dial_next limits default_cps world =
      let (check, redis) =
        reserve_dial turn.sent limits campaign.project_id turn.call from_number default_cps
          world.redis in
      reserved_next check world.db redis
