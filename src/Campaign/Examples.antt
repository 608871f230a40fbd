-- ===== src/Campaign/Examples.antt =====
-- Histories of a small campaign, and a calling window in UTC.
use turncall.Prelude.{
  ℕ, ◌+◌, ◌*◌, ◌-◌, ◌≤◌, ◌<◌, ◌≡◌, refl, String, true, false, none, some, List, [], ◌∷◌, arith,
  is_some,
}
use Prim.Native.Nat.{◌/◌}
use turncall.Campaign.{
  is_final, running, TargetStatus, pending, dialling, suppressed, CampaignRow, TargetRow, Db,
  CallingWindow, RetryRule,
}
use turncall.Campaign.Claims.{claim_next_target}
use turncall.Campaign.Repo.{begin_placing}
use turncall.Campaign.Control.{cancel_campaign}
use turncall.Campaign.Schedule.{Zone, isoweekday, next_open, rule_for, retry_at, or_empty}
use turncall.Campaign.Schedule.Opening.{next_open_total}
use turncall.Campaign.Schedule.Earliest.{
  in_window, KeepsDays, AllowedAt, next_open-AllowedAt, next_open_earliest,
}
use turncall.Campaign.Schedule.Retrying.{retry_keeps_rule}
use turncall.Campaign.Worker.{Op, claim, place, reclaim, pause, resume, apply_all}
use turncall.Campaign.Worker.Placing.{placed_once}
use turncall.Campaign.Worker.Cancel.{cancelled_never_dials}
use turncall.Campaign.Worker.Final.{Ended}

abbrev pub target : ℕ → TargetStatus → TargetRow
target id status = record {
  id = id;
  campaign_id = 1;
  position = id;
  e164_number = "+15550100";
  variables = [];
  timezone = "UTC";
  agent_id = none;
  status = status;
  attempts = 0;
  next_attempt_at = none;
  claimed_at = some 100;
  call_id = none;
  ended_reason = none;
  error = none;
  updated_at = 100;
}

abbrev pub campaign : CampaignRow
campaign = record {
  id = 1;
  project_id = 1;
  name = "spring";
  agent_id = some 1;
  agent_weights = none;
  from_number_id = 1;
  timezone = none;
  calling_window = none;
  retry_policy = [];
  status = running;
  started_at = some 50;
  completed_at = none;
}

abbrev pub db : Db
db = record {
  campaigns = campaign ∷ [];
  targets = target 1 dialling ∷ target 2 suppressed ∷ target 3 pending ∷ [];
}

-- The worker stops, the janitor ends the target, and others go on.
abbrev history : List Op
history =
    claim 1 (λ _. false) 130 130 ∷ reclaim 900 300 900 ∷ pause 1 ∷ resume 1 ∷ place 1 910 910 ∷ []

let_through : (begin_placing 1 120 120 db).0 ≡ true
unfolding begin_placing
let_through = refl

placed_once_example :
    (begin_placing 1 950 950 (apply_all history (begin_placing 1 120 120 db).1)).0 ≡ false
placed_once_example =
    placed_once 1 120 120 950 950 db history (omega arith) let_through
      (refl, (refl, (refl, (refl, (refl, tt)))))

cancelled_never_dials_example :
    ((claim_next_target 1 (λ _. false) 950 950 (apply_all history (cancel_campaign 1 125 db).1)).0
      ≡ none)
    × ((begin_placing 1 950 950 (apply_all history (cancel_campaign 1 125 db).1)).0 ≡ false)
cancelled_never_dials_example =
    cancelled_never_dials 1 1 125 db history (λ _. false) 950 950 (refl, (refl, (refl, tt)))

two-Ended : Ended 2 db.targets
unfolding is_final
two-Ended = (refl, (refl, (refl, tt)))

abbrev pub utc : Zone
utc = record { local_day = λ t. t / 86400; instant = λ day at. day * 86400 + at }

-- 09:00 to 17:00 from Monday to Friday.
abbrev pub office : CallingWindow
office = record { start = 32400; end = 61200; days = 1 ∷ 2 ∷ 3 ∷ 4 ∷ 5 ∷ [] }

utc-KeepsDays : (now : ℕ) → KeepsDays utc office now
utc-KeepsDays now = record { in_order = λ day later h. omega arith; gone = λ day h. omega arith }

-- 18:00 on a Friday, and 09:00 on the Monday after it.
abbrev pub friday : ℕ
friday = 19 * 86400 + 64800

abbrev pub monday : ℕ
monday = 22 * 86400 + 32400

opens_monday : next_open utc friday (some office) ≡ some monday
unfolding next_open
opens_monday = refl

next_open_total_example : is_some (next_open utc friday (some office)) ≡ true
next_open_total_example =
    next_open_total utc friday office (3, refl, omega arith, omega arith) (λ day h. omega arith)

next_open-AllowedAt_example : (friday ≤ monday) × AllowedAt utc office monday
next_open-AllowedAt_example = next_open-AllowedAt utc office friday monday opens_monday

tuesday_noon : in_window utc office 23 (23 * 86400 + 43200) ≡ true
unfolding isoweekday
tuesday_noon = refl

next_open_earliest_example : monday ≤ 23 * 86400 + 43200
next_open_earliest_example =
    next_open_earliest utc office friday monday (23 * 86400 + 43200) 23 (utc-KeepsDays friday)
      opens_monday (omega arith) tuesday_noon

abbrev pub policy : List (String × RetryRule)
policy = ("customer_busy", record { max_attempts = 3; spacing_seconds = 3600 }) ∷ []

retried :
    retry_at policy (some "customer_busy") 2 (friday - 3600) utc (some office) ≡ some (some monday)
unfolding retry_at
retried = refl

retry_keeps_rule_example :
    (rule : RetryRule) × (rule_for policy (or_empty (some "customer_busy")) ≡ some rule)
    × (2 < rule.max_attempts)
    × (friday - 3600 + rule.spacing_seconds ≤ monday)
    × AllowedAt utc office monday
retry_keeps_rule_example =
    retry_keeps_rule policy (some "customer_busy") 2 (friday - 3600) monday utc office retried
