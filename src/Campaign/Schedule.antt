-- ===== src/Campaign/Schedule.antt =====
-- campaigns/schedule.py: when a target is next due. A date is its ordinal day, an instant is in seconds, and
-- a time of the day is in seconds of that day.
pub mod Opening
pub mod Earliest
pub mod Retrying
use turncall.Prelude.{
  ℕ, zero, suc, ◌+◌, ◌%◌, String, Bool, true, false, Option, none, some, List, [], ◌∷◌, ltb, leb,
  ◌==◌, str_eq, if◌then◌else◌, any,
}
use turncall.Campaign.{CallingWindow, RetryRule}

-- What zoneinfo knows of one IANA zone: the local date of an instant, and the instant of a local date
-- and time (`datetime.combine(day, at, tzinfo=zone)`).
pub record Zone : Type 0 where
  pub local_day : ℕ → ℕ
  pub instant : ℕ → ℕ → ℕ

-- `toordinal() % 7 or 7`
unfoldable pub isoweekday : ℕ → ℕ
isoweekday day = if day % 7 == 0 then 7 else day % 7

abbrev pub is_open_on : CallingWindow → ℕ → Bool
unfolding isoweekday
is_open_on window day = any (λ d. d == isoweekday day) window.days

abbrev pub opens : Zone → CallingWindow → ℕ → ℕ
opens zone window day = zone.instant day window.start

abbrev pub closes : Zone → CallingWindow → ℕ → ℕ
closes zone window day = zone.instant day window.end

-- The loop's body for one day; `rest` is what the days after it give.
unfoldable pub on_day : Zone → ℕ → CallingWindow → ℕ → Option ℕ → Option ℕ
unfolding isoweekday
on_day zone now window day rest =
    if is_open_on window day
    then if ltb now (opens zone window day)
      then some (opens zone window day)
      else if ltb now (closes zone window day)
      then some now
      else rest
    else rest

-- `for offset in range(8)` from a day on; none where the loop ends and the code raises.
unfoldable pub over_days : Zone → ℕ → CallingWindow → ℕ → ℕ → Option ℕ
unfolding on_day
over_days zone now window day zero = none
over_days zone now window day (suc left) =
    on_day zone now window day (over_days zone now window (day + 1) left)

unfoldable pub next_open : Zone → ℕ → Option CallingWindow → Option ℕ
unfolding over_days
next_open zone now none = some now
next_open zone now (some window) = over_days zone now window (zone.local_day now) 8

unfoldable pub rule_for : List (String × RetryRule) → String → Option RetryRule
rule_for [] reason = none
rule_for ((name, rule) ∷ rest) reason =
    if str_eq name reason then some rule else rule_for rest reason

abbrev pub or_empty : Option String → String
or_empty none = ""
or_empty (some s) = s

-- What an allowed retry gives: none if there is none, and what `next_open` gives inside.
unfoldable pub retry_by : Option RetryRule → ℕ → ℕ → Zone → Option CallingWindow → Option (Option ℕ)
unfolding next_open
retry_by none attempts now zone window = none
retry_by (some rule) attempts now zone window =
    if leb rule.max_attempts attempts
    then none
    else some (next_open zone (now + rule.spacing_seconds) window)

-- A policy that is missing is an empty one. The outer none is no retry; the inner one is the raise.
unfoldable pub retry_at :
    List (String × RetryRule)
    → Option String
    → ℕ
    → ℕ
    → Zone
    → Option CallingWindow
    → Option (Option ℕ)
unfolding rule_for retry_by
retry_at policy ended_reason attempts now zone window =
    retry_by (rule_for policy (or_empty ended_reason)) attempts now zone window
