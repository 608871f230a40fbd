-- ===== src/Drain/Examples.antt =====
-- A process with two live calls that is asked to stop.
use turncall.Prelude.{◌+◌, ◌≤◌, none, some, List, [], ◌∷◌, ◌≡◌, refl, arith}
use turncall.Drain.{
  Live, Look, enter, leave, active_calls, latest, calls_remain, wait_for_calls, wait_for_work,
  drain, Signals, installed, Event, sigterm, callback_runs, drain_ends, uninstalled, happen, run,
  on_sigterm, handed_back, uninstall, run_callback,
}
use turncall.Drain.Waiting.{AllExpired, calls_waited_for}
use turncall.Drain.Handover.{handed_over_once, one_if, starts}

abbrev two_calls : List Live
two_calls = record { call = 1; deadline = 700 } ∷ record { call = 2; deadline = 950 } ∷ []

counted : active_calls (leave 1 (enter 2 (some 0) 100 (enter 1 none 90 []))) ≡ 1
unfolding active_calls leave enter turncall.Drain.pop
counted = refl

-- The first call ends; the second is stuck until its deadline.
abbrev looks : List Look
looks =
    record { now = 500; live = two_calls; pending = 0 }
    ∷ record { now = 800; live = record { call = 2; deadline = 950 } ∷ []; pending = 1 }
    ∷ record { now = 960; live = record { call = 2; deadline = 950 } ∷ []; pending = 1 }
    ∷ record { now = 970; live = []; pending = 0 }
    ∷ []

calls_waited_for_example :
    (look : Look) × (rest : List Look) × (wait_for_calls looks ≡ some (look, rest))
    × AllExpired look.now look.live
calls_waited_for_example =
    calls_waited_for 950 looks
      ((omega arith, (omega arith, tt)), ((omega arith, tt), ((omega arith, tt), (tt, tt)))) refl

drained : drain looks ≡ some (record { now = 970; live = []; pending = 0 })
unfolding drain wait_for_calls calls_remain latest wait_for_work
drained = refl

-- The drain ends after a second SIGTERM, and both hand the signal back.
abbrev impatient : List Event
impatient = sigterm ∷ callback_runs ∷ sigterm ∷ callback_runs ∷ drain_ends ∷ []

handed_over_once_example :
    ((run impatient installed).raised + one_if (run impatient installed).ours ≤ 1)
    × (starts (run impatient installed).scheduled + (run impatient installed).drains ≤ 1)
    × ((run impatient installed).raised ≤ one_if (run impatient installed).draining)
handed_over_once_example = handed_over_once impatient

raised_once : (run impatient installed).raised ≡ 1
unfolding run happen on_sigterm run_callback handed_back uninstall
raised_once = refl
