-- ===== src/Limits/Examples.antt =====
-- Admissions, refusals and reservations at concrete limits.
use turncall.Prelude.{ℕ, ◌+◌, ◌-◌, ◌≤◌, ◌≡◌, ◌≢◌, refl, List, [], ◌∷◌, length, arith}
use turncall.Limits.{
  live_call_lease_ms, empty, Redis, up, DialSent, allowed, ProjectLimits, purge, zrem, admit,
  reserve_dial,
}
use turncall.Limits.Count.{Request, run, run_within_limit}
use turncall.Limits.Retry.{wait_is_exact}
use turncall.Limits.Reserve.{IsUp, refused_leaves_others}

abbrev ask : ℕ → ℕ → Request
ask now member = record { now = now; member = member; limit = 2; ttl = 100 }

-- Two members are admitted, a third one is refused, and one of them is admitted again.
abbrev asked : List Request
asked = ask 10 1 ∷ ask 20 2 ∷ ask 30 3 ∷ ask 40 1 ∷ []

run_within_limit_example : length (run asked empty).entries ≤ 2
run_within_limit_example = run_within_limit 2 asked (
  omega arith,
  omega arith,
  (omega arith, omega arith, (omega arith, omega arith, (omega arith, omega arith, tt))),
)

-- One call is admitted, for a limit of one, and admitted again.
abbrev one_call : List Request
one_call =
    record { now = 5; member = 1; limit = 1; ttl = 100 }
    ∷ record { now = 10; member = 1; limit = 1; ttl = 100 }
    ∷ []

one_call_refuses : (admit 20 2 1 100 (run one_call empty)).0 ≡ 90
unfolding run admit
one_call_refuses = refl

wait_is_exact_example :
    ((admit 50 2 1 100 (admit 20 2 1 100 (run one_call empty)).1).0 ≡ 110 - 50)
    × ((admit 110 2 1 100 (admit 20 2 1 100 (run one_call empty)).1).0 ≡ 0)
wait_is_exact_example =
    wait_is_exact one_call 20 2 1 100 90 50 (refl, omega arith, (refl, omega arith, tt))
      (omega arith, omega arith, (omega arith, omega arith, tt)) one_call_refuses (omega arith)
      (omega arith) (omega arith)

abbrev sent_at : ℕ → DialSent
sent_at now = record {
  slot = record { now = now; link = up };
  window = record { now = now + 1; link = up };
  giving_back = record { now = now + 2; link = up };
}

is_up : (now : ℕ) → IsUp (sent_at now)
is_up now = record { slot_up = refl; window_up = refl; giving_back_up = refl }

abbrev limits : ProjectLimits
limits = record { live_calls = 2; outbound_calls_per_second = 1; messages_per_minute = 0 }

-- The number was dialled at 500 for another call of another project.
abbrev dialled_once : Redis
dialled_once = record {
  live_calls = λ _. empty;
  dials = λ _. record { entries = record { member = 7; score = 1500 } ∷ []; expires = 1500 };
  messages = λ _. empty;
}

-- The call 8 holds a slot of its project, as the call 9 does, and its place in the window has lapsed.
abbrev readmitting : Redis
readmitting = record dialled_once {
  live_calls = λ _. record {
    entries = record { member = 8; score = 110000 } ∷ record { member = 9; score = 100000 } ∷ [];
    expires = 110000;
  };
}

refused_by_window : (reserve_dial (sent_at 1000) limits 1 8 "+15550100" 1 readmitting).0 ≢ allowed
unfolding reserve_dial
refused_by_window = ground arith

refused_leaves_others_example :
    (purge 1100 ((reserve_dial (sent_at 1000) limits 1 8 "+15550100" 1 readmitting).1.live_calls 1)
      ≡ zrem 8 (purge 1100 (readmitting.live_calls 1)))
    × (purge 1100
          ((reserve_dial (sent_at 1000) limits 1 8 "+15550100" 1 readmitting).1.dials "+15550100")
        ≡ purge 1100 (readmitting.dials "+15550100"))
refused_leaves_others_example =
    refused_leaves_others (sent_at 1000) limits 1 8 "+15550100" 1 readmitting 1100 (is_up 1000)
      (record {
        taken = omega arith;
        given = omega arith;
        covered = (omega arith, (omega arith, tt));
        windowed = (omega arith, (omega arith, tt));
      })
      (omega arith, tt) (omega arith) refused_by_window

granted : (reserve_dial (sent_at 2000) limits 1 8 "+15550100" 1 dialled_once).0 ≡ allowed
unfolding reserve_dial
granted = refl

abbrev lease_asks : List Request
lease_asks =
    record { now = 40000; member = 5; limit = 1; ttl = live_call_lease_ms }
    ∷ record { now = 90000; member = 6; limit = 0; ttl = live_call_lease_ms }
    ∷ []
