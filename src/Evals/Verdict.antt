-- ===== src/Evals/Verdict.antt =====
-- When a run has passed, failed or errored.
use turncall.Prelude.{
  ℕ, ◌+◌, ◌≤◌, Bool, true, false, not, ◌&&◌, Option, none, some, List, [], ◌∷◌, any, length, ◌==◌,
  ◌≡◌, refl, arith, if◌then◌else◌,
}
use turncall.Evals.{
  IterationOutcome, EvalRunStatus, run_passed, run_failed, run_errored, has_passed, has_failed,
  refuses, count, derive_status,
}

-- Nothing is counted exactly when none is there.
count-any :
    (p : IterationOutcome → Bool) (os : List IterationOutcome) → (count p os == 0) ≡ not (any p os)
unfolding count
count-any p [] = refl
count-any p (o ∷ os) = ground (arith, count-any p os)

-- From whether a tool was refused, and whether an iteration passed or failed.
abbrev pub verdict : Bool → Bool → Bool → EvalRunStatus
verdict true some_passed some_failed = run_errored
verdict false some_passed true = run_failed
verdict false true false = run_passed
verdict false false false = run_errored

status_of :
    (refused p f : Bool) (m n : ℕ)
    → (let out : EvalRunStatus × ℕ × ℕ =
          if refused
          then (run_errored, 0, 0)
          else if not p && not f
          then (run_errored, 0, 0)
          else (if not (not f) then run_failed else run_passed, m, n) in
        out.0)
      ≡ verdict refused p f
status_of true p f m n = refl
status_of false true true m n = refl
status_of false true false m n = refl
status_of false false true m n = refl
status_of false false false m n = refl

derive_status-verdict :
    (os : List IterationOutcome)
    → (derive_status os).0 ≡ verdict (any refuses os) (any has_passed os) (any has_failed os)
unfolding derive_status
derive_status-verdict os =
    rw (count-any has_passed os, count-any has_failed os)
      (status_of (any refuses os) (any has_passed os) (any has_failed os) (count has_passed os)
        (count has_failed os))

-- No outcome counts for both.
both_of :
    (o : Option Bool)
    → (elim o [ none ↦ false | some b ↦ b ] && elim o [ none ↦ false | some b ↦ not b ]) ≡ false
both_of none = refl
both_of (some true) = refl
both_of (some false) = refl

count_within : (os : List IterationOutcome) → count has_passed os + count has_failed os ≤ length os
unfolding count
count_within [] = omega arith
count_within (o ∷ os) = ground (arith, count_within os, both_of o.passed)

counts_within :
    (os : List IterationOutcome) → (derive_status os).1 + (derive_status os).2 ≤ length os
unfolding derive_status
counts_within os = ground (arith, count_within os)

-- A run has errored when an iteration asked for a tool that had no mock, or none reached a verdict; else
-- it has failed when one iteration failed, and passed when one passed and none failed. No iteration is
-- counted twice.
pub run_verdict :
    (os : List IterationOutcome)
    → ((derive_status os).0 ≡ verdict (any refuses os) (any has_passed os) (any has_failed os))
      × ((derive_status os).1 + (derive_status os).2 ≤ length os)
run_verdict os = (derive_status-verdict os, counts_within os)
