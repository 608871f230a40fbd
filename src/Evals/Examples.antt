-- ===== src/Evals/Examples.antt =====
-- A run that stopped after its first failing turn, and verdicts on a few.
use turncall.Prelude.{
  true, false, Bool, Option, none, some, String, List, [], ◌∷◌, ◌≡◌, refl, filter, ◌+◌, ◌≤◌,
}
use turncall.Evals.{
  Event, user, assistant, ScriptTurn, TurnResult, transcript_from_script, bot_turns,
  IterationOutcome, derive_status, run_failed, run_errored, simulation_failures, goal, metric,
  spoken, turns_of, beside, with_text, interleave, user_lines,
}
use turncall.Evals.Transcript.{of_role, sent, transcript_is_faithful}
use turncall.Evals.Verdict.{run_verdict}

abbrev says : String → String → Event
says name words = record { event_type = name; text = some words; transcript = none }

abbrev events : List Event
events =
    says "llm_response" "Hello."
    ∷ says "response" "Hello."
    ∷ says "tts_response" "Hel"
    ∷ says "response" "For one?"
    ∷ says "llm_response" "For four?"
    ∷ says "response" "Bye."
    ∷ []

abbrev script : List ScriptTurn
script =
    record { user = some "Hi"; dtmf = none }
    ∷ record { user = some ""; dtmf = some "4" }
    ∷ record { user = some "Thanks"; dtmf = none }
    ∷ []

abbrev results : List TurnResult
results =
    record { status = "passed"; turn_index = 0 }
    ∷ record { status = "failed"; turn_index = 1 }
    ∷ record { status = "not_run"; turn_index = 2 }
    ∷ []

transcript_is_faithful_example :
    (filter (of_role assistant) (transcript_from_script events script results) ≡ bot_turns events)
    × (filter (of_role user) (transcript_from_script events script results) ≡ sent script results)
transcript_is_faithful_example = transcript_is_faithful events script results

conversation :
    transcript_from_script events script results
    ≡ record { role = user; content = "Hi"; text = none }
      ∷ record { role = assistant; content = "Hello."; text = none }
      ∷ record { role = user; content = "(DTMF keypad input: 4)"; text = none }
      ∷ record { role = assistant; content = "For one?"; text = some "For four?" }
      ∷ record { role = assistant; content = "Bye."; text = none }
      ∷ []
unfolding transcript_from_script bot_turns turns_of beside with_text spoken interleave user_lines
conversation = refl

abbrev outcome : Option Bool → IterationOutcome
outcome b = record { passed = b; refused_tool = none }

abbrev mixed : List IterationOutcome
mixed = outcome (some true) ∷ outcome none ∷ outcome (some false) ∷ outcome (some true) ∷ []

run_verdict_example :
    ((derive_status mixed).0 ≡ run_failed) × ((derive_status mixed).1 + (derive_status mixed).2 ≤ 4)
run_verdict_example = run_verdict mixed

unmocked :
    derive_status (record { passed = some true; refused_tool = some "book" } ∷ mixed)
    ≡ (run_errored, 0, 0)
unfolding derive_status
unmocked = refl

short :
    simulation_failures false (some "no table") (
      record { name = "politeness"; passed = false; reason = none }
      ∷ record { name = "words"; passed = true; reason = none }
      ∷ [])
    ≡ goal "no table" ∷ metric "politeness" "" ∷ []
unfolding simulation_failures
short = refl
