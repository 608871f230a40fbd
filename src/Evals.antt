-- ===== src/Evals.antt =====
-- evals/result_mapping.py: what a run of an evaluation reports: the transcript of a scripted iteration,
-- why a simulated one did not pass, and the verdict on all of them.
pub mod Transcript
pub mod Verdict
mod Examples
use turncall.Prelude.{
  ℕ, zero, suc, ◌+◌, Bool, true, false, not, ◌||◌, ◌&&◌, String, str_append, str_eq, Option, none,
  some, List, [], ◌∷◌, ◌++◌, map, filter, any, ◌==◌, is_some, if◌then◌else◌,
}

-- An event as pipecat names it, with its two texts where they are there.
pub record Event : Type 0 where
  pub event_type : String
  pub text : Option String
  pub transcript : Option String

-- `a or b`, for texts
abbrev or_else : Option String → String → String
or_else none b = b
or_else (some a) b = if str_eq a "" then b else a

unfoldable pub spoken : Event → String
spoken event = or_else event.text (or_else event.transcript "")

pub data Role : Type 0 where
  user assistant : Role

-- An entry of the transcript; `text` is what the model wrote, where the judge heard something else.
pub record Line : Type 0 where
  pub role : Role
  pub content : String
  pub text : Option String

-- The events of a type that say something.
abbrev pub saying : String → List Event → List Event
saying name events = filter (λ e. str_eq e.event_type name && not (str_eq (spoken e) "")) events

unfoldable pub with_text : String → String → Option String
with_text text content =
    if not (str_eq text "") && not (str_eq text content) then some text else none

-- What was heard, beside what was written, by order.
unfoldable pub beside : List Event → List Event → List Line
unfolding with_text
beside [] written = []
beside (e ∷ heard) [] =
    record { role = assistant; content = spoken e; text = with_text "" (spoken e) }
    ∷ beside heard []
beside (e ∷ heard) (w ∷ written) =
    record { role = assistant; content = spoken e; text = with_text (spoken w) (spoken e) }
    ∷ beside heard written

unfoldable pub turns_of : List Event → List Event → List Line
unfolding beside
turns_of [] written =
    map (λ e. record { role = assistant; content = spoken e; text = none }) written
turns_of (e ∷ heard) written = beside (e ∷ heard) written

-- `_bot_turns`
unfoldable pub bot_turns : List Event → List Line
unfolding turns_of
bot_turns events = turns_of (saying "response" events) (saying "llm_response" events)

-- A turn of the scenario: what the caller says, or the keys they press.
pub record ScriptTurn : Type 0 where
  pub user : Option String
  pub dtmf : Option String

pub record TurnResult : Type 0 where
  pub status : String
  pub turn_index : ℕ

abbrev pub nth : ℕ → List ScriptTurn → Option ScriptTurn
nth i [] = none
nth zero (t ∷ ts) = some t
nth (suc i) (t ∷ ts) = nth i ts

abbrev said : String → List Line
said content = record { role = user; content = content; text = none } ∷ []

-- The caller's line of a turn that was sent.
unfoldable pub user_lines : Option ScriptTurn → List Line
user_lines none = []
user_lines (some turn) =
    if not (str_eq (or_else turn.user "") "")
    then said (or_else turn.user "")
    else if not (str_eq (or_else turn.dtmf "") "")
    then said (str_append "(DTMF keypad input: " (str_append (or_else turn.dtmf "") ")"))
    else []

abbrev pub is_not_run : TurnResult → Bool
is_not_run t = str_eq t.status "not_run"

-- The loop over the turns; the replies that are left take the place of `consumed`.
unfoldable pub interleave : List ScriptTurn → List TurnResult → List Line → List Line
unfolding user_lines
interleave turns [] replies = replies
interleave turns (t ∷ rest) [] =
    let later = interleave turns rest [] in
    if is_not_run t then later else user_lines (nth t.turn_index turns) ++ later
interleave turns (t ∷ rest) (r ∷ replies) =
    let skipped = interleave turns rest (r ∷ replies) in
    let later = interleave turns rest replies in
    if is_not_run t then skipped else user_lines (nth t.turn_index turns) ++ (r ∷ later)

-- `_transcript_from_script`
unfoldable pub transcript_from_script : List Event → List ScriptTurn → List TurnResult → List Line
unfolding bot_turns interleave
transcript_from_script events turns results = interleave turns results (bot_turns events)

-- A metric of a simulation, and why an iteration did not pass.
pub record Metric : Type 0 where
  pub name : String
  pub passed : Bool
  pub reason : Option String

pub data Failure : Type 0 where
  goal : (reason : String) → Failure
  metric : (name reason : String) → Failure

-- `_simulation_failures`
unfoldable pub simulation_failures : Bool → Option String → List Metric → List Failure
simulation_failures succeeded reason metrics =
    (if not succeeded then goal (or_else reason "") ∷ [] else [])
    ++ map (λ m. metric m.name (or_else m.reason "")) (filter (λ m. not m.passed) metrics)

-- `IterationOutcome`, less its entry.
pub record IterationOutcome : Type 0 where
  pub passed : Option Bool
  pub refused_tool : Option String

pub data EvalRunStatus : Type 0 where
  run_queued run_running run_passed run_failed run_errored run_cancelled : EvalRunStatus

abbrev pub has_passed : IterationOutcome → Bool
has_passed o = elim o.passed [ none ↦ false | some b ↦ b ]

abbrev pub has_failed : IterationOutcome → Bool
has_failed o = elim o.passed [ none ↦ false | some b ↦ not b ]

abbrev pub refuses : IterationOutcome → Bool
refuses o = elim o.refused_tool [ none ↦ false | some tool ↦ not (str_eq tool "") ]

unfoldable pub count : (IterationOutcome → Bool) → List IterationOutcome → ℕ
count p [] = 0
count p (o ∷ os) = let rest = count p os in if p o then 1 + rest else rest

-- `derive_status`
unfoldable pub derive_status : List IterationOutcome → EvalRunStatus × ℕ × ℕ
unfolding count
derive_status outcomes =
    let passed = count has_passed outcomes in
    let failed = count has_failed outcomes in
    if any refuses outcomes
    then (run_errored, 0, 0)
    else if (passed == 0) && (failed == 0)
    then (run_errored, 0, 0)
    else (if not (failed == 0) then run_failed else run_passed, passed, failed)
