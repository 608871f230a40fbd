-- ===== src/Procedure/Graph.antt =====
-- domain/procedure_graph.py: the rule that a procedure graph is held to. Each check is a function of
-- one procedure and the first problem wins. A problem is the refusal's text as data: a constructor
-- for each text of the source, over what the text quotes.
pub mod Reach
pub mod Routes
pub mod Reachable
pub mod Sound
pub mod Checks
pub mod Escalations
pub mod Starts
pub mod Accept
use turncall.Prelude.{
  ℕ, zero, suc, ◌+◌, String, Bool, true, false, not, ◌&&◌, ◌||◌, Option, none, some, List, [], ◌∷◌,
  ◌++◌, map, find, any, filter, length, contains, ltb, str_eq, if◌then◌else◌,
}
use turncall.Procedure.{
  ℤ, pos, negsuc, ProcedureMove, ProcedureStep, Procedure, EscalationAction, transfer, handoff,
  actions, StepEscalation, step, start_step, is_ending_kind,
}
use turncall.Procedure.Problem.{
  Check, Problem, action_on_other_kind, cannot_be_read, depth_over_cap, handoff_to_no_agent,
  max_steps, max_window_depth, negative_depth, no_action, no_ending, no_start, no_such_target,
  repeated_id, repeated_name, too_many_steps, transfer_to_no_number, two_actions, two_starts,
  unknown_kind, unknown_mode, unknown_start, unknown_tool, unreachable_step,
}
use turncall.Procedure.Search.{
  Search, all_reachable, all_targets, explore, next_targets, reach_all, reach_fuel, reach_problem,
  reach_target, reached_from, targets, unreached, visit,
}

unfoldable pub readable : Check
readable p = elim p.unreadable [ none ↦ none | some why ↦ some (cannot_be_read why) ]

-- `ProcedureStart` and `StepKind`
abbrev pub known_starts : List String
known_starts = "call" ∷ "on_request" ∷ []

abbrev pub known_kinds : List String
known_kinds = "ask" ∷ "instruct" ∷ "check" ∷ "escalate" ∷ "end" ∷ []

-- A `for` loop over the steps that returns at the first problem.
unfoldable pub first_problem {ℓ} : {A : Type ℓ} → (A → Option Problem) → List A → Option Problem
first_problem check [] = none
first_problem check (s ∷ rest) =
    let later = first_problem check rest in elim (check s) [ none ↦ later | some p ↦ some p ]

unfoldable pub known_words : Check
unfolding first_problem
known_words p =
    if not (contains p.start known_starts)
    then some (unknown_start p.start)
    else first_problem
        (λ s. if contains s.kind known_kinds then none else some (unknown_kind s.id s.kind)) p.steps

unfoldable pub depth_problem : ℤ → Option Problem
depth_problem (negsuc n) = some (negative_depth (negsuc n))
depth_problem (pos n) = if ltb max_window_depth n then some (depth_over_cap (pos n)) else none

unfoldable pub within_the_caps : Check
unfolding depth_problem
within_the_caps p =
    if ltb max_steps (length p.steps)
    then some (too_many_steps (length p.steps))
    else depth_problem p.window_depth

abbrev pub ids : List ProcedureStep → List String
ids = map (λ s. s.id)

unfoldable pub count_id : String → List String → ℕ
count_id a [] = 0
count_id a (x ∷ xs) = (if str_eq x a then 1 else 0) + count_id a xs

-- `Counter` keeps the ids in the order of their first use, so the first id of the list that is
-- counted more than once is the one found.
unfoldable pub unique_ids : Check
unfolding count_id
unique_ids p = elim (find (λ sid. ltb 1 (count_id sid (ids p.steps))) (ids p.steps)) [
  | none ↦ none
  | some sid ↦ some (repeated_id sid)
]

unfoldable pub start_problem : List String → Option Problem
start_problem [] = some no_start
start_problem (a ∷ []) = none
start_problem (a ∷ b ∷ rest) = some (two_starts a b)

unfoldable pub one_start : Check
unfolding start_problem
one_start p = start_problem (ids (filter (λ s. s.start) p.steps))

unfoldable pub moves_land : Check
unfolding first_problem
moves_land p =
    first_problem
      (λ s.
        first_problem
          (λ target.
            if contains target (ids p.steps) then none else some (no_such_target s.id target))
          (targets s.moves))
      p.steps

unfoldable pub has_an_ending : Check
has_an_ending p = if any (λ s. is_ending_kind s.kind) p.steps then none else some no_ending

-- What the standard library says of a text: whether `uuid.UUID` reads it, and whether the pattern
-- `_E164` matches the whole of it.
pub record Formats : Type 0 where
  pub is_uuid : String → Bool
  pub is_e164 : String → Bool

abbrev pub transfer_modes : List String
transfer_modes = "warm" ∷ "cold" ∷ []

unfoldable pub action_problem : Formats → String → EscalationAction → Option Problem
action_problem f id (handoff args) =
    if f.is_uuid args.agent_id then none else some (handoff_to_no_agent id args.agent_id)
action_problem f id (transfer args) =
    if not (contains args.transfer_mode transfer_modes)
    then some (unknown_mode id args.transfer_mode)
    else if f.is_e164 args.target_number
    then none
    else some (transfer_to_no_number id args.target_number)

unfoldable pub step_actions : Option StepEscalation → List EscalationAction
unfolding actions
step_actions none = []
step_actions (some e) = actions e

-- The actions of an escalate step, and those of a step of another kind.
unfoldable pub escalate_problem : Formats → String → List EscalationAction → Option Problem
unfolding action_problem
escalate_problem f id [] = some (no_action id)
escalate_problem f id (a ∷ []) = action_problem f id a
escalate_problem f id (a ∷ b ∷ rest) = some (two_actions id)

unfoldable pub other_kind_problem : String → String → List EscalationAction → Option Problem
other_kind_problem id kind [] = none
other_kind_problem id kind (a ∷ rest) = some (action_on_other_kind id kind)

unfoldable pub escalation_problem : Formats → ProcedureStep → Option Problem
unfolding escalate_problem other_kind_problem step_actions
escalation_problem f s =
    if str_eq s.kind "escalate"
    then escalate_problem f s.id (step_actions s.escalate)
    else other_kind_problem s.id s.kind (step_actions s.escalate)

unfoldable pub escalations : Formats → Check
unfolding first_problem escalation_problem
escalations f p = first_problem (escalation_problem f) p.steps

unfoldable pub tool_problem : List String → String → Option String → Option Problem
tool_problem callable id none = none
tool_problem callable id (some tool) =
    if contains tool callable then none else some (unknown_tool id tool)

unfoldable pub step_tools_in : List String → Check
unfolding first_problem tool_problem
step_tools_in callable p = first_problem (λ s. tool_problem callable s.id s.tool) p.steps

-- The checks in their order, with the one on tools when the caller knows what can be called.
abbrev pub tool_checks : Option (List String) → List Check
tool_checks none = []
tool_checks (some callable) = step_tools_in callable ∷ []

unfoldable pub all_checks : Formats → Option (List String) → List Check
all_checks f callable =
    readable
    ∷ known_words
    ∷ within_the_caps
    ∷ unique_ids
    ∷ one_start
    ∷ moves_land
    ∷ has_an_ending
    ∷ all_reachable
    ∷ escalations f
    ∷ tool_checks callable

-- The refusal names the procedure by its index and name.
pub record Refusal : Type 0 where
  pub index : ℕ
  pub name : String
  pub problem : Problem

unfoldable pub run_checks : List Check → Procedure → Option Problem
run_checks [] p = none
run_checks (check ∷ rest) p =
    let later = run_checks rest p in elim (check p) [ none ↦ later | some problem ↦ some problem ]

unfoldable pub refused_as : ℕ → String → Option Problem → Option Refusal → Option Refusal
refused_as index name none later = later
refused_as index name (some problem) later =
    some (record { index = index; name = name; problem = problem })

unfoldable pub refusal_from : List Check → ℕ → List String → List Procedure → Option Refusal
unfolding run_checks refused_as
refusal_from checks index seen [] = none
refusal_from checks index seen (p ∷ rest) =
    let later = refusal_from checks (index + 1) (p.name ∷ seen) rest in
    if contains p.name seen
    then some (record { index = index; name = p.name; problem = repeated_name p.name })
    else refused_as index p.name (run_checks checks p) later

unfoldable pub procedures_refusal : Formats → Option (List String) → List Procedure → Option Refusal
unfolding all_checks refusal_from
procedures_refusal f callable procedures = refusal_from (all_checks f callable) 0 [] procedures
