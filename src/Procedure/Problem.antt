-- ===== src/Procedure/Problem.antt =====
-- domain/procedure_graph.py: the refusals of the graph rule as data, a constructor for each text of
-- the source, and its caps.
use turncall.Prelude.{ℕ, String, Option}
use turncall.Procedure.{ℤ, Procedure}

pub data Problem : Type 0 where
  cannot_be_read : (why : String) → Problem
  unknown_start : (start : String) → Problem
  unknown_kind : (id kind : String) → Problem
  too_many_steps : (count : ℕ) → Problem
  negative_depth : (depth : ℤ) → Problem
  depth_over_cap : (depth : ℤ) → Problem
  repeated_id : (id : String) → Problem
  no_start : Problem
  two_starts : (first second : String) → Problem
  no_such_target : (id target : String) → Problem
  no_ending : Problem
  unreachable_step : (id start : String) → Problem
  action_on_other_kind : (id kind : String) → Problem
  no_action : (id : String) → Problem
  two_actions : (id : String) → Problem
  handoff_to_no_agent : (id agent_id : String) → Problem
  unknown_mode : (id mode : String) → Problem
  transfer_to_no_number : (id target : String) → Problem
  unknown_tool : (id tool : String) → Problem
  repeated_name : (name : String) → Problem

abbrev pub max_steps : ℕ
max_steps = 50

abbrev pub max_window_depth : ℕ
max_window_depth = 5

abbrev pub Check : Type 0
Check = Procedure → Option Problem
