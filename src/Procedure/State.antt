-- ===== src/Procedure/State.antt =====
-- domain/procedure_state.py: what a reported move does to a call's place in its procedures. What the
-- model reads of a move is data here: a constructor for each text of the source.
pub mod Invariant
pub mod Moves
pub mod Finished
pub mod Allowed
pub mod CallStart
use turncall.Prelude.{
  String, Bool, true, false, not, ◌&&◌, Option, none, some, List, [], ◌∷◌, ◌++◌, map, find, filter,
  contains, str_eq, if◌then◌else◌,
}
use turncall.Procedure.{
  ProcedureMove, ProcedureStep, Procedure, step, start_step, is_ending_kind, has_move,
}
use turncall.Procedure.Replies.{
  Result, Message, finished_at, no_procedure, no_step, not_allowed, stay_at, arrived_at, started_at,
  not_running, Details, details_moved, details_stayed, details_refused, arrived, allowed,
  allowed_text,
}
use turncall.Procedure.Runs.{
  ProcedureRun, previous, ProcedureState, procedure, run_named, run, finished_run, step_in,
  current_step, ends_at_step, ends_at, without, in_place, put_running, placed, new_run, start_at,
  start_all, at_call_start,
}

pub record MoveOutcome : Type 0 where
  pub accepted : Bool
  pub state : ProcedureState
  pub procedure : String
  pub from_step : Option String
  pub to_step : String
  pub kind : Option String
  pub result : Result
  pub stayed : Bool

abbrev pub running : ProcedureState → List String
running s = map (λ r. r.name) s.runs

-- `_refused`, with the moves it names as allowed.
unfoldable pub refused :
    ProcedureState → String → Option String → String → Message → List String → MoveOutcome
refused s name at to message allowed_moves = record {
  accepted = false;
  state = s;
  procedure = name;
  from_step = at;
  to_step = to;
  kind = none;
  result = record {
    success = false;
    message = message;
    details = details_refused name at allowed_moves;
  };
  stayed = false;
}

unfoldable pub stay : ProcedureState → String → ProcedureStep → Option String → MoveOutcome
unfolding allowed_text
stay s name current back = record {
  accepted = false;
  state = s;
  procedure = name;
  from_step = some current.id;
  to_step = current.id;
  kind = none;
  result = record {
    success = true;
    message = stay_at current.id (allowed_text (some current) back);
    details = details_stayed name current.id;
  };
  stayed = true;
}

abbrev ids_of : Option ProcedureStep → List String
ids_of none = []
ids_of (some start) = start.id ∷ []

-- The start step that a move may start the procedure at.
unfoldable pub startable : Procedure → Option ProcedureStep
unfolding start_step
startable p = if str_eq p.start "on_request" then start_step p else none

unfoldable pub start_with : ProcedureState → Procedure → ProcedureStep → MoveOutcome
unfolding placed arrived
start_with s p start = record {
  accepted = true;
  state = placed s (new_run p.name start);
  procedure = p.name;
  from_step = none;
  to_step = start.id;
  kind = some start.kind;
  result = record {
    success = true;
    message = started_at p.name (arrived start none);
    details = details_moved p.name start.id;
  };
  stayed = false;
}

unfoldable pub start_from : ProcedureState → Procedure → String → Option ProcedureStep → MoveOutcome
unfolding start_with refused
start_from s p to none = refused s p.name none to (not_running p.name none (running s)) []
start_from s p to (some start) =
    if str_eq to start.id
    then start_with s p start
    else refused s p.name none to (not_running p.name (some start.id) (running s)) (start.id ∷ [])

-- `_start`
unfoldable pub start : ProcedureState → Procedure → String → MoveOutcome
unfolding start_from startable
start s p to = start_from s p to (startable p)

unfoldable pub accept :
    ProcedureState → String → ProcedureRun → String → ProcedureRun → ProcedureStep → MoveOutcome
unfolding placed arrived previous
accept s name r to moved target = record {
  accepted = true;
  state = placed s moved;
  procedure = name;
  from_step = some r.current;
  to_step = to;
  kind = some target.kind;
  result = record {
    success = true;
    message = arrived_at (arrived target (previous moved.earlier));
    details = details_moved name to;
  };
  stayed = false;
}

abbrev pub is_back : String → List String → Bool
is_back to [] = false
is_back to (p ∷ rest) = str_eq to p

-- `path[:-1]` and `(*path, to)`
abbrev pub gone_back : ProcedureRun → ProcedureRun
gone_back r = elim r.earlier [
  | [] ↦ r
  | p ∷ rest ↦ record { name = r.name; current = p; earlier = rest }
]

abbrev pub gone_to : ProcedureRun → String → ProcedureRun
gone_to r to = record { name = r.name; current = to; earlier = r.current ∷ r.earlier }

-- The moves of a running procedure, the current step and the target found in its graph.
unfoldable pub move_run :
    ProcedureState → String → ProcedureRun → String → ProcedureStep → ProcedureStep → MoveOutcome
unfolding stay accept refused previous has_move allowed
move_run s name r to current target =
    if str_eq to r.current
    then stay s name current (previous r.earlier)
    else if is_back to r.earlier
    then accept s name r to (gone_back r) target
    else if has_move to current.moves
    then accept s name r to (gone_to r to) target
    else refused s name (some r.current) to
        (not_allowed to current.id (allowed_text (some current) (previous r.earlier)))
        (allowed (some current) (previous r.earlier))

unfoldable pub move_found :
    ProcedureState
    → String
    → ProcedureRun
    → String
    → Option ProcedureStep
    → Option ProcedureStep
    → MoveOutcome
unfolding move_run
move_found s name r to (some current) (some target) = move_run s name r to current target
move_found s name r to current _ =
    refused s name (some r.current) to (no_step name to (allowed_text current (previous r.earlier)))
      (allowed current (previous r.earlier))

unfoldable pub move_in :
    ProcedureState → String → String → Option Procedure → Option ProcedureRun → MoveOutcome
unfolding start move_found step
move_in s name to (some p) none = start s p to
move_in s name to (some p) (some r) = move_found s name r to (step p r.current) (step p to)
move_in s name to none _ = refused s name none to (no_procedure name (running s)) []

unfoldable pub move_open : ProcedureState → String → String → Option ProcedureRun → MoveOutcome
unfolding move_in procedure run
move_open s name to (some done) =
    refused s name (some done.current) to (finished_at name done.current (running s)) []
move_open s name to none = move_in s name to (procedure s name) (run s name)

-- `move`
unfoldable pub move : ProcedureState → String → String → MoveOutcome
unfolding move_open finished_run
move s name to = move_open s name to (finished_run s name)
