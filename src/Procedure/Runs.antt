-- ===== src/Procedure/Runs.antt =====
-- domain/procedure_state.py: a call's place in its procedures, and where a call starts.
use turncall.Prelude.{
  String, Bool, false, not, Option, none, some, List, [], ◌∷◌, ◌++◌, map, find, filter, str_eq,
  if◌then◌else◌,
}
use turncall.Procedure.{ProcedureStep, Procedure, step, start_step, is_ending_kind}

-- One running procedure. The source's `path` is `earlier` from its end, then `current`: the step it is
-- at and the steps it came by, the nearest first. A path is never empty.
pub record ProcedureRun : Type 0 where
  pub name : String
  pub current : String
  pub earlier : List String

-- `path[-2] if len(path) > 1 else None`
unfoldable pub previous : List String → Option String
previous [] = none
previous (p ∷ rest) = some p

pub record ProcedureState : Type 0 where
  pub procedures : List Procedure
  pub runs : List ProcedureRun
  pub finished : List ProcedureRun

unfoldable pub procedure : ProcedureState → String → Option Procedure
procedure s name = find (λ p. str_eq p.name name) s.procedures

unfoldable pub run_named : String → List ProcedureRun → Option ProcedureRun
run_named name = find (λ r. str_eq r.name name)

unfoldable pub run : ProcedureState → String → Option ProcedureRun
unfolding run_named
run s name = run_named name s.runs

unfoldable pub finished_run : ProcedureState → String → Option ProcedureRun
unfolding run_named
finished_run s name = run_named name s.finished

abbrev pub step_in : Option Procedure → String → Option ProcedureStep
unfolding step
step_in none id = none
step_in (some p) id = step p id

unfoldable pub current_step : ProcedureState → ProcedureRun → Option ProcedureStep
unfolding procedure step
current_step s r = step_in (procedure s r.name) r.current

abbrev pub ends_at_step : Option ProcedureStep → Bool
ends_at_step none = false
ends_at_step (some s) = is_ending_kind s.kind

unfoldable pub ends_at : ProcedureState → ProcedureRun → Bool
unfolding current_step
ends_at s r = ends_at_step (current_step s r)

abbrev pub without : String → List ProcedureRun → List ProcedureRun
without name = filter (λ r. not (str_eq r.name name))

abbrev pub in_place : ProcedureRun → List ProcedureRun → List ProcedureRun
in_place moved = map (λ r. if str_eq r.name moved.name then moved else r)

abbrev pub put_running : Option ProcedureRun → ProcedureRun → List ProcedureRun → List ProcedureRun
put_running none moved runs = runs ++ moved ∷ []
put_running (some old) moved runs = in_place moved runs

-- `_placed`
unfoldable pub placed : ProcedureState → ProcedureRun → ProcedureState
unfolding ends_at run
placed s moved =
    if ends_at s moved
    then record s { runs = without moved.name s.runs; finished = s.finished ++ moved ∷ [] }
    else record s { runs = put_running (run s moved.name) moved s.runs }

abbrev pub new_run : String → ProcedureStep → ProcedureRun
new_run name start = record { name = name; current = start.id; earlier = [] }

unfoldable pub start_at : ProcedureState → Procedure → Option ProcedureStep → ProcedureState
unfolding placed
start_at s p none = s
start_at s p (some start) = if str_eq p.start "call" then placed s (new_run p.name start) else s

unfoldable pub start_all : ProcedureState → List Procedure → ProcedureState
unfolding start_at start_step
start_all s [] = s
start_all s (p ∷ rest) = start_all (start_at s p (start_step p)) rest

unfoldable pub at_call_start : List Procedure → ProcedureState
unfolding start_all
at_call_start procedures =
    start_all (record { procedures = procedures; runs = []; finished = [] }) procedures
