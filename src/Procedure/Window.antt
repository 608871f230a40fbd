-- ===== src/Procedure/Window.antt =====
-- domain/procedure_window.py: what the model is shown of a procedure on one turn, as data: what each
-- line says is kept, its wording is not.
pub mod Counted
pub mod Near
pub mod Layers
pub mod Covers
use turncall.Prelude.{
  ℕ, zero, suc, String, Bool, true, false, Option, none, some, List, [], ◌∷◌, ◌++◌, map, filter,
  contains, str_eq, if◌then◌else◌,
}
use turncall.Procedure.{ℤ, pos, negsuc, ProcedureMove, ProcedureStep, Procedure, step, start_step}
use turncall.Procedure.Runs.{previous}

-- The steps already seen, those of the next frontier, and what was found, each in order.
pub record Ahead : Type 0 where
  pub seen : List String
  pub reached : List ProcedureStep
  pub found : List (ProcedureStep × String)

-- The loop's body: a move's target, found in the procedure or not, from a step.
unfoldable pub see : String → Option ProcedureStep → Ahead → Ahead
see came_from none a = a
see came_from (some target) a = if contains target.id a.seen then a else record {
  seen = target.id ∷ a.seen;
  reached = a.reached ++ target ∷ [];
  found = a.found ++ (target, came_from) ∷ [];
}

unfoldable pub see_moves : Procedure → String → List ProcedureMove → Ahead → Ahead
unfolding see step
see_moves p came_from [] a = a
see_moves p came_from (m ∷ rest) a = see_moves p came_from rest (see came_from (step p m.to) a)

unfoldable pub see_frontier : Procedure → List ProcedureStep → Ahead → Ahead
unfolding see_moves
see_frontier p [] a = a
see_frontier p (s ∷ rest) a = see_frontier p rest (see_moves p s.id s.moves a)

-- `for _ in range(depth)`
unfoldable pub look : ℕ → Procedure → Ahead → Ahead
unfolding see_frontier
look zero p a = a
look (suc n) p a = look n p (see_frontier p a.reached (record a { reached = [] }))

-- `max(depth, 0)`
abbrev pub at_least_zero : ℤ → ℕ
at_least_zero (pos n) = n
at_least_zero (negsuc n) = zero

abbrev pub at_first : ProcedureStep → Ahead
at_first current = record { seen = current.id ∷ []; reached = current ∷ []; found = [] }

unfoldable pub steps_ahead : Procedure → ProcedureStep → ℤ → List (ProcedureStep × String)
unfolding look
steps_ahead p current depth = (look (at_least_zero depth) p (at_first current)).found

-- One line of the preview; `after` is the step it is reached from, where that is not the current one.
pub record PreviewLine : Type 0 where
  pub id : String
  pub kind : String
  pub tool : Option String
  pub text : String
  pub after : Option String

-- `_kind`: an empty text is no tool.
unfoldable pub kind_tool : Option String → Option String
kind_tool none = none
kind_tool (some tool) = if str_eq tool "" then none else some tool

unfoldable pub preview_line : String → ProcedureStep × String → PreviewLine
unfolding kind_tool
preview_line current_id (s, came_from) = record {
  id = s.id;
  kind = s.kind;
  tool = kind_tool s.tool;
  text = s.text;
  after = if str_eq came_from current_id then none else some came_from;
}

-- `_preview`: no line where nothing is ahead.
unfoldable pub preview : Procedure → ProcedureStep → ℤ → List PreviewLine
unfolding steps_ahead preview_line
preview p current depth = map (preview_line current.id) (steps_ahead p current depth)

-- `_moves`: the moves with their conditions, and the step that a move back leads to. Where both are
-- none, the text says that the procedure ends here.
pub record MoveLines : Type 0 where
  pub forward : List (String × String)
  pub back : Option String

unfoldable pub move_lines : ProcedureStep → List String → MoveLines
unfolding previous
move_lines current earlier = record {
  forward = map (λ m. (m.to, m.when)) current.moves;
  back = previous earlier;
}

abbrev is_escalate : Option ProcedureStep → Bool
is_escalate none = false
is_escalate (some s) = str_eq s.kind "escalate"

-- `_escalation`: the targets of the moves that escalate.
unfoldable pub escalation_targets : Procedure → ProcedureStep → List String
unfolding step
escalation_targets p current =
    map (λ m. m.to) (filter (λ m. is_escalate (step p m.to)) current.moves)

pub record Window : Type 0 where
  pub procedure : String
  pub current : String
  pub kind : String
  pub tool : Option String
  pub text : String
  pub moves : MoveLines
  pub ahead : List PreviewLine
  pub escalate_to : List String

unfoldable pub window_at : Procedure → Option ProcedureStep → List String → ℤ → Option Window
unfolding kind_tool move_lines preview escalation_targets
window_at p none earlier depth = none
window_at p (some current) earlier depth = some (record {
  procedure = p.name;
  current = current.id;
  kind = current.kind;
  tool = kind_tool current.tool;
  text = current.text;
  moves = move_lines current earlier;
  ahead = preview p current depth;
  escalate_to = escalation_targets p current;
})

-- `build_window` at the step `current`, come to by the steps of `earlier`, the nearest first; none is
-- the empty text of a step that the procedure has not.
unfoldable pub build_window : Procedure → String → List String → ℤ → Option Window
unfolding window_at step
build_window p current earlier depth = window_at p (step p current) earlier depth

-- One startable procedure's line: its name, description and start step.
pub record Startable : Type 0 where
  pub name : String
  pub description : String
  pub start_step : String

unfoldable pub startable_line : Procedure → Option ProcedureStep → List Startable → List Startable
startable_line p none rest = rest
startable_line p (some start) rest =
    if str_eq p.start "on_request"
    then record { name = p.name; description = p.description; start_step = start.id } ∷ rest
    else rest

-- `startable_section`; no section where there is no line.
unfoldable pub startable_section : List Procedure → List Startable
unfolding startable_line start_step
startable_section [] = []
startable_section (p ∷ rest) = startable_line p (start_step p) (startable_section rest)
