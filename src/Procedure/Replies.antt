-- ===== src/Procedure/Replies.antt =====
-- domain/procedure_state.py: what the model reads of a move, as data. `json.dumps` and the wording of
-- the texts are left out; what each text says is kept.
use turncall.Prelude.{
  String, Bool, Option, none, some, List, [], ◌∷◌, ◌++◌, map, contains, str_eq, if◌then◌else◌,
}
use turncall.Procedure.{ProcedureMove, ProcedureStep, is_ending_kind}

-- A move that may come next: "<to> (when <when>)", or "back to <step>".
pub data Part : Type 0 where
  forward : (to when : String) → Part
  back_to : (id : String) → Part

abbrev targets : List ProcedureMove → List String
targets = map (λ m. m.to)

-- `_next_text`; the text is empty exactly when there is no part.
unfoldable pub next_text : ProcedureStep → Option String → List Part
next_text s none = map (λ m. forward m.to m.when) s.moves
next_text s (some back) =
    map (λ m. forward m.to m.when) s.moves
    ++ (if contains back (targets s.moves) then [] else back_to back ∷ [])

-- `_allowed`
unfoldable pub allowed : Option ProcedureStep → Option String → List String
allowed none none = []
allowed none (some back) = back ∷ []
allowed (some s) none = targets s.moves
allowed (some s) (some back) =
    if contains back (targets s.moves) then targets s.moves else targets s.moves ++ back ∷ []

pub data AllowedText : Type 0 where
  no_move_here : AllowedText
  allowed_from : (id : String) (parts : List Part) → AllowedText

-- `_allowed_text`; with no part it says that no move is allowed from that step.
unfoldable pub allowed_text : Option ProcedureStep → Option String → AllowedText
unfolding next_text
allowed_text none back = no_move_here
allowed_text (some s) back = allowed_from s.id (next_text s back)

-- `_arrived`: where the move led, the tool to call there, and the moves after it.
pub record Arrival : Type 0 where
  pub id : String
  pub kind : String
  pub text : String
  pub tool : Option String
  pub is_finished : Bool
  pub nexts : List Part

-- `if step.tool`: an empty text is no tool.
unfoldable pub tool_named : Option String → Option String
tool_named none = none
tool_named (some tool) = if str_eq tool "" then none else some tool

unfoldable pub arrived : ProcedureStep → Option String → Arrival
unfolding tool_named next_text
arrived s back = record {
  id = s.id;
  kind = s.kind;
  text = s.text;
  tool = tool_named s.tool;
  is_finished = is_ending_kind s.kind;
  nexts = if is_ending_kind s.kind then [] else next_text s back;
}

pub data Message : Type 0 where
  finished_at : (procedure step : String) (running : List String) → Message
  no_procedure : (procedure : String) (running : List String) → Message
  no_step : (procedure step : String) → AllowedText → Message
  not_allowed : (to from : String) → AllowedText → Message
  stay_at : (step : String) → AllowedText → Message
  arrived_at : Arrival → Message
  started_at : (procedure : String) → Arrival → Message
  not_running : (procedure : String) (start : Option String) (running : List String) → Message

pub data Details : Type 0 where
  details_moved details_stayed : (procedure step : String) → Details
  details_refused : (procedure : String) (at : Option String) (allowed : List String) → Details

pub record Result : Type 0 where
  pub success : Bool
  pub message : Message
  pub details : Details
