-- ===== src/Procedure.antt =====
-- domain/procedures.py: guided procedures, graphs of steps that an agent follows on a call. A kind and
-- a start are texts, as in the source: a wrong word is the graph rule's to refuse.
pub mod Problem
pub mod Search
pub mod Graph
pub mod Replies
pub mod Runs
pub mod State
pub mod Window
mod Examples
use turncall.Prelude.{
  ℕ, String, Bool, Option, none, some, List, [], ◌∷◌, ◌++◌, find, contains, str_eq,
}

-- A whole number that may be negative: `negsuc n` is -(n + 1).
pub data ℤ : Type 0 where
  pos : ℕ → ℤ
  negsuc : ℕ → ℤ

pub record ProcedureMove : Type 0 where
  pub to : String
  pub when : String

-- A literal text, or one written from the call's transcript.
pub data Briefing : Type 0 where
  text : String → Briefing
  from_summary : Bool → Briefing

pub record TransferEscalation : Type 0 where
  pub target_number : String
  pub transfer_mode : String
  pub transfer_message : Option String
  pub briefing : Option Briefing
  pub fallback_message : Option String
  pub reason : Option String

pub record HandoffEscalation : Type 0 where
  pub agent_id : String
  pub reason : Option String
  pub context : Option String

-- A built-in tool and its arguments.
pub data EscalationAction : Type 0 where
  transfer : TransferEscalation → EscalationAction
  handoff : HandoffEscalation → EscalationAction

pub record StepEscalation : Type 0 where
  pub transfer_call : Option TransferEscalation
  pub handoff_to_agent : Option HandoffEscalation

abbrev pub tool_of : EscalationAction → String
tool_of (transfer args) = "transfer_call"
tool_of (handoff args) = "handoff_to_agent"

abbrev named {ℓ} : {A : Type ℓ} → (A → EscalationAction) → Option A → List EscalationAction
named tool none = []
named tool (some action) = tool action ∷ []

unfoldable pub actions : StepEscalation → List EscalationAction
actions e = named transfer e.transfer_call ++ named handoff e.handoff_to_agent

abbrev only {ℓ} : {A : Type ℓ} → List A → Option A
only (a ∷ []) = some a
only _ = none

-- The step's one action, or none when it names none or both.
unfoldable pub action : StepEscalation → Option EscalationAction
unfolding actions
action e = only (actions e)

pub record ProcedureStep : Type 0 where
  pub id : String
  pub kind : String
  pub text : String
  pub start : Bool
  pub tool : Option String
  pub moves : List ProcedureMove
  pub escalate : Option StepEscalation

pub record Procedure : Type 0 where
  pub name : String
  pub description : String
  pub start : String
  pub window_depth : ℤ
  pub steps : List ProcedureStep
  pub unreadable : Option String

-- `Procedure.step`: the first step of that id.
unfoldable pub find_step : String → List ProcedureStep → Option ProcedureStep
find_step step_id = find (λ s. str_eq s.id step_id)

unfoldable pub step : Procedure → String → Option ProcedureStep
unfolding find_step
step p step_id = find_step step_id p.steps

unfoldable pub start_step : Procedure → Option ProcedureStep
start_step p = find (λ s. s.start) p.steps

-- `step.kind in ENDING_STEP_KINDS`
abbrev pub is_ending_kind : String → Bool
is_ending_kind kind = contains kind ("end" ∷ "escalate" ∷ [])

-- `any(m.to == to for m in moves)`
unfoldable pub has_move : String → List ProcedureMove → Bool
has_move to moves = turncall.Prelude.any (λ m. str_eq m.to to) moves
