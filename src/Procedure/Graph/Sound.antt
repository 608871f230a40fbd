-- ===== src/Procedure/Graph/Sound.antt =====
-- domain/procedure_graph.py: the graph rule, said of the graph itself instead of by its checks.
use turncall.Prelude.{
  ℕ, ◌≤◌, ◌≡◌, ◌≢◌, ◌⊎◌, String, true, false, Option, none, some, List, [], ◌∷◌, length, contains,
  Among,
}
use turncall.Procedure.{pos, ProcedureStep, Procedure, EscalationAction, transfer, handoff}
use turncall.Procedure.Graph.{Formats, ids, step_actions}
use turncall.Procedure.Graph.Routes.{All, Route}

-- No text stands twice.
abbrev pub Distinct : List String → Type 0
Distinct [] = Unit
Distinct (x ∷ xs) = (contains x xs ≡ false) × Distinct xs

-- The step is marked as the start and no other one is.
abbrev pub SoleStart : ProcedureStep → List ProcedureStep → Type 0
SoleStart s [] = ⊥
SoleStart s (t ∷ rest) =
    ((t ≡ s) × (t.start ≡ true) × All (λ u. u.start ≡ false) rest)
    ⊎ ((t.start ≡ false) × SoleStart s rest)

abbrev pub Ends : List ProcedureStep → Type 0
Ends [] = ⊥
Ends (s ∷ rest) = Among s.kind ("end" ∷ "escalate" ∷ []) ⊎ Ends rest

-- A handoff names an agent's id; a transfer has a known mode and a number to call.
abbrev pub CanRun : Formats → EscalationAction → Type 0
CanRun f (handoff args) = f.is_uuid args.agent_id ≡ true
CanRun f (transfer args) =
    Among args.transfer_mode ("warm" ∷ "cold" ∷ []) × (f.is_e164 args.target_number ≡ true)

-- An escalate step has one action and can run it, and a step of another kind has none.
abbrev pub EscalatesWell : Formats → ProcedureStep → Type 0
EscalatesWell f s =
    ((s.kind ≡ "escalate")
      × ((a : EscalationAction) × (step_actions s.escalate ≡ a ∷ []) × CanRun f a))
    ⊎ ((s.kind ≢ "escalate") × (step_actions s.escalate ≡ []))

-- A step's tool, if it has one, can be called; no condition where nobody knows what can be.
abbrev pub CanCall : Option (List String) → Option String → Type 0
CanCall none tool = Unit
CanCall (some callable) none = Unit
CanCall (some callable) (some tool) = Among tool callable

-- A procedure that can be followed from its start to an ending, within the caps.
pub record IsSound (f : Formats) (callable : Option (List String)) (p : Procedure) : Type 0 where
  pub is_read : p.unreadable ≡ none
  pub start_known : Among p.start ("call" ∷ "on_request" ∷ [])
  pub kinds_known :
      All (λ s. Among s.kind ("ask" ∷ "instruct" ∷ "check" ∷ "escalate" ∷ "end" ∷ [])) p.steps
  pub few_steps : length p.steps ≤ 50
  pub depth_capped : (n : ℕ) × (p.window_depth ≡ pos n) × (n ≤ 5)
  pub ids_distinct : Distinct (ids p.steps)
  pub moves_land : All (λ s. All (λ m. Among m.to (ids p.steps)) s.moves) p.steps
  pub ends : Ends p.steps
  pub escalates : All (EscalatesWell f) p.steps
  pub tools_callable : All (λ s. CanCall callable s.tool) p.steps
  pub from_start : (s : ProcedureStep) × SoleStart s p.steps × All (λ t. Route p s.id t.id) p.steps
