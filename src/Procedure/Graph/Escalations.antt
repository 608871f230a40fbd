-- ===== src/Procedure/Graph/Escalations.antt =====
-- The check `_escalations` of domain/procedure_graph.py against the graph.
use mathlib.Core.Path.{subst}
use turncall.Prelude.{
  ◌≡◌, ◌↔◌, inl, inr, refl, sym, String, none, List, [], ◌∷◌, contains, arith, eq_iff, str_eq,
  Bool-cases,
}
use turncall.Procedure.{ProcedureStep, Procedure, EscalationAction, transfer, handoff}
use turncall.Procedure.Graph.{
  Formats, action_problem, transfer_modes, step_actions, escalate_problem, other_kind_problem,
  escalation_problem, escalations,
}
use turncall.Procedure.Graph.Routes.{All}
use turncall.Procedure.Graph.Sound.{CanRun, EscalatesWell}
use turncall.Procedure.Graph.Checks.{contains_iff, first_problem_of, unless_none}

action_iff :
    (f : Formats) (id : String) (a : EscalationAction) → (action_problem f id a ≡ none) ↔ CanRun f a
unfolding action_problem
action_iff f id (handoff args) = unless_none (f.is_uuid args.agent_id) _
action_iff f id (transfer args) =
    let (to, from) = contains_iff args.transfer_mode transfer_modes in
    elim (Bool-cases (contains args.transfer_mode transfer_modes)) [
      | inl known ↦ rw known (
        λ e. (to known, (unless_none (f.is_e164 args.target_number) _).0 e),
        λ h. (unless_none (f.is_e164 args.target_number) _).1 h.1,
      )
      | inr other ↦ (λ e. absurd (ground (arith, other, e)), λ h. cc (from h.0))
    ]

-- What the actions of a step must be, by whether it is an escalate step.
escalate_iff :
    (f : Formats) (id : String) (as_ : List EscalationAction)
    → (escalate_problem f id as_ ≡ none) ↔ ((a : EscalationAction) × (as_ ≡ a ∷ []) × CanRun f a)
unfolding escalate_problem
escalate_iff f id [] = (λ e. cc, λ h. cc h.1)
escalate_iff f id (a ∷ []) =
    let (to, from) = action_iff f id a in
    (λ e. (a, refl, to e), λ h. from (subst (λ b. CanRun f b) (sym (first_action a h.0 h.1)) h.2))
  where
    first_action : (a b : EscalationAction) → (a ∷ []) ≡ (b ∷ []) → a ≡ b
    first_action a b e = cc
escalate_iff f id (a ∷ b ∷ rest) = (λ e. cc, λ h. cc h.1)

other_kind_iff :
    (id kind : String) (as_ : List EscalationAction)
    → (other_kind_problem id kind as_ ≡ none) ↔ (as_ ≡ [])
unfolding other_kind_problem
other_kind_iff id kind [] = (λ _. refl, λ _. refl)
other_kind_iff id kind (a ∷ rest) = (λ e. cc, λ e. cc)

escalation_iff :
    (f : Formats) (s : ProcedureStep) → (escalation_problem f s ≡ none) ↔ EscalatesWell f s
unfolding escalation_problem
escalation_iff f s =
    let (one, back_one) = escalate_iff f s.id (step_actions s.escalate) in
    let (bare, is_bare) = other_kind_iff s.id s.kind (step_actions s.escalate) in
    let (equal, is_equal) = eq_iff s.kind "escalate" in
    elim (Bool-cases (str_eq s.kind "escalate")) [
      | inl yes_it ↦ rw yes_it (
        λ e. inl (equal yes_it, one e),
        λ h. elim h [ inl it ↦ back_one it.1 | inr not_it ↦ absurd (not_it.0 (equal yes_it)) ],
      )
      | inr no_it ↦ rw no_it (
        λ e. inr (λ (k : s.kind ≡ "escalate"). cc (is_equal k), bare e),
        λ h. elim h [ inl it ↦ cc (is_equal it.0) | inr not_it ↦ is_bare not_it.1 ],
      )
    ]

pub escalations_iff :
    (f : Formats) (p : Procedure) → (escalations f p ≡ none) ↔ All (EscalatesWell f) p.steps
unfolding escalations
escalations_iff f p = first_problem_of _ (EscalatesWell f) p.steps (escalation_iff f)
