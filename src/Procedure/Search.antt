-- ===== src/Procedure/Search.antt =====
-- domain/procedure_graph.py: the search of `_all_reachable`.
use turncall.Prelude.{
  ℕ, zero, suc, String, not, Option, none, some, List, [], ◌∷◌, ◌++◌, map, find, length, contains,
  if◌then◌else◌,
}
use turncall.Procedure.{ProcedureMove, ProcedureStep, Procedure, step, start_step}
use turncall.Procedure.Problem.{Problem, unreachable_step, Check}

abbrev pub targets : List ProcedureMove → List String
targets = map (λ m. m.to)

-- The search of `_all_reachable`; the top of the stack `frontier` stands first.
pub record Search : Type 0 where
  pub reached : List String
  pub frontier : List String

unfoldable pub reach_target : Search → String → Search
reach_target s target =
    if contains target s.reached
    then s
    else record { reached = target ∷ s.reached; frontier = target ∷ s.frontier }

unfoldable pub reach_all : Search → List String → Search
unfolding reach_target
reach_all s [] = s
reach_all s (target ∷ rest) = reach_all (reach_target s target) rest

unfoldable pub next_targets : Option ProcedureStep → List String
next_targets none = []
next_targets (some s) = targets s.moves

-- The body of the loop, `id` popped from the frontier.
unfoldable pub visit : Procedure → List String → List String → String → Search
unfolding reach_all step next_targets
visit p reached rest id =
    reach_all (record { reached = reached; frontier = rest }) (next_targets (step p id))

-- The `while` loop, on fuel; `none` when the fuel runs out first.
unfoldable pub explore : ℕ → Procedure → List String → List String → Option (List String)
unfolding visit
explore fuel p reached [] = some reached
explore zero p reached (id ∷ rest) = none
explore (suc fuel) p reached (id ∷ rest) =
    let s = visit p reached rest id in explore fuel p s.reached s.frontier

-- Each id is pushed at most once, and is the start or the target of some move.
unfoldable pub all_targets : List ProcedureStep → List String
all_targets [] = []
all_targets (s ∷ rest) = targets s.moves ++ all_targets rest

unfoldable pub reach_fuel : Procedure → ℕ
unfolding all_targets
reach_fuel p = suc (length (all_targets p.steps))

unfoldable pub reached_from : Procedure → String → Option (List String)
unfolding explore reach_fuel
reached_from p start = explore (reach_fuel p) p (start ∷ []) (start ∷ [])

unfoldable pub unreached : List ProcedureStep → String → List String → Option Problem
unreached steps start reached = elim (find (λ s. not (contains s.id reached)) steps) [
  | none ↦ none
  | some s ↦ some (unreachable_step s.id start)
]

unfoldable pub reach_problem : Procedure → ProcedureStep → Option Problem
unfolding reached_from unreached
reach_problem p start = elim (reached_from p start.id) [
  | none ↦ none
  | some reached ↦ unreached p.steps start.id reached
]

unfoldable pub all_reachable : Check
unfolding reach_problem start_step
all_reachable p = elim (start_step p) [ none ↦ none | some start ↦ reach_problem p start ]
