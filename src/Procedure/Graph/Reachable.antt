-- ===== src/Procedure/Graph/Reachable.antt =====
-- `_all_reachable` accepts a graph exactly when every step has a route from the start.
use mathlib.Core.Path.{subst}
use turncall.Prelude.{
  ℕ, zero, suc, ◌≡◌, ◌↔◌, refl, String, true, none, some, List, [], ◌∷◌, contains, if◌then◌else◌,
  arith, eq_iff, eq_refl, Bool-cases, inl, inr,
}
use turncall.Procedure.{ProcedureStep, Procedure, step, start_step}
use turncall.Procedure.Problem.{unreachable_step}
use turncall.Procedure.Search.{
  reach_fuel, next_targets, visit, explore, reached_from, unreached, reach_problem, all_reachable,
}
use turncall.Procedure.Graph.Reach.{AllIn, reached_from_total}
use turncall.Procedure.Graph.Routes.{
  Route, at_start, by_move, All, All-contains, IsClosed, reached-reach_all, explore-Route,
  explore-IsClosed,
}

AllIn-contains :
    (all ts : List String) (t : String)
    → AllIn all ts
    → contains t ts ≡ true
    → contains t all ≡ true
AllIn-contains all [] t h e = cc
AllIn-contains all (x ∷ ts) t h e = ground (arith, eq_iff t x, AllIn-contains all ts t h.1)

explore_keeps :
    (x : String) (fuel : ℕ) (p : Procedure) (reached frontier r : List String)
    → explore fuel p reached frontier ≡ some r
    → contains x reached ≡ true
    → contains x r ≡ true
unfolding explore visit
explore_keeps x zero p reached [] r e h = subst (λ l. contains x l ≡ true) (cc) h
explore_keeps x (suc fuel) p reached [] r e h = subst (λ l. contains x l ≡ true) (cc) h
explore_keeps x zero p reached (id ∷ rest) r e h = cc
explore_keeps x (suc fuel) p reached (id ∷ rest) r e h = explore_keeps x fuel p _ _ r e (
    reached-reach_all x (record { reached = reached; frontier = rest }) (next_targets (step p id))
      h)

-- A closed set that holds the start holds all that has a route.
Route-closed :
    (p : Procedure) (start : String) (r : List String) {x : String}
    → IsClosed p r []
    → contains start r ≡ true
    → Route p start x
    → contains x r ≡ true
Route-closed p start r closed h at_start = h
Route-closed p start r closed h (by_move {id = id} {to = to} before m) =
    elim (closed id (Route-closed p start r closed h before)) [
      | inl waits ↦ cc
      | inr done ↦ AllIn-contains r (next_targets (step p id)) to done m
    ]

unreached-cons :
    (s : ProcedureStep) (rest : List ProcedureStep) (start : String) (reached : List String)
    → unreached (s ∷ rest) start reached ≡ (
        if contains s.id reached
        then unreached rest start reached
        else some (unreachable_step s.id start))
unfolding unreached
unreached-cons s rest start reached = ground arith

unreached_iff :
    (steps : List ProcedureStep) (start : String) (reached : List String)
    → (unreached steps start reached ≡ none) ↔ All (λ s. contains s.id reached ≡ true) steps
unreached_iff [] start reached = (λ _. tt, λ _. unfold unreached in refl)
unreached_iff (s ∷ rest) start reached =
    let (to, from) = unreached_iff rest start reached in
    rw unreached-cons (elim (Bool-cases (contains s.id reached)) [
      | inl in_it ↦ rw in_it (λ e. (refl, to e), λ h. from h.1)
      | inr out ↦ rw out (λ e. cc, λ h. cc h.0)
    ])

All-map :
    (P Q : ProcedureStep → Type 0) (steps : List ProcedureStep)
    → ((s : ProcedureStep) → P s → Q s)
    → All P steps
    → All Q steps
All-map P Q [] f h = tt
All-map P Q (s ∷ rest) f h = (f s h.0, All-map P Q rest f h.1)

all_reachable-eq :
    (p : Procedure) (s : ProcedureStep) (r : List String)
    → start_step p ≡ some s
    → reached_from p s.id ≡ some r
    → all_reachable p ≡ unreached p.steps s.id r
unfolding all_reachable
all_reachable-eq p s r started found = rw (started, all_reachable) (rw (found, reach_problem))

-- For a procedure with a start step, the check accepts exactly when every step has a route of moves
-- from the start step.
pub all_reachable_iff :
    (p : Procedure) (s : ProcedureStep)
    → start_step p ≡ some s
    → (all_reachable p ≡ none) ↔ All (λ t. Route p s.id t.id) p.steps
unfolding reached_from
all_reachable_iff p s started =
    let (r, found) = reached_from_total p s.id in
    let (to, from) = unreached_iff p.steps s.id r in
    rw (all_reachable-eq p s r started found) (
      λ e.
          All-map _ _ p.steps (λ t h. All-contains (Route p s.id) t.id r h (reached_Route r found))
            (to e),
      λ h.
          from (
            All-map _ _ p.steps (λ t. Route-closed p s.id r (closed r found) (has_start r found))
              h),
    )
  where
    reached_Route : (r : List String) → reached_from p s.id ≡ some r → All (Route p s.id) r
    reached_Route r found =
        explore-Route p s.id (reach_fuel p) (s.id ∷ []) (s.id ∷ []) r found (at_start, tt)
          (at_start, tt)

    closed : (r : List String) → reached_from p s.id ≡ some r → IsClosed p r []
    closed r found =
        explore-IsClosed (reach_fuel p) p (s.id ∷ []) (s.id ∷ []) r found (λ x h. inl h)

    has_start : (r : List String) → reached_from p s.id ≡ some r → contains s.id r ≡ true
    has_start r found =
        explore_keeps s.id (reach_fuel p) p (s.id ∷ []) (s.id ∷ []) r found
          (ground (arith, eq_refl s.id))
