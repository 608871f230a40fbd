-- ===== src/Procedure/Window/Counted.antt =====
-- Each step ahead is shown once, and never the current one.
use turncall.Prelude.{
  ℕ, zero, suc, ◌+◌, ◌≤◌, ◌≡◌, refl, String, Bool, true, false, ◌||◌, Option, none, some, List, [],
  ◌∷◌, ◌++◌, contains, str_eq, arith, eq_iff, Bool-cases, inl, inr, sym,
}
use mathlib.Core.Path.{subst}
use turncall.Procedure.{ℤ, ProcedureMove, ProcedureStep, Procedure, step}
use turncall.Procedure.Window.{
  Ahead, see, see_moves, see_frontier, look, at_least_zero, at_first, steps_ahead,
}

abbrev pub one_if : Bool → ℕ
one_if true = 1
one_if false = 0

-- How often a step of that id was found.
abbrev pub shown : String → List (ProcedureStep × String) → ℕ
shown id [] = 0
shown id (f ∷ rest) = one_if (str_eq id f.0.id) + shown id rest

shown-append :
    (id : String) (fs gs : List (ProcedureStep × String))
    → shown id (fs ++ gs) ≡ shown id fs + shown id gs
shown-append id [] gs = omega arith
shown-append id (f ∷ fs) gs = omega (arith, shown-append id fs gs)

count_new :
    (id new : String) (seen : List String)
    → contains new seen ≡ false
    → one_if (str_eq id new || contains id seen)
      ≡ one_if (str_eq id new) + one_if (contains id seen)
count_new id new seen h = elim (Bool-cases (str_eq id new)) [
  | inl same ↦
      let absent = subst (λ i. contains i seen ≡ false) (sym ((eq_iff id new).0 same)) h in
      rw (same, absent) refl
  | inr other ↦ rw other (omega arith)
]

module _ (p : Procedure) (current id : String) where
  -- What is seen is what was found, and the current step.
  abbrev pub Counts : Ahead → Type 0
  Counts a = shown id a.found + one_if (str_eq id current) ≡ one_if (contains id a.seen)

  see-Counts :
      (came_from : String) (t : Option ProcedureStep) (a : Ahead)
      → Counts a
      → Counts (see came_from t a)
  unfolding see
  see-Counts came_from none a h = h
  see-Counts came_from (some t) a h = elim (Bool-cases (contains t.id a.seen)) [
    | inl known ↦ rw known h
    | inr new ↦ rw new (
        omega
          (arith, shown-append id a.found ((t, came_from) ∷ []), count_new id t.id a.seen new, h))
  ]

  see_moves-Counts :
      (came_from : String) (ms : List ProcedureMove) (a : Ahead)
      → Counts a
      → Counts (see_moves p came_from ms a)
  unfolding see_moves
  see_moves-Counts came_from [] a h = h
  see_moves-Counts came_from (m ∷ ms) a h =
      see_moves-Counts came_from ms (see came_from (step p m.to) a)
        (see-Counts came_from (step p m.to) a h)

  see_frontier-Counts :
      (fr : List ProcedureStep) (a : Ahead) → Counts a → Counts (see_frontier p fr a)
  unfolding see_frontier
  see_frontier-Counts [] a h = h
  see_frontier-Counts (s ∷ fr) a h =
      see_frontier-Counts fr (see_moves p s.id s.moves a) (see_moves-Counts s.id s.moves a h)

  pub look-Counts : (n : ℕ) (a : Ahead) → Counts a → Counts (look n p a)
  unfolding look
  look-Counts zero a h = h
  look-Counts (suc n) a h =
      look-Counts n (see_frontier p a.reached (record a { reached = [] }))
        (see_frontier-Counts a.reached (record a { reached = [] }) h)

pub at_first-Counts :
    (p : Procedure) (current : ProcedureStep) (id : String)
    → Counts p current.id id (at_first current)
at_first-Counts p current id = ground arith

-- The preview shows each step at most once, and never the current one, at whatever depth.
pub ahead_once :
    (p : Procedure) (current : ProcedureStep) (depth : ℤ) (id : String)
    → shown id (steps_ahead p current depth) + one_if (str_eq id current.id) ≤ 1
unfolding steps_ahead
ahead_once p current depth id = ground (
  arith,
  look-Counts p current.id id (at_least_zero depth) (at_first current)
      (at_first-Counts p current id),
)
