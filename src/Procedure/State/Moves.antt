-- ===== src/Procedure/State/Moves.antt =====
-- What a reported move does, over all its outcomes and over any sequence of moves.
use mathlib.Core.Path.{subst}
use turncall.Prelude.{
  ap, ◌∙◌, ◌≡◌, ◌⊎◌, ◌↔◌, refl, String, true, false, Option, none, some, List, [], ◌∷◌, find,
  str_eq, if◌then◌else◌, arith, eq_iff, Bool-cases, inl, inr,
}
use turncall.Procedure.{ProcedureStep, Procedure, step, start_step, has_move}
use turncall.Procedure.Runs.{
  ProcedureRun, ProcedureState, procedure, run, finished_run, placed, new_run,
}
use turncall.Procedure.State.{
  is_back, gone_back, gone_to, refused, startable, start_with, start_from, start, move_run,
  move_found, move_in, move_open, move,
}
use turncall.Procedure.State.Invariant.{
  Walk, OnRoute, AllRuns-run_named, IsValid, placed-IsValid, runs_of-none,
}

-- A move that is not accepted, whether it is refused or names the step where the procedure already
-- is, leaves the call's state as it was.
pub unaccepted_unchanged :
    (s : ProcedureState) (name to : String)
    → (move s name to).accepted ≡ false
    → (move s name to).state ≡ s
unfolding move
unaccepted_unchanged s name to h = ground arith

-- The result of a reported move says success exactly when the move was accepted or names the step where
-- the procedure already is.
pub success_iff :
    (s : ProcedureState) (name to : String)
    → ((move s name to).result.success ≡ true)
      ↔ (((move s name to).accepted ≡ true) ⊎ ((move s name to).stayed ≡ true))
unfolding move
success_iff s name to = ground arith

pub find-name :
    (s : ProcedureState) (name : String) {g : Procedure} → procedure s name ≡ some g → g.name ≡ name
unfolding procedure
find-name s name {g} = go s.procedures
  where
    go : (ps : List Procedure) → find (λ p. str_eq p.name name) ps ≡ some g → g.name ≡ name
    go [] e = cc
    go (p ∷ ps) e = ground (arith, eq_iff p.name name, go ps)

gone_back-Walk :
    (g : Procedure) (r : ProcedureRun)
    → Walk g r.current r.earlier
    → Walk g (gone_back r).current (gone_back r).earlier
gone_back-Walk g r w = go r.earlier w
  where
    go :
        (earlier : List String)
        → Walk g r.current earlier
        → let b = gone_back (record r { earlier = earlier }) in Walk g b.current b.earlier
    go [] w = w
    go (p ∷ rest) w = w.1

name-gone_back : (r : ProcedureRun) → (gone_back r).name ≡ r.name
name-gone_back r = ground arith

pub move_run-state :
    (s : ProcedureState) (name : String) (r : ProcedureRun) (to : String) (c t : ProcedureStep)
    → (move_run s name r to c t).state ≡ (
        if str_eq to r.current
        then s
        else if is_back to r.earlier
        then placed s (gone_back r)
        else if has_move to c.moves
        then placed s (gone_to r to)
        else s)
unfolding move_run
move_run-state s name r to c t = ground arith

-- The moves of a procedure that is running, at a state that is valid.
module _ (s : ProcedureState) (name : String) (r : ProcedureRun) (g : Procedure) (v : IsValid s)
    (graph : procedure s name ≡ some g) (here : run s name ≡ some r)
    (unfinished : finished_run s name ≡ none) where
  run_facts : Walk g r.current r.earlier × (r.name ≡ name)
  unfolding run
  run_facts =
      let ((g', found, walk), named) =
        AllRuns-run_named (OnRoute s) name s.runs r here v.runs_on_route in
      let same : g' ≡ g = cc (ap (procedure s) named) in
      (subst (λ x. Walk x r.current r.earlier) same walk, named)

  put-IsValid :
      (moved : ProcedureRun)
      → moved.name ≡ name
      → Walk g moved.current moved.earlier
      → IsValid (placed s moved)
  unfolding finished_run
  put-IsValid moved named walk =
      placed-IsValid s moved v (g, rw named graph, walk)
        (rw named (runs_of-none name s.finished unfinished))

  move_run-IsValid :
      (to : String) (c t : ProcedureStep)
      → step g r.current ≡ some c
      → IsValid (move_run s name r to c t).state
  move_run-IsValid to c t at =
      let (walk, named) = run_facts in
      let back = put-IsValid (gone_back r) (name-gone_back r ∙ named) (gone_back-Walk g r walk) in
      rw move_run-state (elim (Bool-cases (str_eq to r.current)) [
        | inl stays ↦ rw stays v
        | inr leaves ↦ elim (Bool-cases (is_back to r.earlier)) [
          | inl goes_back ↦ rw (leaves, goes_back) back
          | inr onward ↦ elim (Bool-cases (has_move to c.moves)) [
            | inl allowed ↦
                rw (leaves, onward, allowed)
                  (put-IsValid (gone_to r to) named ((c, at, allowed), walk))
            | inr not_allowed ↦ rw (leaves, onward, not_allowed) v
          ]
        ]
      ])

  move_found-IsValid :
      (to : String) (c t : Option ProcedureStep)
      → step g r.current ≡ c
      → IsValid (move_found s name r to c t).state
  unfolding move_found
  move_found-IsValid to (some c) (some t) at = move_run-IsValid to c t at
  move_found-IsValid to none t at = v
  move_found-IsValid to (some c) none at = v

first_is :
    (g : Procedure) (first : ProcedureStep) → startable g ≡ some first → start_step g ≡ some first
unfolding startable
first_is g first e = ground arith

start-IsValid :
    (s : ProcedureState) (name to : String) (g : Procedure)
    → IsValid s
    → procedure s name ≡ some g
    → finished_run s name ≡ none
    → IsValid (start s g to).state
unfolding start start_from start_with refused finished_run
start-IsValid s name to g v graph unfinished = go (startable g) refl
  where
    named : g.name ≡ name
    named = find-name s name graph

    go :
        (first : Option ProcedureStep)
        → startable g ≡ first
        → IsValid (start_from s g to first).state
    go none e = v
    go (some first) e = elim (Bool-cases (str_eq to first.id)) [
      | inl at ↦ rw at (
          placed-IsValid s (new_run g.name first) v
            (g, ap (procedure s) named ∙ graph, (first, first_is g first e, refl))
            (rw named (runs_of-none name s.finished unfinished)))
      | inr other ↦ rw other v
    ]

move_in-IsValid :
    (s : ProcedureState) (name to : String) (g : Option Procedure) (r : Option ProcedureRun)
    → IsValid s
    → finished_run s name ≡ none
    → procedure s name ≡ g
    → run s name ≡ r
    → IsValid (move_in s name to g r).state
unfolding move_in
move_in-IsValid s name to (some g) none v unfinished graph here =
    start-IsValid s name to g v graph unfinished
move_in-IsValid s name to (some g) (some r) v unfinished graph here =
    move_found-IsValid s name r g v graph here unfinished to (step g r.current) (step g to) refl
move_in-IsValid s name to none (some r) v unfinished graph here = v
move_in-IsValid s name to none none v unfinished graph here = v

-- Whatever is reported, a move keeps the invariant: the path of every run stays a walk of its graph
-- from the start step, a procedure is under way or finished at most once, and the finished ones are
-- exactly those at an ending step.
pub move-IsValid :
    (s : ProcedureState) (name to : String) → IsValid s → IsValid (move s name to).state
unfolding move move_open
move-IsValid s name to v = go (finished_run s name) refl
  where
    go :
        (done : Option ProcedureRun)
        → finished_run s name ≡ done
        → IsValid (move_open s name to done).state
    go (some done) e = v
    go none e = move_in-IsValid s name to (procedure s name) (run s name) v e refl refl

-- The moves of a call, one after the other.
unfoldable pub move_all : ProcedureState → List (String × String) → ProcedureState
move_all s [] = s
move_all s ((name, to) ∷ rest) = move_all (move s name to).state rest

-- Any sequence of reported moves, of any procedures, keeps the invariant: every run came by a walk of its
-- graph from the start step, those running are at no ending step and those finished at one, and no
-- procedure is under way or finished twice.
pub move_all-IsValid :
    (s : ProcedureState) (moves : List (String × String)) → IsValid s → IsValid (move_all s moves)
unfolding move_all
move_all-IsValid s [] v = v
move_all-IsValid s ((name, to) ∷ rest) v =
    move_all-IsValid (move s name to).state rest (move-IsValid s name to v)
