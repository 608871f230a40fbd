-- ===== src/Procedure/State/Allowed.antt =====
-- Which moves are accepted.
use turncall.Prelude.{◌≡◌, ◌≢◌, ◌⊎◌, ◌↔◌, refl, String, true, Option, none, some, arith, eq_iff}
use turncall.Procedure.{ProcedureStep, Procedure, step, start_step, has_move}
use turncall.Procedure.Runs.{ProcedureRun, ProcedureState, procedure, run, finished_run}
use turncall.Procedure.State.{
  is_back, startable, start_from, start, move_run, move_found, move_in, move_open, move,
}

-- The moves of the procedure's rule: of a procedure that is not finished, either an `on_request` one that
-- is not running goes to its start step, or a running one goes from its step, to another that its
-- graph has, which is the previous one of its path or the target of a move.
pub data IsAllowed (s : ProcedureState) (name to : String) : Type 0 where
  starts :
      (g : Procedure) (first : ProcedureStep)
      → finished_run s name ≡ none
      → run s name ≡ none
      → procedure s name ≡ some g
      → g.start ≡ "on_request"
      → start_step g ≡ some first
      → to ≡ first.id
      → IsAllowed s name to
  goes :
      (g : Procedure) (r : ProcedureRun) (current target : ProcedureStep)
      → finished_run s name ≡ none
      → run s name ≡ some r
      → procedure s name ≡ some g
      → step g r.current ≡ some current
      → step g to ≡ some target
      → to ≢ r.current
      → (is_back to r.earlier ≡ true) ⊎ (has_move to current.moves ≡ true)
      → IsAllowed s name to

move_run-accepted :
    (s : ProcedureState) (name : String) (r : ProcedureRun) (to : String) (c t : ProcedureStep)
    → ((move_run s name r to c t).accepted ≡ true)
      ↔ ((to ≢ r.current) × ((is_back to r.earlier ≡ true) ⊎ (has_move to c.moves ≡ true)))
unfolding move_run
move_run-accepted s name r to c t = ground (arith, eq_iff to r.current)

start_from-accepted :
    (s : ProcedureState) (g : Procedure) (to : String) (first : Option ProcedureStep)
    → (start_from s g to first).accepted ≡ true
    → (f : ProcedureStep) × (first ≡ some f) × (to ≡ f.id)
unfolding start_from
start_from-accepted s g to none e = cc
start_from-accepted s g to (some f) e = (f, refl, ground (arith, eq_iff to f.id))

startable-some :
    (g : Procedure) (f : ProcedureStep)
    → (startable g ≡ some f) ↔ ((g.start ≡ "on_request") × (start_step g ≡ some f))
unfolding startable
startable-some g f = ground (arith, eq_iff g.start "on_request")

module _ (s : ProcedureState) (name to : String) where
  found-IsAllowed :
      (g : Procedure) (r : ProcedureRun) (c t : Option ProcedureStep)
      → finished_run s name ≡ none
      → run s name ≡ some r
      → procedure s name ≡ some g
      → step g r.current ≡ c
      → step g to ≡ t
      → (move_found s name r to c t).accepted ≡ true
      → IsAllowed s name to
  unfolding move_found
  found-IsAllowed g r none t a b d ec et e = cc
  found-IsAllowed g r (some c) none a b d ec et e = cc
  found-IsAllowed g r (some c) (some t) a b d ec et e =
      let (away, how) = (move_run-accepted s name r to c t).0 e in goes g r c t a b d ec et away how

  in-IsAllowed :
      (g : Option Procedure) (r : Option ProcedureRun)
      → finished_run s name ≡ none
      → run s name ≡ r
      → procedure s name ≡ g
      → (move_in s name to g r).accepted ≡ true
      → IsAllowed s name to
  unfolding move_in start
  in-IsAllowed (some g) none a b d e =
      let (f, can, at) = start_from-accepted s g to (startable g) e in
      let (word, first) = (startable-some g f).0 can in starts g f a b d word first at
  in-IsAllowed (some g) (some r) a b d e =
      found-IsAllowed g r (step g r.current) (step g to) a b d refl refl e
  in-IsAllowed none (some r) a b d e = cc
  in-IsAllowed none none a b d e = cc

  open-IsAllowed :
      (done : Option ProcedureRun)
      → finished_run s name ≡ done
      → (move_open s name to done).accepted ≡ true
      → IsAllowed s name to
  unfolding move_open
  open-IsAllowed (some done) a e = cc
  open-IsAllowed none a e = in-IsAllowed (procedure s name) (run s name) a refl refl e

  accepted_of : IsAllowed s name to → (move s name to).accepted ≡ true
  unfolding move start start_from
  accepted_of (starts g f a b d word first at) =
      rw (a, move_open, b, d, (startable-some g f).1 (word, first)) (ground (arith, eq_iff to f.id))
  accepted_of (goes g r c t a b d ec et away how) =
      rw (a, move_open, b, d, ec, et) ((move_run-accepted s name r to c t).1 (away, how))

  -- A reported move is accepted exactly when the procedure's rule allows it: the procedure is not finished,
  -- and either it is an `on_request` one that is not running and the move goes to its start step, or it
  -- runs and the move goes from its step to another one of its graph, the previous one or a move's target.
  pub accepted_iff : ((move s name to).accepted ≡ true) ↔ IsAllowed s name to
  unfolding move
  accepted_iff = (open-IsAllowed (finished_run s name) refl, accepted_of)
