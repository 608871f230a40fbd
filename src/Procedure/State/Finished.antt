-- ===== src/Procedure/State/Finished.antt =====
-- A finished procedure stays finished.
use turncall.Prelude.{
  ◌≡◌, String, Bool, true, false, Option, none, some, List, [], ◌∷◌, ◌++◌, find, str_eq,
  if◌then◌else◌, arith, Bool-cases, inl, inr,
}
use turncall.Procedure.{ProcedureStep, Procedure, step, has_move}
use turncall.Procedure.Runs.{
  ProcedureRun, ProcedureState, procedure, run, finished_run, ends_at, placed,
}
use turncall.Procedure.State.{
  is_back, gone_back, gone_to, startable, start_from, start, move_found, move_in, move_open, move,
}
use turncall.Procedure.State.Moves.{move_run-state, move_all}

-- A move leaves the state, or puts one run in its place.
data IsPlaced (s : ProcedureState) : ProcedureState → Type 0 where
  unmoved : IsPlaced s s
  put : (moved : ProcedureRun) → IsPlaced s (placed s moved)

if-IsPlaced :
    (s a b : ProcedureState) (t : Bool)
    → IsPlaced s a
    → IsPlaced s b
    → IsPlaced s (if t then a else b)
if-IsPlaced s a b true h k = h
if-IsPlaced s a b false h k = k

move_found-IsPlaced :
    (s : ProcedureState) (name to : String) (r : ProcedureRun) (c t : Option ProcedureStep)
    → IsPlaced s (move_found s name r to c t).state
unfolding move_found
move_found-IsPlaced s name to r (some c) (some t) = rw move_run-state (
    if-IsPlaced s _ _ (str_eq to r.current) unmoved (
      if-IsPlaced s _ _ (is_back to r.earlier) (put (gone_back r))
        (if-IsPlaced s _ _ (has_move to c.moves) (put (gone_to r to)) unmoved)))
move_found-IsPlaced s name to r none t = unmoved
move_found-IsPlaced s name to r (some c) none = unmoved

start_from-IsPlaced :
    (s : ProcedureState) (g : Procedure) (to : String) (first : Option ProcedureStep)
    → IsPlaced s (start_from s g to first).state
unfolding start_from
start_from-IsPlaced s g to none = unmoved
start_from-IsPlaced s g to (some first) = elim (Bool-cases (str_eq to first.id)) [
  | inl at ↦ rw at (put _)
  | inr other ↦ rw other unmoved
]

move_in-IsPlaced :
    (s : ProcedureState) (name to : String) (g : Option Procedure) (r : Option ProcedureRun)
    → IsPlaced s (move_in s name to g r).state
unfolding move_in start
move_in-IsPlaced s name to (some g) none = start_from-IsPlaced s g to (startable g)
move_in-IsPlaced s name to (some g) (some r) =
    move_found-IsPlaced s name to r (step g r.current) (step g to)
move_in-IsPlaced s name to none (some r) = unmoved
move_in-IsPlaced s name to none none = unmoved

move-IsPlaced : (s : ProcedureState) (name to : String) → IsPlaced s (move s name to).state
unfolding move move_open
move-IsPlaced s name to = go (finished_run s name)
  where
    go : (done : Option ProcedureRun) → IsPlaced s (move_open s name to done).state
    go (some done) = unmoved
    go none = move_in-IsPlaced s name to (procedure s name) (run s name)

find-append {ℓ} :
    {A : Type ℓ} (p : A → Bool) (xs ys : List A) (a : A)
    → find p xs ≡ some a
    → find p (xs ++ ys) ≡ some a
find-append p [] ys a e = cc
find-append p (x ∷ xs) ys a e = ground (arith, find-append p xs ys a)

finished-placed :
    (s : ProcedureState) (moved : ProcedureRun)
    → (placed s moved).finished ≡ (if ends_at s moved then s.finished ++ moved ∷ [] else s.finished)
unfolding placed
finished-placed s moved = elim (Bool-cases (ends_at s moved)) [ inl e ↦ rw e | inr e ↦ rw e ]

finished-IsPlaced :
    (name : String) (done : ProcedureRun) (s : ProcedureState) {t : ProcedureState}
    → IsPlaced s t
    → finished_run s name ≡ some done
    → finished_run t name ≡ some done
unfolding finished_run
finished-IsPlaced name done s unmoved e = e
finished-IsPlaced name done s (put moved) e =
    rw finished-placed (elim (Bool-cases (ends_at s moved)) [
      | inl ends ↦ rw ends (find-append (λ r. str_eq r.name name) s.finished (moved ∷ []) done e)
      | inr runs ↦ rw runs e
    ])

move_all-finished :
    (s : ProcedureState) (moves : List (String × String)) (name : String) (done : ProcedureRun)
    → finished_run s name ≡ some done
    → finished_run (move_all s moves) name ≡ some done
unfolding move_all
move_all-finished s [] name done e = e
move_all-finished s ((n, t) ∷ rest) name done e =
    move_all-finished (move s n t).state rest name done
      (finished-IsPlaced name done s (move-IsPlaced s n t) e)

move_of_finished :
    (s : ProcedureState) (name to : String) (done : ProcedureRun)
    → finished_run s name ≡ some done
    → (move s name to).accepted ≡ false
unfolding move
move_of_finished s name to done e = rw (e, move)

-- A finished procedure takes no move, and what it reached stands: after any moves of any procedures
-- the same finished run is found, and a move of it is not accepted.
pub finished_stays :
    (s : ProcedureState) (moves : List (String × String)) (name to : String) (done : ProcedureRun)
    → finished_run s name ≡ some done
    → (finished_run (move_all s moves) name ≡ some done)
      × ((move (move_all s moves) name to).accepted ≡ false)
finished_stays s moves name to done e =
    let still = move_all-finished s moves name done e in
    (still, move_of_finished (move_all s moves) name to done still)
