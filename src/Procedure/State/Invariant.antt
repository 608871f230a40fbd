-- ===== src/Procedure/State/Invariant.antt =====
-- What holds of a call's place in its procedures between two moves.
use mathlib.Core.Path.{subst}
use turncall.Prelude.{
  ℕ, ◌+◌, ◌≤◌, ◌≡◌, refl, String, true, false, none, some, List, [], ◌∷◌, ◌++◌, str_eq,
  if◌then◌else◌, arith, eq_iff, Bool-cases, Option-cases, inl, inr,
}
use turncall.Procedure.{ProcedureStep, Procedure, step, start_step, has_move}
use turncall.Procedure.Runs.{
  ProcedureRun, ProcedureState, procedure, run_named, ends_at, without, in_place, placed,
}

-- The path is a walk of the graph: it begins at the start step, and each step of it allows the move
-- to the next.
abbrev pub Walk : Procedure → String → List String → Type 0
Walk g current [] = (s : ProcedureStep) × (start_step g ≡ some s) × (s.id ≡ current)
Walk g current (p ∷ rest) =
    ((s : ProcedureStep) × (step g p ≡ some s) × (has_move current s.moves ≡ true)) × Walk g p rest

abbrev pub OnRoute : ProcedureState → ProcedureRun → Type 0
OnRoute s r = (g : Procedure) × (procedure s r.name ≡ some g) × Walk g r.current r.earlier

abbrev pub AllRuns : (ProcedureRun → Type 0) → List ProcedureRun → Type 0
AllRuns P [] = Unit
AllRuns P (r ∷ rest) = P r × AllRuns P rest

-- How many runs have that name.
abbrev pub runs_of : String → List ProcedureRun → ℕ
runs_of name [] = 0
runs_of name (r ∷ rest) = (if str_eq r.name name then 1 else 0) + runs_of name rest

-- Every run came by a walk of its graph; those running are at no ending step and those finished are at
-- one; and no procedure is under way, or finished, twice.
pub record IsValid (s : ProcedureState) : Type 0 where
  pub runs_on_route : AllRuns (OnRoute s) s.runs
  pub finished_on_route : AllRuns (OnRoute s) s.finished
  pub runs_open : AllRuns (λ r. ends_at s r ≡ false) s.runs
  pub finished_ended : AllRuns (λ r. ends_at s r ≡ true) s.finished
  pub named_once : (name : String) → runs_of name s.runs + runs_of name s.finished ≤ 1

module _ (P : ProcedureRun → Type 0) where
  AllRuns-append :
      (rs : List ProcedureRun) (r : ProcedureRun) → AllRuns P rs → P r → AllRuns P (rs ++ r ∷ [])
  AllRuns-append [] r all p = (p, tt)
  AllRuns-append (q ∷ rs) r all p = (all.0, AllRuns-append rs r all.1 p)

  AllRuns-without :
      (name : String) (rs : List ProcedureRun) → AllRuns P rs → AllRuns P (without name rs)
  AllRuns-without name [] all = tt
  AllRuns-without name (r ∷ rs) all = elim (Bool-cases (str_eq r.name name)) [
    | inl same ↦ rw same (AllRuns-without name rs all.1)
    | inr other ↦ rw other (all.0, AllRuns-without name rs all.1)
  ]

  AllRuns-in_place :
      (moved : ProcedureRun) (rs : List ProcedureRun)
      → AllRuns P rs
      → P moved
      → AllRuns P (in_place moved rs)
  AllRuns-in_place moved [] all p = tt
  AllRuns-in_place moved (r ∷ rs) all p = elim (Bool-cases (str_eq r.name moved.name)) [
    | inl same ↦ rw same (p, AllRuns-in_place moved rs all.1 p)
    | inr other ↦ rw other (all.0, AllRuns-in_place moved rs all.1 p)
  ]

  -- The run that is found has the name, and what all have.
  pub AllRuns-run_named :
      (name : String) (rs : List ProcedureRun) (r : ProcedureRun)
      → run_named name rs ≡ some r
      → AllRuns P rs
      → P r × (r.name ≡ name)
  unfolding run_named
  AllRuns-run_named name [] r e all = cc
  AllRuns-run_named name (q ∷ rs) r e all = elim (Bool-cases (str_eq q.name name)) [
    | inl same ↦
        let e' : q ≡ r = ground arith in
        (subst P e' all.0, subst (λ x. x.name ≡ name) e' ((eq_iff q.name name).0 same))
    | inr other ↦ AllRuns-run_named name rs r (ground arith) all.1
  ]

module _ (j : String) where
  pub runs_of-append :
      (rs : List ProcedureRun) (r : ProcedureRun)
      → runs_of j (rs ++ r ∷ []) ≡ runs_of j rs + runs_of j (r ∷ [])
  runs_of-append [] r = omega arith
  runs_of-append (q ∷ rs) r = omega (arith, runs_of-append rs r)

  pub runs_of-without :
      (name : String) (rs : List ProcedureRun)
      → runs_of j (without name rs) ≡ (if str_eq name j then 0 else runs_of j rs)
  runs_of-without name [] = ground arith
  runs_of-without name (r ∷ rs) =
      ground (arith, eq_iff r.name name, eq_iff r.name j, eq_iff name j, runs_of-without name rs)

  pub runs_of-in_place :
      (moved : ProcedureRun) (rs : List ProcedureRun) → runs_of j (in_place moved rs) ≡ runs_of j rs
  runs_of-in_place moved [] = refl
  runs_of-in_place moved (r ∷ rs) = ground (
    arith,
    eq_iff r.name moved.name,
    eq_iff r.name j,
    eq_iff moved.name j,
    runs_of-in_place moved rs,
  )

  pub runs_of-none : (rs : List ProcedureRun) → run_named j rs ≡ none → runs_of j rs ≡ 0
  unfolding run_named
  runs_of-none [] e = refl
  runs_of-none (r ∷ rs) e = ground (arith, runs_of-none rs)

  runs_of-some :
      (rs : List ProcedureRun) (r : ProcedureRun) → run_named j rs ≡ some r → 1 ≤ runs_of j rs
  unfolding run_named
  runs_of-some [] r e = cc
  runs_of-some (q ∷ rs) r e = ground (arith, runs_of-some rs r)

pub placed_ended :
    (s : ProcedureState) (moved : ProcedureRun)
    → ends_at s moved ≡ true
    → placed s moved
      ≡ record s { runs = without moved.name s.runs; finished = s.finished ++ moved ∷ [] }
unfolding placed
placed_ended s moved e = rw e

pub placed_new :
    (s : ProcedureState) (moved : ProcedureRun)
    → ends_at s moved ≡ false
    → run_named moved.name s.runs ≡ none
    → placed s moved ≡ record s { runs = s.runs ++ moved ∷ [] }
unfolding placed
placed_new s moved e n = rw (e, n)

pub placed_old :
    (s : ProcedureState) (moved old : ProcedureRun)
    → ends_at s moved ≡ false
    → run_named moved.name s.runs ≡ some old
    → placed s moved ≡ record s { runs = in_place moved s.runs }
unfolding placed
placed_old s moved old e n = rw (e, n)

-- Putting a run that came by a walk in its place keeps the invariant, if it is not finished before.
module _ (s : ProcedureState) (moved : ProcedureRun) (v : IsValid s) (route : OnRoute s moved)
    (unfinished : runs_of moved.name s.finished ≡ 0) where
  ended-IsValid :
      ends_at s moved ≡ true
      → IsValid (record s { runs = without moved.name s.runs; finished = s.finished ++ moved ∷ [] })
  unfolding procedure ends_at
  ended-IsValid e = record {
    runs_on_route = AllRuns-without (OnRoute s) moved.name s.runs v.runs_on_route;
    finished_on_route = AllRuns-append (OnRoute s) s.finished moved v.finished_on_route route;
    runs_open = AllRuns-without (λ r. ends_at s r ≡ false) moved.name s.runs v.runs_open;
    finished_ended = AllRuns-append (λ r. ends_at s r ≡ true) s.finished moved v.finished_ended e;
    named_once = λ j. ground (
      arith,
      v.named_once j,
      runs_of-without j moved.name s.runs,
      runs_of-append j s.finished moved,
      eq_iff moved.name j,
      unfinished,
    );
  }

  new-IsValid :
      ends_at s moved ≡ false
      → run_named moved.name s.runs ≡ none
      → IsValid (record s { runs = s.runs ++ moved ∷ [] })
  unfolding procedure ends_at
  new-IsValid e n = record {
    runs_on_route = AllRuns-append (OnRoute s) s.runs moved v.runs_on_route route;
    finished_on_route = v.finished_on_route;
    runs_open = AllRuns-append (λ r. ends_at s r ≡ false) s.runs moved v.runs_open e;
    finished_ended = v.finished_ended;
    named_once = λ j. ground (
      arith,
      v.named_once j,
      runs_of-append j s.runs moved,
      eq_iff moved.name j,
      runs_of-none moved.name s.runs n,
      unfinished,
    );
  }

  old-IsValid : ends_at s moved ≡ false → IsValid (record s { runs = in_place moved s.runs })
  unfolding procedure ends_at
  old-IsValid e = record {
    runs_on_route = AllRuns-in_place (OnRoute s) moved s.runs v.runs_on_route route;
    finished_on_route = v.finished_on_route;
    runs_open = AllRuns-in_place (λ r. ends_at s r ≡ false) moved s.runs v.runs_open e;
    finished_ended = v.finished_ended;
    named_once = λ j. ground (arith, v.named_once j, runs_of-in_place j moved s.runs);
  }

  pub placed-IsValid : IsValid (placed s moved)
  placed-IsValid = elim (Bool-cases (ends_at s moved)) [
    | inl e ↦ rw (placed_ended s moved e) (ended-IsValid e)
    | inr e ↦ elim (Option-cases (run_named moved.name s.runs)) [
      | inl n ↦ rw (placed_new s moved e n) (new-IsValid e n)
      | inr (old, o) ↦ rw (placed_old s moved old e o) (old-IsValid e)
    ]
  ]
