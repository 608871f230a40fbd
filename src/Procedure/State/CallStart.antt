-- ===== src/Procedure/State/CallStart.antt =====
-- A call begins in a valid state, if its procedures were let through.
use turncall.Prelude.{
  ◌+◌, ◌≡◌, refl, ◌∙◌, String, true, false, Option, none, some, List, [], ◌∷◌, find, contains,
  str_eq, arith, Bool-cases, Option-cases, inl, inr, eq_iff, eq_refl,
}
use turncall.Procedure.{ProcedureStep, Procedure, start_step}
use turncall.Procedure.Graph.{Formats, procedures_refusal}
use turncall.Procedure.Graph.Accept.{FreshNames, procedures_accepted_iff}
use turncall.Procedure.Graph.Routes.{All}
use turncall.Procedure.Runs.{
  ProcedureRun, ProcedureState, procedure, run_named, ends_at, placed, new_run, start_at, start_all,
  at_call_start,
}
use turncall.Procedure.State.Invariant.{
  IsValid, runs_of, placed-IsValid, placed_ended, placed_new, placed_old, runs_of-append,
  runs_of-without, runs_of-in_place,
}

-- No run has a name outside `seen`.
abbrev Untouched : List String → ProcedureState → Type 0
Untouched seen s =
    (j : String) → contains j seen ≡ false → runs_of j s.runs + runs_of j s.finished ≡ 0

placed-Untouched :
    (seen : List String) (s : ProcedureState) (name : String) (moved : ProcedureRun)
    → moved.name ≡ name
    → Untouched seen s
    → Untouched (name ∷ seen) (placed s moved)
placed-Untouched seen s name moved named u j new = elim (Bool-cases (ends_at s moved)) [
  | inl e ↦ rw (placed_ended s moved e) (
      ground (
        arith,
        u j,
        runs_of-without j moved.name s.runs,
        runs_of-append j s.finished moved,
        eq_iff moved.name j,
        eq_iff j name,
      ))
  | inr e ↦ elim (Option-cases (run_named moved.name s.runs)) [
    | inl n ↦
        rw (placed_new s moved e n)
          (ground (arith, u j, runs_of-append j s.runs moved, eq_iff moved.name j, eq_iff j name))
    | inr (old, o) ↦
        rw (placed_old s moved old e o) (ground (arith, u j, runs_of-in_place j moved s.runs))
  ]
]

procedure-placed :
    (s : ProcedureState) (moved : ProcedureRun) (name : String)
    → procedure (placed s moved) name ≡ procedure s name
unfolding procedure placed
procedure-placed s moved name = elim (Bool-cases (ends_at s moved)) [ inl e ↦ rw e | inr e ↦ rw e ]

-- The state finds each of these procedures under its name.
abbrev Finds : ProcedureState → List Procedure → Type 0
Finds s = All (λ p. procedure s p.name ≡ some p)

Finds-placed :
    (s : ProcedureState) (moved : ProcedureRun) (ps : List Procedure)
    → Finds s ps
    → Finds (placed s moved) ps
Finds-placed s moved [] h = tt
Finds-placed s moved (p ∷ ps) h =
    (procedure-placed s moved p.name ∙ h.0, Finds-placed s moved ps h.1)

record IsStarting (seen : List String) (s : ProcedureState) (rest : List Procedure) : Type 0 where
  valid : IsValid s
  untouched : Untouched seen s
  finds : Finds s rest

Untouched-mono :
    (seen : List String) (name : String) (s : ProcedureState)
    → Untouched seen s
    → Untouched (name ∷ seen) s
Untouched-mono seen name s u j new = u j (ground arith)

start_at-IsStarting :
    (seen : List String) (s : ProcedureState) (p : Procedure) (rest : List Procedure)
    (first : Option ProcedureStep)
    → contains p.name seen ≡ false
    → start_step p ≡ first
    → IsStarting seen s (p ∷ rest)
    → IsStarting (p.name ∷ seen) (start_at s p first) rest
unfolding start_at
start_at-IsStarting seen s p rest none new e h = record {
  valid = h.valid;
  untouched = Untouched-mono seen p.name s h.untouched;
  finds = h.finds.1;
}
start_at-IsStarting seen s p rest (some first) new e h = elim (Bool-cases (str_eq p.start "call")) [
  | inl at_call ↦ rw at_call (record {
    valid =
        placed-IsValid s (new_run p.name first) h.valid (p, h.finds.0, (first, e, refl))
          (omega (arith, h.untouched p.name new));
    untouched = placed-Untouched seen s p.name (new_run p.name first) refl h.untouched;
    finds = Finds-placed s (new_run p.name first) rest h.finds.1;
  })
  | inr later ↦ rw later (record {
    valid = h.valid;
    untouched = Untouched-mono seen p.name s h.untouched;
    finds = h.finds.1;
  })
]

start_all-IsValid :
    (seen : List String) (s : ProcedureState) (ps : List Procedure)
    → FreshNames seen ps
    → IsStarting seen s ps
    → IsValid (start_all s ps)
unfolding start_all
start_all-IsValid seen s [] fresh h = h.valid
start_all-IsValid seen s (p ∷ ps) fresh h =
    start_all-IsValid (p.name ∷ seen) (start_at s p (start_step p)) ps fresh.1
      (start_at-IsStarting seen s p ps (start_step p) fresh.0 refl h)

-- The first procedures with other names do not hide the later ones.
finds_later :
    (a : String) (seen : List String) (ps : List Procedure)
    → contains a seen ≡ true
    → FreshNames seen ps
    → All (λ q. str_eq a q.name ≡ false) ps
finds_later a seen [] h fresh = tt
finds_later a seen (q ∷ ps) h fresh =
    (ground (arith, eq_iff a q.name), finds_later a (q.name ∷ seen) ps (ground arith) fresh.1)

abbrev named : String → List Procedure → Option Procedure
named name = find (λ p. str_eq p.name name)

finds-cons :
    (p : Procedure) (ps qs : List Procedure)
    → All (λ q. str_eq p.name q.name ≡ false) qs
    → All (λ q. named q.name ps ≡ some q) qs
    → All (λ q. named q.name (p ∷ ps) ≡ some q) qs
finds-cons p ps [] other h = tt
finds-cons p ps (q ∷ qs) other h = (rw other.0 h.0, finds-cons p ps qs other.1 h.1)

finds_self :
    (seen : List String) (ps : List Procedure)
    → FreshNames seen ps
    → All (λ q. named q.name ps ≡ some q) ps
finds_self seen [] fresh = tt
finds_self seen (p ∷ ps) fresh = (
  rw (eq_refl p.name),
  finds-cons p ps ps
      (finds_later p.name (p.name ∷ seen) ps (ground (arith, eq_refl p.name)) fresh.1)
      (finds_self (p.name ∷ seen) ps fresh.1),
)

-- A call whose procedures were let through begins in a valid state: what is under way or finished came by
-- a walk of its graph, is finished exactly at an ending step, and is there only once.
pub call_start-IsValid :
    (f : Formats) (callable : Option (List String)) (ps : List Procedure)
    → procedures_refusal f callable ps ≡ none
    → IsValid (at_call_start ps)
unfolding at_call_start procedure
call_start-IsValid f callable ps accepted =
    let fresh = ((procedures_accepted_iff f callable ps).0 accepted).0 in
    start_all-IsValid [] (record { procedures = ps; runs = []; finished = [] }) ps fresh
      (record {
        valid = record {
          runs_on_route = tt;
          finished_on_route = tt;
          runs_open = tt;
          finished_ended = tt;
          named_once = λ j. omega arith;
        };
        untouched = λ j new. refl;
        finds = finds_self [] ps fresh;
      })
