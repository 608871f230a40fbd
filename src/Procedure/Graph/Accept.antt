-- ===== src/Procedure/Graph/Accept.antt =====
-- When `procedures_refusal` lets an agent's procedures through.
use turncall.Prelude.{
  ℕ, ◌+◌, ◌≡◌, ◌↔◌, refl, String, false, Option, none, some, List, [], ◌∷◌, contains, arith,
}
use turncall.Procedure.{Procedure}
use turncall.Procedure.Problem.{Check}
use turncall.Procedure.Graph.{Formats, all_checks, run_checks, refusal_from, procedures_refusal}
use turncall.Procedure.Graph.Routes.{All}
use turncall.Procedure.Graph.Sound.{CanCall, IsSound}
use turncall.Procedure.Graph.Checks.{
  All_iff, readable_iff, known_words_iff, within_the_caps_iff, moves_land_iff, has_an_ending_iff,
  step_tools_iff, any_tools,
}
use turncall.Procedure.Graph.Escalations.{escalations_iff}
use turncall.Procedure.Graph.Starts.{unique_ids_iff, from_start_iff}

-- No name is used twice, nor is one of `seen`.
abbrev pub FreshNames : List String → List Procedure → Type 0
FreshNames seen [] = Unit
FreshNames seen (p ∷ rest) = (contains p.name seen ≡ false) × FreshNames (p.name ∷ seen) rest

-- No check finds a problem.
abbrev Passes : List Check → Procedure → Type 0
Passes [] p = Unit
Passes (check ∷ rest) p = (check p ≡ none) × Passes rest p

run_checks-cons :
    (check : Check) (rest : List Check) (p : Procedure)
    → (run_checks (check ∷ rest) p ≡ none) ↔ ((check p ≡ none) × (run_checks rest p ≡ none))
unfolding run_checks
run_checks-cons check rest p = ground arith

run_checks_iff :
    (checks : List Check) (p : Procedure) → (run_checks checks p ≡ none) ↔ Passes checks p
run_checks_iff [] p = (λ _. tt, λ _. unfold run_checks in refl)
run_checks_iff (check ∷ rest) p =
    let (to, from) = run_checks-cons check rest p in
    let (pass, run) = run_checks_iff rest p in
    (λ e. ((to e).0, pass (to e).1), λ h. from (h.0, run h.1))

refusal_from-cons :
    (checks : List Check) (i : ℕ) (seen : List String) (p : Procedure) (rest : List Procedure)
    → (refusal_from checks i seen (p ∷ rest) ≡ none) ↔ (
        (contains p.name seen ≡ false)
        × (run_checks checks p ≡ none)
        × (refusal_from checks (i + 1) (p.name ∷ seen) rest ≡ none))
unfolding refusal_from
refusal_from-cons checks i seen p rest = ground arith

refusal_from_iff :
    (checks : List Check) (i : ℕ) (seen : List String) (ps : List Procedure)
    → (refusal_from checks i seen ps ≡ none) ↔ (FreshNames seen ps × All (Passes checks) ps)
refusal_from_iff checks i seen [] = (λ _. (tt, tt), λ _. unfold refusal_from in refl)
refusal_from_iff checks i seen (p ∷ rest) =
    let (to, from) = refusal_from-cons checks i seen p rest in
    let (pass, run) = run_checks_iff checks p in
    let (rec, back) = refusal_from_iff checks (i + 1) (p.name ∷ seen) rest in
    (
      λ e. let (a, b, c) = to e in ((a, (rec c).0), (pass b, (rec c).1)),
      λ h. from (h.0.0, run h.1.0, back (h.0.1, h.1.1)),
    )

-- A procedure passes the checks exactly when it is sound, where nobody knows what tools there are.
Passes-without_tools :
    (f : Formats) (p : Procedure) → Passes (all_checks f none) p ↔ IsSound f none p
unfolding all_checks
Passes-without_tools f p =
    let (words, is_words) = known_words_iff p in
    let (caps, is_caps) = within_the_caps_iff p in
    let (starts, is_starts) = from_start_iff p in
    (
      λ (a, (b, (c, (d, (e, (g, (h, (i, (j, _))))))))). record {
        is_read = (readable_iff p).0 a;
        start_known = (words b).0;
        kinds_known = (words b).1;
        few_steps = (caps c).0;
        depth_capped = (caps c).1;
        ids_distinct = (unique_ids_iff p).0 d;
        moves_land = (moves_land_iff p).0 g;
        ends = (has_an_ending_iff p).0 h;
        escalates = (escalations_iff f p).0 j;
        tools_callable = any_tools p.steps;
        from_start = starts (e, i);
      },
      λ s.
          let a = (readable_iff p).1 s.is_read in
          let b = is_words (s.start_known, s.kinds_known) in
          let c = is_caps (s.few_steps, s.depth_capped) in
          let d = (unique_ids_iff p).1 s.ids_distinct in
          let (e, i) = is_starts s.from_start in
          let g = (moves_land_iff p).1 s.moves_land in
          let h = (has_an_ending_iff p).1 s.ends in
          let j = (escalations_iff f p).1 s.escalates in
          (a, (b, (c, (d, (e, (g, (h, (i, (j, tt))))))))),
    )

-- The other conditions do not depend on what tools can be called.
other_tools :
    {f : Formats} {known others : Option (List String)} {p : Procedure}
    → IsSound f known p
    → All (λ s. CanCall others s.tool) p.steps
    → IsSound f others p
other_tools s tools = record {
  is_read = s.is_read;
  start_known = s.start_known;
  kinds_known = s.kinds_known;
  few_steps = s.few_steps;
  depth_capped = s.depth_capped;
  ids_distinct = s.ids_distinct;
  moves_land = s.moves_land;
  ends = s.ends;
  escalates = s.escalates;
  tools_callable = tools;
  from_start = s.from_start;
}

Passes_iff :
    (f : Formats) (callable : Option (List String)) (p : Procedure)
    → Passes (all_checks f callable) p ↔ IsSound f callable p
unfolding all_checks
Passes_iff f none p = Passes-without_tools f p
Passes_iff f (some known) p =
    let (to, from) = Passes-without_tools f p in
    (
      λ (a, (b, (c, (d, (e, (g, (h, (i, (j, (k, _)))))))))).
          other_tools (to (a, (b, (c, (d, (e, (g, (h, (i, (j, tt))))))))))
            ((step_tools_iff known p).0 k),
      λ s.
          let (a, (b, (c, (d, (e, (g, (h, (i, (j, _))))))))) =
            from (other_tools s (any_tools p.steps)) in
          (
            a,
            (
              b,
              (c, (d, (e, (g, (h, (i, (j, ((step_tools_iff known p).1 s.tools_callable, tt)))))))),
            ),
          ),
    )

-- An agent's procedures are let through exactly when no two have one name and each of them is sound:
-- it could be read; its start and kinds are known words; it has at most 50 steps and shows 0 to 5 of
-- them ahead; no two steps have one id; exactly one step is the start, and a route of moves leads from
-- it to every step; every move leads to a step; some step ends it; each escalate step has one action,
-- which can be run, and no other step has any; and each tool is one that can be called.
pub procedures_accepted_iff :
    (f : Formats) (callable : Option (List String)) (ps : List Procedure)
    → (procedures_refusal f callable ps ≡ none) ↔ (FreshNames [] ps × All (IsSound f callable) ps)
unfolding procedures_refusal
procedures_accepted_iff f callable ps =
    let (to, from) = refusal_from_iff (all_checks f callable) 0 [] ps in
    let (sound, passes) =
      All_iff (Passes (all_checks f callable)) (IsSound f callable) ps (Passes_iff f callable) in
    (λ e. ((to e).0, sound (to e).1), λ h. from (h.0, passes h.1))
