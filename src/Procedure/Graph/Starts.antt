-- ===== src/Procedure/Graph/Starts.antt =====
-- The checks `_unique_ids` and `_one_start` of domain/procedure_graph.py against the graph.
use mathlib.Core.Path.{subst}
use turncall.Prelude.{
  ◌≤◌, ◌≡◌, ◌↔◌, inl, inr, refl, sym, ap, ◌∙◌, String, Bool, false, Option, none, some, List, [],
  ◌∷◌, find, filter, contains, str_eq, eq_iff, eq_refl, Bool-cases, ltb, arith, if_true, if_false,
}
use turncall.Procedure.{ProcedureStep, Procedure, start_step}
use turncall.Procedure.Search.{all_reachable}
use turncall.Procedure.Graph.{ids, count_id, unique_ids, start_problem, one_start}
use turncall.Procedure.Graph.Routes.{All, Route}
use turncall.Procedure.Graph.Reachable.{all_reachable_iff}
use turncall.Procedure.Graph.Sound.{Distinct, SoleStart}
use turncall.Procedure.Graph.Checks.{iff_trans}

count_of_absent : (a : String) (xs : List String) → contains a xs ≡ false → count_id a xs ≡ 0
unfolding count_id
count_of_absent a [] h = refl
count_of_absent a (x ∷ xs) h = elim (Bool-cases (str_eq x a)) [
  | inl same ↦ absurd (ground (arith, h, (eq_iff a x).1 (sym ((eq_iff x a).0 same))))
  | inr other ↦ ground (arith, other, h, count_of_absent a xs)
]

absent_of_count : (a : String) (xs : List String) → count_id a xs ≡ 0 → contains a xs ≡ false
unfolding count_id
absent_of_count a [] h = refl
absent_of_count a (x ∷ xs) h = elim (Bool-cases (str_eq a x)) [
  | inl same ↦ absurd (ground (arith, h, (eq_iff x a).1 (sym ((eq_iff a x).0 same))))
  | inr other ↦ ground (arith, other, h, absent_of_count a xs)
]

once_at_most : (xs : List String) (a : String) → Distinct xs → count_id a xs ≤ 1
unfolding count_id
once_at_most [] a d = omega arith
once_at_most (x ∷ xs) a d = elim (Bool-cases (str_eq x a)) [
  | inl same ↦
      let absent : contains a xs ≡ false =
        subst (λ y. contains y xs ≡ false) ((eq_iff x a).0 same) d.0 in
      ground (arith, same, count_of_absent a xs absent)
  | inr other ↦ ground (arith, other, once_at_most xs a d.1)
]

find-none_iff :
    (p : String → Bool) (xs : List String) → (find p xs ≡ none) ↔ All (λ x. p x ≡ false) xs
find-none_iff p [] = (λ _. tt, λ _. refl)
find-none_iff p (x ∷ xs) =
    let (to, from) = find-none_iff p xs in
    elim (Bool-cases (p x)) [
      | inl hit ↦ (λ e. absurd (ground (arith, hit, e)), λ h. absurd (ground (arith, hit, h.0)))
      | inr miss ↦ (λ e. (miss, to (ground (arith, miss, e))), λ h. ground (arith, miss, from h.1))
    ]

-- Each of the texts `xs` is counted once at most in `ys`.
abbrev Once : List String → List String → Type 0
Once ys xs = All (λ x. ltb 1 (count_id x ys) ≡ false) xs

Once-Distinct : (xs : List String) → Once xs xs → Distinct xs
unfolding count_id
Once-Distinct [] h = tt
Once-Distinct (x ∷ xs) h =
    (absent_of_count x xs (ground (arith, h.0, eq_refl x)), Once-Distinct xs (fewer xs h.1))
  where
    fewer : (ys : List String) → Once (x ∷ xs) ys → Once xs ys
    fewer [] k = tt
    fewer (y ∷ ys) k = (ground (arith, k.0), fewer ys k.1)

Distinct-Once : (ys xs : List String) → Distinct ys → Once ys xs
Distinct-Once ys [] d = tt
Distinct-Once ys (x ∷ xs) d = (ground (arith, once_at_most ys x d), Distinct-Once ys xs d)

found_none :
    {A B : Type 0} (o : Option A) (f : A → B)
    → (elim o as (λ _. Option B) [ none ↦ none | some a ↦ some (f a) ] ≡ none) ↔ (o ≡ none)
found_none none f = (λ _. refl, λ _. refl)
found_none (some a) f = (λ e. cc, λ e. cc)

pub unique_ids_iff : (p : Procedure) → (unique_ids p ≡ none) ↔ Distinct (ids p.steps)
unfolding unique_ids
unique_ids_iff p =
    let xs : List String = ids p.steps in
    iff_trans (found_none (find (λ x. ltb 1 (count_id x xs)) xs) _)
      (iff_trans (find-none_iff _ xs) (Once-Distinct xs, Distinct-Once xs xs))

none_starts :
    (steps : List ProcedureStep)
    → (filter (λ s. s.start) steps ≡ []) ↔ All (λ s. s.start ≡ false) steps
none_starts [] = (λ _. tt, λ _. refl)
none_starts (s ∷ rest) =
    let (to, from) = none_starts rest in
    elim (Bool-cases s.start) [
      | inl first ↦
          (λ e. absurd (ground (arith, first, e)), λ h. absurd (ground (arith, first, h.0)))
      | inr other ↦ rw other (λ e. (refl, to e), λ h. from h.1)
    ]

start_problem-alone :
    (id : String) (rest : List ProcedureStep) → (start_problem (id ∷ ids rest) ≡ none) ↔ (rest ≡ [])
unfolding start_problem
start_problem-alone id [] = (λ _. refl, λ _. refl)
start_problem-alone id (s ∷ rest) = (λ e. cc, λ e. cc)

-- One step is marked as the start exactly when the list has a sole start.
SoleStart-iff :
    (steps : List ProcedureStep)
    → (start_problem (ids (filter (λ s. s.start) steps)) ≡ none)
      ↔ ((s : ProcedureStep) × SoleStart s steps)
unfolding start_problem
SoleStart-iff [] = (λ e. cc, λ h. absurd h.1)
SoleStart-iff (t ∷ rest) =
    let (to, from) = SoleStart-iff rest in
    let (alone, is_alone) =
      iff_trans (start_problem-alone t.id (filter (λ s. s.start) rest)) (none_starts rest) in
    elim (Bool-cases t.start) [
      | inl first ↦
          let kept : filter (λ s. s.start) (t ∷ rest) ≡ t ∷ filter (λ s. s.start) rest =
            if_true t.start _ _ first in
          (
            λ e. (t, inl (refl, first, alone (subst (λ ys. start_problem (ids ys) ≡ none) kept e))),
            λ h. elim h.1 [
              | inl it ↦ subst (λ ys. start_problem (ids ys) ≡ none) (sym kept) (is_alone it.2)
              | inr later ↦ absurd (ground (arith, first, later.0))
            ],
          )
      | inr other ↦
          let dropped : filter (λ s. s.start) (t ∷ rest) ≡ filter (λ s. s.start) rest =
            if_false t.start _ _ other in
          (
            λ e.
                let (s, sole) = to (subst (λ ys. start_problem (ids ys) ≡ none) dropped e) in
                (s, inr (other, sole)),
            λ h. elim h.1 [
              | inl it ↦ absurd (ground (arith, other, it.1))
              | inr later ↦
                  subst (λ ys. start_problem (ids ys) ≡ none) (sym dropped) (from (h.0, later.1))
            ],
          )
    ]

start_step-sole :
    (s : ProcedureStep) (steps : List ProcedureStep)
    → SoleStart s steps
    → find (λ t. t.start) steps ≡ some s
start_step-sole s [] h = absurd h
start_step-sole s (t ∷ rest) (inl it) = if_true t.start _ _ it.1 ∙ ap some it.0
start_step-sole s (t ∷ rest) (inr later) =
    if_false t.start _ _ later.0 ∙ start_step-sole s rest later.1

-- With one start, every step has a route from it: the two checks together.
pub from_start_iff :
    (p : Procedure)
    → ((one_start p ≡ none) × (all_reachable p ≡ none))
      ↔ ((s : ProcedureStep) × SoleStart s p.steps × All (λ t. Route p s.id t.id) p.steps)
unfolding one_start start_step
from_start_iff p =
    let (to, from) = SoleStart-iff p.steps in
    (
      λ h.
          let (s, sole) = to h.0 in
          (s, sole, (all_reachable_iff p s (start_step-sole s p.steps sole)).0 h.1),
      λ (s, sole, routes).
          (from (s, sole), (all_reachable_iff p s (start_step-sole s p.steps sole)).1 routes),
    )
