-- ===== src/Procedure/Graph/Reach.antt =====
-- The search of `_all_reachable`: it ends, and it reaches exactly the steps that moves lead to.
use turncall.Prelude.{
  ℕ, zero, suc, ◌+◌, ◌≤◌, ◌<◌, ◌≡◌, refl, String, true, false, some, List, [], ◌∷◌, ◌++◌, length,
  contains, contains-append, str_eq, if◌then◌else◌, arith, eq_iff, eq_refl, Bool-cases, inl, inr,
}
use turncall.Procedure.{ProcedureStep, Procedure, step, find_step}
use turncall.Procedure.Search.{
  Search, targets, all_targets, reach_target, reach_all, next_targets, explore, reach_fuel,
  reached_from,
}

-- How many of the texts have not been reached.
abbrev missing : List String → List String → ℕ
missing reached [] = 0
missing reached (x ∷ xs) = (if contains x reached then 0 else 1) + missing reached xs

missing-le :
    (reached : List String) (t : String) (xs : List String)
    → missing (t ∷ reached) xs ≤ missing reached xs
missing-le reached t [] = omega arith
missing-le reached t (x ∷ xs) = ground (arith, missing-le reached t xs)

missing-lt :
    (reached : List String) (t : String) (xs : List String)
    → contains t reached ≡ false
    → contains t xs ≡ true
    → missing (t ∷ reached) xs < missing reached xs
missing-lt reached t [] new has = cc
missing-lt reached t (x ∷ xs) new has =
    ground (arith, eq_iff t x, eq_refl x, missing-le reached t xs, missing-lt reached t xs new)

-- What the loop has left to do.
abbrev work : List String → Search → ℕ
work all s = missing s.reached all + length s.frontier

work-reach_target :
    (all : List String) (s : Search) (t : String)
    → contains t all ≡ true
    → work all (reach_target s t) ≤ work all s
unfolding reach_target
work-reach_target all s t has = ground (arith, missing-lt s.reached t all)

abbrev pub AllIn : List String → List String → Type 0
AllIn all [] = Unit
AllIn all (t ∷ ts) = (contains t all ≡ true) × AllIn all ts

work-reach_all :
    (all : List String) (s : Search) (ts : List String)
    → AllIn all ts
    → work all (reach_all s ts) ≤ work all s
unfolding reach_all
work-reach_all all s [] h = omega arith
work-reach_all all s (t ∷ ts) h =
    omega (arith, work-reach_target all s t h.0, work-reach_all all (reach_target s t) ts h.1)

pub AllIn-mono :
    (a b ts : List String)
    → ((t : String) → contains t a ≡ true → contains t b ≡ true)
    → AllIn a ts
    → AllIn b ts
AllIn-mono a b [] le h = tt
AllIn-mono a b (t ∷ ts) le h = (le t h.0, AllIn-mono a b ts le h.1)

pub AllIn-self : (ts : List String) → AllIn ts ts
AllIn-self [] = tt
AllIn-self (t ∷ ts) =
    (ground (arith, eq_refl t), AllIn-mono ts (t ∷ ts) ts (λ x h. ground arith) (AllIn-self ts))

targets-AllIn :
    (steps : List ProcedureStep) (id : String)
    → AllIn (all_targets steps) (next_targets (find_step id steps))
unfolding all_targets next_targets find_step
targets-AllIn [] id = tt
targets-AllIn (s ∷ rest) id = elim (Bool-cases (str_eq s.id id)) [
  | inl here ↦ rw here (
      AllIn-mono (targets s.moves) (targets s.moves ++ all_targets rest) (targets s.moves)
        (λ t h. rw (contains-append t (targets s.moves) (all_targets rest), h))
        (AllIn-self (targets s.moves)))
  | inr later ↦ rw later (
      AllIn-mono (all_targets rest) (targets s.moves ++ all_targets rest) _
        (λ t h. rw contains-append (ground arith)) (targets-AllIn rest id))
]

-- With as much fuel as there is work left, the loop ends.
explore_total :
    (fuel : ℕ) (p : Procedure) (reached frontier : List String)
    → missing reached (all_targets p.steps) + length frontier ≤ fuel
    → (r : List String) × (explore fuel p reached frontier ≡ some r)
unfolding explore step
explore_total zero p reached [] h = (reached, refl)
explore_total (suc fuel) p reached [] h = (reached, refl)
explore_total zero p reached (id ∷ rest) h = absurd (omega arith)
explore_total (suc fuel) p reached (id ∷ rest) h = explore_total fuel p _ _ (
    omega (
      arith,
      work-reach_all (all_targets p.steps) (record { reached = reached; frontier = rest })
          (next_targets (find_step id p.steps)) (targets-AllIn p.steps id),
    ))

missing-le-length : (reached xs : List String) → missing reached xs ≤ length xs
missing-le-length reached [] = omega arith
missing-le-length reached (x ∷ xs) = ground (arith, missing-le-length reached xs)

-- The search of the reachability check ends with a result, whatever the graph and the step it starts from.
pub reached_from_total :
    (p : Procedure) (start : String) → (r : List String) × (reached_from p start ≡ some r)
unfolding reached_from reach_fuel
reached_from_total p start =
    explore_total (suc (length (all_targets p.steps))) p (start ∷ []) (start ∷ [])
      (omega (arith, missing-le-length (start ∷ []) (all_targets p.steps)))
