-- ===== src/Procedure/Graph/Checks.antt =====
-- Each check of domain/procedure_graph.py against what it promises of the graph.
use mathlib.Core.Path.{subst}
use turncall.Prelude.{
  ℕ, ◌≤◌, ◌≡◌, ◌↔◌, inl, inr, refl, sym, String, Bool, true, false, Option, none, some, List, [],
  ◌∷◌, any, length, contains, Among, arith, eq_iff, str_eq, Bool-cases, ltb, if◌then◌else◌,
}
use turncall.Procedure.{ℤ, pos, negsuc, ProcedureMove, ProcedureStep, Procedure, is_ending_kind}
use turncall.Procedure.Problem.{Problem}
use turncall.Procedure.Search.{targets}
use turncall.Procedure.Graph.{
  first_problem, readable, known_words, known_starts, known_kinds, depth_problem, within_the_caps,
  ids, moves_land, has_an_ending, tool_problem, step_tools_in,
}
use turncall.Procedure.Graph.Routes.{All}
use turncall.Procedure.Graph.Sound.{Ends, CanCall}

pub iff_trans : {A B C : Type 0} → A ↔ B → B ↔ C → A ↔ C
iff_trans (f, g) (h, k) = (λ a. h (f a), λ c. g (k c))

pub contains_iff : (x : String) (xs : List String) → (contains x xs ≡ true) ↔ Among x xs
contains_iff x [] = (λ e. cc, λ h. absurd h)
contains_iff x (y ∷ ys) =
    let (to, from) = contains_iff x ys in
    elim (Bool-cases (str_eq x y)) [
      | inl same ↦ (λ _. inl ((eq_iff x y).0 same), λ _. ground (arith, same))
      | inr other ↦ (
        λ e. inr (to (ground (arith, other, e))),
        λ h. elim h [
          | inl is ↦ ground (arith, (eq_iff x y).1 is)
          | inr more ↦ ground (arith, from more)
        ],
      )
    ]

pub All_iff {ℓ} :
    {A : Type ℓ} (P Q : A → Type 0) (xs : List A) → ((x : A) → P x ↔ Q x) → All P xs ↔ All Q xs
All_iff P Q [] f = (λ _. tt, λ _. tt)
All_iff P Q (x ∷ xs) f =
    let (to, from) = All_iff P Q xs f in (λ h. ((f x).0 h.0, to h.1), λ h. ((f x).1 h.0, from h.1))

first_problem-cons {ℓ} :
    {A : Type ℓ} (check : A → Option Problem) (x : A) (xs : List A)
    → (first_problem check (x ∷ xs) ≡ none) ↔ ((check x ≡ none) × (first_problem check xs ≡ none))
unfolding first_problem
first_problem-cons check x xs = ground arith

first_problem_iff {ℓ} :
    {A : Type ℓ} (check : A → Option Problem) (xs : List A)
    → (first_problem check xs ≡ none) ↔ All (λ x. check x ≡ none) xs
first_problem_iff check [] = (λ _. tt, λ _. unfold first_problem in refl)
first_problem_iff check (x ∷ xs) =
    let (to, from) = first_problem-cons check x xs in
    let (all, found) = first_problem_iff check xs in
    (λ e. ((to e).0, all (to e).1), λ h. from (h.0, found h.1))

-- A loop that checks each element finds nothing exactly when what it checks holds of each.
pub first_problem_of {ℓ} :
    {A : Type ℓ} (check : A → Option Problem) (P : A → Type 0) (xs : List A)
    → ((x : A) → (check x ≡ none) ↔ P x)
    → (first_problem check xs ≡ none) ↔ All P xs
first_problem_of check P xs f = iff_trans (first_problem_iff check xs) (All_iff _ P xs f)

pub readable_iff : (p : Procedure) → (readable p ≡ none) ↔ (p.unreadable ≡ none)
unfolding readable
readable_iff p = ground arith

pub unless_none : (b : Bool) (x : Problem) → ((if b then none else some x) ≡ none) ↔ (b ≡ true)
unless_none true x = (λ _. refl, λ _. refl)
unless_none false x = (λ e. cc, λ e. cc)

pub known_words_iff :
    (p : Procedure)
    → (known_words p ≡ none) ↔ (
        Among p.start ("call" ∷ "on_request" ∷ [])
        × All (λ s. Among s.kind ("ask" ∷ "instruct" ∷ "check" ∷ "escalate" ∷ "end" ∷ [])) p.steps)
unfolding known_words
known_words_iff p =
    let (to, from) = contains_iff p.start known_starts in
    let (all, found) =
      first_problem_of _
        (λ s. Among s.kind ("ask" ∷ "instruct" ∷ "check" ∷ "escalate" ∷ "end" ∷ [])) p.steps
        (λ s.
          iff_trans (unless_none (contains s.kind known_kinds) _)
            (contains_iff s.kind known_kinds)) in
    elim (Bool-cases (contains p.start known_starts)) [
      | inl known ↦ rw known (λ e. (to known, all e), λ h. found h.1)
      | inr other ↦ (λ e. absurd (ground (arith, other, e)), λ h. cc (from h.0))
    ]

abbrev magnitude : ℤ → ℕ
magnitude (pos n) = n
magnitude (negsuc n) = n

depth_iff : (d : ℤ) → (depth_problem d ≡ none) ↔ ((n : ℕ) × (d ≡ pos n) × (n ≤ 5))
unfolding depth_problem
depth_iff (pos n) = (
  λ e. (n, refl, ground arith),
  λ h. let at_most : n ≤ 5 = subst (λ (m : ℤ). magnitude m ≤ 5) (sym h.1) h.2 in ground arith,
)
depth_iff (negsuc n) = (λ e. cc, λ h. cc h.1)

pub within_the_caps_iff :
    (p : Procedure)
    → (within_the_caps p ≡ none)
      ↔ ((length p.steps ≤ 50) × ((n : ℕ) × (p.window_depth ≡ pos n) × (n ≤ 5)))
unfolding within_the_caps
within_the_caps_iff p =
    let (to, from) = depth_iff p.window_depth in
    elim (Bool-cases (ltb 50 (length p.steps))) [
      | inl many ↦ (λ e. absurd (ground (arith, many, e)), λ h. absurd (ground (arith, many, h.0)))
      | inr few ↦ rw few (λ e. (ground arith, to e), λ h. from h.1)
    ]

targets_iff :
    (Q : String → Type 0) (moves : List ProcedureMove)
    → All Q (targets moves) ↔ All (λ m. Q m.to) moves
targets_iff Q [] = (λ _. tt, λ _. tt)
targets_iff Q (m ∷ rest) =
    let (to, from) = targets_iff Q rest in (λ h. (h.0, to h.1), λ h. (h.0, from h.1))

pub moves_land_iff :
    (p : Procedure)
    → (moves_land p ≡ none) ↔ All (λ s. All (λ m. Among m.to (ids p.steps)) s.moves) p.steps
unfolding moves_land
moves_land_iff p =
    first_problem_of _ (λ s. All (λ m. Among m.to (ids p.steps)) s.moves) p.steps
      (λ s.
        iff_trans
          (first_problem_of _ (λ t. Among t (ids p.steps)) (targets s.moves)
            (λ t.
              iff_trans (unless_none (contains t (ids p.steps)) _) (contains_iff t (ids p.steps))))
          (targets_iff (λ t. Among t (ids p.steps)) s.moves))

ends_iff :
    (steps : List ProcedureStep) → (any (λ s. is_ending_kind s.kind) steps ≡ true) ↔ Ends steps
ends_iff [] = (λ e. cc, λ h. absurd h)
ends_iff (s ∷ rest) =
    let (to, from) = ends_iff rest in
    let (here, back) = contains_iff s.kind ("end" ∷ "escalate" ∷ []) in
    elim (Bool-cases (is_ending_kind s.kind)) [
      | inl ending ↦ (λ _. inl (here ending), λ _. ground (arith, ending))
      | inr other ↦ (
        λ e. inr (to (ground (arith, other, e))),
        λ h. elim h [ inl is ↦ ground (arith, back is) | inr more ↦ ground (arith, from more) ],
      )
    ]

pub has_an_ending_iff : (p : Procedure) → (has_an_ending p ≡ none) ↔ Ends p.steps
unfolding has_an_ending
has_an_ending_iff p =
    iff_trans (unless_none (any (λ s. is_ending_kind s.kind) p.steps) _) (ends_iff p.steps)

tool_iff :
    (callable : List String) (id : String) (tool : Option String)
    → (tool_problem callable id tool ≡ none) ↔ CanCall (some callable) tool
unfolding tool_problem
tool_iff callable id none = (λ _. tt, λ _. refl)
tool_iff callable id (some tool) =
    iff_trans (unless_none (contains tool callable) _) (contains_iff tool callable)

pub step_tools_iff :
    (callable : List String) (p : Procedure)
    → (step_tools_in callable p ≡ none) ↔ All (λ s. CanCall (some callable) s.tool) p.steps
unfolding step_tools_in
step_tools_iff callable p =
    first_problem_of _ (λ s. CanCall (some callable) s.tool) p.steps
      (λ s. tool_iff callable s.id s.tool)

pub any_tools : (steps : List ProcedureStep) → All (λ s. CanCall none s.tool) steps
any_tools [] = tt
any_tools (s ∷ rest) = (tt, any_tools rest)
