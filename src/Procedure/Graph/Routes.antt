-- ===== src/Procedure/Graph/Routes.antt =====
-- The search of `_all_reachable` against the routes of the graph.
use mathlib.Core.Path.{subst}
use turncall.Prelude.{
  ℕ, zero, suc, ◌≡◌, ◌⊎◌, sym, String, true, false, some, List, [], ◌∷◌, contains, str_eq,
  if◌then◌else◌, arith, eq_iff, Bool-cases, inl, inr,
}
use turncall.Procedure.{Procedure, step}
use turncall.Procedure.Search.{Search, reach_target, reach_all, next_targets, visit, explore}
use turncall.Procedure.Graph.Reach.{AllIn, AllIn-mono, AllIn-self}

-- Some moves lead from the start to the step of that id.
pub data Route (p : Procedure) (start : String) : String → Type 0 where
  at_start : Route p start start
  by_move :
      {id to : String}
      → Route p start id
      → contains to (next_targets (step p id)) ≡ true
      → Route p start to

abbrev pub All {ℓ} : {A : Type ℓ} → (A → Type 0) → List A → Type 0
All P [] = Unit
All P (x ∷ xs) = P x × All P xs

pub All-contains :
    (P : String → Type 0) (t : String) (xs : List String) → contains t xs ≡ true → All P xs → P t
All-contains P t [] h all = cc
All-contains P t (x ∷ xs) h all = elim (Bool-cases (str_eq t x)) [
  | inl same ↦ subst P (sym ((eq_iff t x).0 same)) all.0
  | inr other ↦ All-contains P t xs (ground arith) all.1
]

All-intro :
    (P : String → Type 0) (xs ys : List String)
    → ((t : String) → contains t ys ≡ true → P t)
    → AllIn ys xs
    → All P xs
All-intro P [] ys h le = tt
All-intro P (x ∷ xs) ys h le = (h x le.0, All-intro P xs ys h le.1)

module _ (P : String → Type 0) where
  All-reach_target :
      (s : Search) (t : String)
      → P t
      → All P s.reached × All P s.frontier
      → All P (reach_target s t).reached × All P (reach_target s t).frontier
  unfolding reach_target
  All-reach_target s t pt h =
      let added : Search = record { reached = t ∷ s.reached; frontier = t ∷ s.frontier } in
      elim (contains t s.reached)
        as (λ b. All P (if b then s else added).reached × All P (if b then s else added).frontier) [
          | true ↦ h
          | false ↦ ((pt, h.0), (pt, h.1))
        ]

  All-reach_all :
      (s : Search) (ts : List String)
      → All P ts
      → All P s.reached × All P s.frontier
      → All P (reach_all s ts).reached × All P (reach_all s ts).frontier
  unfolding reach_all
  All-reach_all s [] all h = h
  All-reach_all s (t ∷ ts) all h =
      All-reach_all (reach_target s t) ts all.1 (All-reach_target s t all.0 h)

module _ (p : Procedure) (start : String) where
  targets-Route : (id : String) → Route p start id → All (Route p start) (next_targets (step p id))
  targets-Route id r =
      All-intro (Route p start) _ (next_targets (step p id)) (λ t h. by_move r h) (AllIn-self _)

  -- What the loop reaches has a route.
  pub explore-Route :
      (fuel : ℕ) (reached frontier r : List String)
      → explore fuel p reached frontier ≡ some r
      → All (Route p start) reached
      → All (Route p start) frontier
      → All (Route p start) r
  unfolding explore visit
  explore-Route zero reached [] r e a b = subst (All (Route p start)) (cc) a
  explore-Route (suc fuel) reached [] r e a b = subst (All (Route p start)) (cc) a
  explore-Route zero reached (id ∷ rest) r e a b = cc
  explore-Route (suc fuel) reached (id ∷ rest) r e a b =
      let s : Search = record { reached = reached; frontier = rest } in
      let (a', b') = All-reach_all (Route p start) s _ (targets-Route id b.0) (a, b.1) in
      explore-Route fuel _ _ r e a' b'

-- What a visit keeps and adds.
module _ (x : String) where
  pub reached-reach_all :
      (s : Search) (ts : List String)
      → contains x s.reached ≡ true
      → contains x (reach_all s ts).reached ≡ true
  unfolding reach_all reach_target
  reached-reach_all s [] h = h
  reached-reach_all s (t ∷ ts) h = reached-reach_all (reach_target s t) ts (ground arith)

  frontier-reach_all :
      (s : Search) (ts : List String)
      → contains x s.frontier ≡ true
      → contains x (reach_all s ts).frontier ≡ true
  unfolding reach_all reach_target
  frontier-reach_all s [] h = h
  frontier-reach_all s (t ∷ ts) h = frontier-reach_all (reach_target s t) ts (ground arith)

  target-reach_all :
      (s : Search) (ts : List String)
      → contains x ts ≡ true
      → contains x (reach_all s ts).reached ≡ true
  unfolding reach_all reach_target
  target-reach_all s [] h = cc
  target-reach_all s (t ∷ ts) h = elim (Bool-cases (str_eq x t)) [
    | inl same ↦ reached-reach_all (reach_target s t) ts (ground (arith, eq_iff x t))
    | inr other ↦ target-reach_all (reach_target s t) ts (ground arith)
  ]

  new-reach_all :
      (s : Search) (ts : List String)
      → contains x (reach_all s ts).reached ≡ true
      → (contains x s.reached ≡ true) ⊎ (contains x (reach_all s ts).frontier ≡ true)
  unfolding reach_all reach_target
  new-reach_all s [] h = inl h
  new-reach_all s (t ∷ ts) h = elim (new-reach_all (reach_target s t) ts h) [
    | inl old ↦ elim (Bool-cases (contains x (reach_target s t).frontier)) [
      | inl fresh ↦ inr (frontier-reach_all (reach_target s t) ts fresh)
      | inr stale ↦ inl (ground arith)
    ]
    | inr new ↦ inr new
  ]

-- Every step that was reached waits in the frontier, or all that its moves lead to was reached.
abbrev pub IsClosed : Procedure → List String → List String → Type 0
IsClosed p reached frontier =
    (x : String)
    → contains x reached ≡ true
    → (contains x frontier ≡ true) ⊎ AllIn reached (next_targets (step p x))

IsClosed-visit :
    (p : Procedure) (reached rest : List String) (id : String)
    → IsClosed p reached (id ∷ rest)
    → let s = visit p reached rest id in IsClosed p s.reached s.frontier
unfolding visit
IsClosed-visit p reached rest id closed x h =
    elim (new-reach_all x before (next_targets (step p id)) h) [
      | inr fresh ↦ inl fresh
      | inl old ↦ elim (closed x old) [
        | inr done ↦ inr (
            AllIn-mono reached after.reached _
              (λ t ht. reached-reach_all t before (next_targets (step p id)) ht) done)
        | inl waits ↦ elim (Bool-cases (str_eq x id)) [
          | inl same ↦ inr (
              subst (λ y. AllIn after.reached (next_targets (step p y)))
                (sym ((eq_iff x id).0 same))
                (AllIn-mono (next_targets (step p id)) after.reached _
                  (λ t ht. target-reach_all t before (next_targets (step p id)) ht)
                  (AllIn-self (next_targets (step p id)))))
          | inr other ↦ inl (frontier-reach_all x before (next_targets (step p id)) (ground arith))
        ]
      ]
    ]
  where
    before : Search
    before = record { reached = reached; frontier = rest }

    after : Search
    after = reach_all before (next_targets (step p id))

pub explore-IsClosed :
    (fuel : ℕ) (p : Procedure) (reached frontier r : List String)
    → explore fuel p reached frontier ≡ some r
    → IsClosed p reached frontier
    → IsClosed p r []
unfolding explore
explore-IsClosed zero p reached [] r e closed = subst (λ l. IsClosed p l []) (cc) closed
explore-IsClosed (suc fuel) p reached [] r e closed = subst (λ l. IsClosed p l []) (cc) closed
explore-IsClosed zero p reached (id ∷ rest) r e closed = cc
explore-IsClosed (suc fuel) p reached (id ∷ rest) r e closed =
    let s = visit p reached rest id in
    explore-IsClosed fuel p s.reached s.frontier r e (IsClosed-visit p reached rest id closed)
