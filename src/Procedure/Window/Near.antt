-- ===== src/Procedure/Window/Near.antt =====
-- The steps that the preview sees are within its depth.
use mathlib.Core.Path.{subst}
use turncall.Prelude.{
  ℕ, zero, suc, ◌+◌, ◌≡◌, refl, String, true, Option, none, some, List, [], ◌∷◌, ◌++◌, contains,
  str_eq, find, arith, eq_iff, eq_refl, Bool-cases, inl, inr, sym,
}
use turncall.Procedure.{ProcedureMove, ProcedureStep, Procedure, step, has_move}
use turncall.Procedure.Graph.Routes.{All}
use turncall.Procedure.Window.{Ahead, see, see_moves, see_frontier, look}

-- The step of that id is at most so many moves ahead.
pub data Near (p : Procedure) (start : String) : ℕ → String → Type 0 where
  at_start : {n : ℕ} → Near p start n start
  by_move :
      {n : ℕ} {id to : String} (s t : ProcedureStep)
      → Near p start n id
      → step p id ≡ some s
      → has_move to s.moves ≡ true
      → step p to ≡ some t
      → Near p start (suc n) to

found-id :
    (steps : List ProcedureStep) (to : String) (t : ProcedureStep)
    → find (λ s. str_eq s.id to) steps ≡ some t
    → t.id ≡ to
found-id [] to t e = cc
found-id (s ∷ rest) to t e = elim (Bool-cases (str_eq s.id to)) [
  | inl same ↦ ground (arith, eq_iff s.id to)
  | inr other ↦ found-id rest to t (ground arith)
]

pub step-id : (p : Procedure) (to : String) (t : ProcedureStep) → step p to ≡ some t → t.id ≡ to
unfolding step
step-id p to t e = found-id p.steps to t e

module _ (p : Procedure) (start : String) where
  pub Near-suc : {n : ℕ} {id : String} → Near p start n id → Near p start (suc n) id
  Near-suc at_start = at_start
  Near-suc (by_move s t near es m et) = by_move s t (Near-suc near) es m et

  -- A step of the procedure, found under its own id, so many moves ahead.
  abbrev pub Found : ℕ → ProcedureStep → Type 0
  Found n s = Near p start n s.id × (step p s.id ≡ some s)

  abbrev pub Sound : ℕ → Ahead → Type 0
  Sound n a = All (Near p start n) a.seen × All (Found n) a.reached

  All-append :
      (P : ProcedureStep → Type 0) (xs : List ProcedureStep) (x : ProcedureStep)
      → All P xs
      → P x
      → All P (xs ++ x ∷ [])
  All-append P [] x h k = (k, tt)
  All-append P (y ∷ xs) x h k = (h.0, All-append P xs x h.1 k)

  see-Sound :
      (n : ℕ) (came_from : String) (t : Option ProcedureStep) (a : Ahead)
      → ((s : ProcedureStep) → t ≡ some s → Found n s)
      → Sound n a
      → Sound n (see came_from t a)
  unfolding see
  see-Sound n came_from none a f h = h
  see-Sound n came_from (some t) a f h = elim (Bool-cases (contains t.id a.seen)) [
    | inl known ↦ rw known h
    | inr new ↦ rw new (((f t refl).0, h.0), All-append (Found n) a.reached t h.1 (f t refl))
  ]

  target-Found :
      (n : ℕ) (s : ProcedureStep) (to : String)
      → Found n s
      → has_move to s.moves ≡ true
      → (t : ProcedureStep) → step p to ≡ some t
      → Found (suc n) t
  target-Found n s to h m t e =
      let same = step-id p to t e in
      (
        subst (Near p start (suc n)) (sym same) (by_move s t h.0 h.1 m e),
        subst (λ i. step p i ≡ some t) (sym same) e,
      )

  see_moves-Sound :
      (n : ℕ) (s : ProcedureStep) (ms : List ProcedureMove) (a : Ahead)
      → Found n s
      → ((to : String) → has_move to ms ≡ true → has_move to s.moves ≡ true)
      → Sound (suc n) a
      → Sound (suc n) (see_moves p s.id ms a)
  unfolding see_moves has_move
  see_moves-Sound n s [] a f sub h = h
  see_moves-Sound n s (m ∷ ms) a f sub h =
      see_moves-Sound n s ms (see s.id (step p m.to) a) f (λ to k. sub to (ground (arith, k)))
        (see-Sound (suc n) s.id (step p m.to) a
          (target-Found n s m.to f (sub m.to (ground (arith, eq_refl m.to)))) h)

  pub see_frontier-Sound :
      (n : ℕ) (fr : List ProcedureStep) (a : Ahead)
      → All (Found n) fr
      → Sound (suc n) a
      → Sound (suc n) (see_frontier p fr a)
  unfolding see_frontier
  see_frontier-Sound n [] a f h = h
  see_frontier-Sound n (s ∷ fr) a f h =
      see_frontier-Sound n fr (see_moves p s.id s.moves a) f.1
        (see_moves-Sound n s s.moves a f.0 (λ to k. k) h)

  pub All-suc :
      (n : ℕ) (ids : List String) → All (Near p start n) ids → All (Near p start (suc n)) ids
  All-suc n [] h = tt
  All-suc n (id ∷ ids) h = (Near-suc h.0, All-suc n ids h.1)

  pub look-Sound : (n k m : ℕ) (a : Ahead) → m ≡ n + k → Sound k a → Sound m (look n p a)
  unfolding look
  look-Sound zero k m a e h = let same : k ≡ m = omega arith in subst (λ i. Sound i a) same h
  look-Sound (suc n) k m a e h =
      look-Sound n (suc k) m (see_frontier p a.reached (record a { reached = [] })) (omega arith)
        (see_frontier-Sound k a.reached (record a { reached = [] }) h.1 (All-suc k a.seen h.0, tt))
