-- ===== src/Procedure/Window/Layers.antt =====
-- What one round of the preview sees: it keeps what was seen, accounts for what it adds, and sees every
-- target of its frontier.
use mathlib.Core.Path.{subst}
use turncall.Prelude.{
  ℕ, ◌≡◌, ◌⊎◌, String, Bool, true, Option, none, some, List, [], ◌∷◌, ◌++◌, contains, str_eq, any,
  arith, eq_iff, eq_refl, Bool-cases, inl, inr, ◌∙◌, sym, ap, ◌||◌,
}
use turncall.Procedure.{ProcedureMove, ProcedureStep, Procedure, step, has_move}
use turncall.Procedure.Graph.Routes.{All}
use turncall.Procedure.Window.{Ahead, see, see_moves, see_frontier}
use turncall.Procedure.Window.Near.{step-id, Found}

module _ (p : Procedure) (start : String) where
  -- A step of the frontier has that id.
  abbrev pub in_steps : String → List ProcedureStep → Bool
  in_steps id = any (λ s. str_eq id s.id)

  abbrev pub Keeps : Ahead → Ahead → Type 0
  Keeps a b = (id : String) → contains id a.seen ≡ true → contains id b.seen ≡ true

  -- Each step seen was seen before, or is in the next frontier.
  abbrev pub Accounts : List String → Ahead → Type 0
  Accounts before a =
      (id : String)
      → contains id a.seen ≡ true
      → (contains id before ≡ true) ⊎ (in_steps id a.reached ≡ true)

  see-Keeps :
      (came_from : String) (t : Option ProcedureStep) (a : Ahead) → Keeps a (see came_from t a)
  unfolding see
  see-Keeps came_from none a id h = h
  see-Keeps came_from (some t) a id h = ground (arith, h)

  see-seen :
      (came_from : String) (t : ProcedureStep) (a : Ahead)
      → contains t.id (see came_from (some t) a).seen ≡ true
  unfolding see
  see-seen came_from t a = ground (arith, eq_refl t.id)

  in_steps-append :
      (id : String) (xs : List ProcedureStep) (x : ProcedureStep)
      → in_steps id (xs ++ x ∷ []) ≡ (in_steps id xs || str_eq id x.id)
  in_steps-append id [] x = ground arith
  in_steps-append id (y ∷ xs) x = ground (arith, in_steps-append id xs x)

  see-Accounts :
      (before : List String) (came_from : String) (t : Option ProcedureStep) (a : Ahead)
      → Accounts before a
      → Accounts before (see came_from t a)
  unfolding see
  see-Accounts before came_from none a h id k = h id k
  see-Accounts before came_from (some t) a h id k =
      ground (arith, h id, in_steps-append id a.reached t, k)

  see_moves-Keeps :
      (came_from : String) (ms : List ProcedureMove) (a : Ahead)
      → Keeps a (see_moves p came_from ms a)
  unfolding see_moves
  see_moves-Keeps came_from [] a id h = h
  see_moves-Keeps came_from (m ∷ ms) a id h =
      see_moves-Keeps came_from ms (see came_from (step p m.to) a) id
        (see-Keeps came_from (step p m.to) a id h)

  see_moves-Accounts :
      (before : List String) (came_from : String) (ms : List ProcedureMove) (a : Ahead)
      → Accounts before a
      → Accounts before (see_moves p came_from ms a)
  unfolding see_moves
  see_moves-Accounts before came_from [] a h id k = h id k
  see_moves-Accounts before came_from (m ∷ ms) a h id k =
      see_moves-Accounts before came_from ms (see came_from (step p m.to) a)
        (see-Accounts before came_from (step p m.to) a h) id k

  see_moves-seen :
      (came_from : String) (ms : List ProcedureMove) (a : Ahead) (to : String) (t : ProcedureStep)
      → has_move to ms ≡ true
      → step p to ≡ some t
      → contains to (see_moves p came_from ms a).seen ≡ true
  unfolding see_moves has_move
  see_moves-seen came_from [] a to t h e = cc
  see_moves-seen came_from (m ∷ ms) a to t h e = elim (Bool-cases (str_eq m.to to)) [
    | inl same ↦
        let at : step p m.to ≡ some t = ap (step p) ((eq_iff m.to to).0 same) ∙ e in
        see_moves-Keeps came_from ms (see came_from (step p m.to) a) to (
          subst (λ o. contains to (see came_from o a).seen ≡ true) (sym at)
            (subst (λ i. contains i (see came_from (some t) a).seen ≡ true) (step-id p to t e)
              (see-seen came_from t a)))
    | inr other ↦ see_moves-seen came_from ms (see came_from (step p m.to) a) to t (ground arith) e
  ]

  pub see_frontier-Keeps : (fr : List ProcedureStep) (a : Ahead) → Keeps a (see_frontier p fr a)
  unfolding see_frontier
  see_frontier-Keeps [] a id h = h
  see_frontier-Keeps (s ∷ fr) a id h =
      see_frontier-Keeps fr (see_moves p s.id s.moves a) id (see_moves-Keeps s.id s.moves a id h)

  pub see_frontier-Accounts :
      (before : List String) (fr : List ProcedureStep) (a : Ahead)
      → Accounts before a
      → Accounts before (see_frontier p fr a)
  unfolding see_frontier
  see_frontier-Accounts before [] a h id k = h id k
  see_frontier-Accounts before (s ∷ fr) a h id k =
      see_frontier-Accounts before fr (see_moves p s.id s.moves a)
        (see_moves-Accounts before s.id s.moves a h) id k

  -- The targets of a frontier's step are seen after it.
  pub see_frontier-seen :
      (n : ℕ) (fr : List ProcedureStep) (a : Ahead) (id to : String) (s t : ProcedureStep)
      → All (Found p start n) fr
      → in_steps id fr ≡ true
      → step p id ≡ some s
      → has_move to s.moves ≡ true
      → step p to ≡ some t
      → contains to (see_frontier p fr a).seen ≡ true
  unfolding see_frontier
  see_frontier-seen n [] a id to s t f h es m et = cc
  see_frontier-seen n (r ∷ fr) a id to s t f h es m et = elim (Bool-cases (str_eq id r.id)) [
    | inl same ↦
        let found : some s ≡ some r = sym es ∙ ap (step p) ((eq_iff id r.id).0 same) ∙ f.0.1 in
        let is_s : s ≡ r = cc in
        see_frontier-Keeps fr (see_moves p r.id r.moves a) to (
          see_moves-seen r.id r.moves a to t
            (subst (λ (q : ProcedureStep). has_move to q.moves ≡ true) is_s m) et)
    | inr other ↦
        see_frontier-seen n fr (see_moves p r.id r.moves a) id to s t f.1 (ground arith) es m et
  ]
