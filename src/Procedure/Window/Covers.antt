-- ===== src/Procedure/Window/Covers.antt =====
-- The preview against the graph: exactly the steps within its depth.
use mathlib.Core.Path.{subst}
use turncall.Prelude.{
  ℕ, zero, suc, ◌+◌, ◌≡◌, ◌≢◌, ◌↔◌, ◌⊎◌, String, Bool, true, false, some, List, [], contains,
  str_eq, arith, eq_iff, eq_refl, inl, inr,
}
use turncall.Procedure.{ℤ, ProcedureStep, Procedure, step, has_move}
use turncall.Procedure.Graph.Routes.{All-contains}
use turncall.Procedure.Window.{Ahead, see_frontier, look, at_least_zero, at_first, steps_ahead}
use turncall.Procedure.Window.Counted.{one_if, shown, look-Counts, at_first-Counts}
use turncall.Procedure.Window.Near.{
  Near, at_start, by_move, Sound, see_frontier-Sound, All-suc, look-Sound,
}
use turncall.Procedure.Window.Layers.{
  in_steps, see_frontier-Keeps, see_frontier-Accounts, see_frontier-seen,
}

module _ (p : Procedure) (start : String) where
  abbrev layer : Ahead → Ahead
  layer a = see_frontier p a.reached (record a { reached = [] })

  -- The targets of a step seen are seen, or the step is in the next frontier.
  abbrev Closed : Ahead → Type 0
  Closed a =
      (id to : String) (s t : ProcedureStep)
      → contains id a.seen ≡ true
      → step p id ≡ some s
      → has_move to s.moves ≡ true
      → step p to ≡ some t
      → (contains to a.seen ≡ true) ⊎ (in_steps p start id a.reached ≡ true)

  layer-target :
      (n : ℕ) (a : Ahead) (id to : String) (s t : ProcedureStep)
      → Sound p start n a
      → Closed a
      → contains id a.seen ≡ true
      → step p id ≡ some s
      → has_move to s.moves ≡ true
      → step p to ≡ some t
      → contains to (layer a).seen ≡ true
  layer-target n a id to s t sound closed h es m et = elim (closed id to s t h es m et) [
    | inl seen ↦ see_frontier-Keeps p start a.reached (record a { reached = [] }) to seen
    | inr next ↦
        see_frontier-seen p start n a.reached (record a { reached = [] }) id to s t sound.1 next es
          m et
  ]

  layer-Closed : (n : ℕ) (a : Ahead) → Sound p start n a → Closed a → Closed (layer a)
  layer-Closed n a sound closed id to s t h es m et =
      elim (see_frontier-Accounts p start a.seen a.reached (record a { reached = [] })
        (λ i k. inl k) id h) [
          | inl before ↦ inl (layer-target n a id to s t sound closed before es m et)
          | inr next ↦ inr next
        ]

  abbrev Covers : ℕ → Ahead → Type 0
  Covers n a = (id : String) → Near p start n id → contains id a.seen ≡ true

  layer-Covers :
      (n : ℕ) (a : Ahead) → Sound p start n a → Closed a → Covers n a → Covers (suc n) (layer a)
  layer-Covers n a sound closed covers _ at_start =
      see_frontier-Keeps p start a.reached (record a { reached = [] }) start (covers start at_start)
  layer-Covers n a sound closed covers _ (by_move {id = id} {to = to} s t near es m et) =
      layer-target n a id to s t sound closed (covers id near) es m et

  look-Covers :
      (n k m : ℕ) (a : Ahead)
      → m ≡ n + k
      → Sound p start k a
      → Closed a
      → Covers k a
      → Covers m (look n p a)
  unfolding look
  look-Covers zero k m a e sound closed covers =
      let same : k ≡ m = omega arith in subst (λ i. Covers i a) same covers
  look-Covers (suc n) k m a e sound closed covers =
      look-Covers n (suc k) m (layer a) (omega arith)
        (see_frontier-Sound p start k a.reached (record a { reached = [] }) sound.1
          (All-suc p start k a.seen sound.0, tt))
        (layer-Closed k a sound closed) (layer-Covers k a sound closed covers)

one_iff :
    (n : ℕ) (same seen : Bool)
    → n + one_if same ≡ one_if seen
    → (n ≡ 1) ↔ ((same ≡ false) × (seen ≡ true))
one_iff n true true e = ground arith
one_iff n true false e = ground arith
one_iff n false true e = ground arith
one_iff n false false e = ground arith

differs_iff : (a b : String) → (str_eq a b ≡ false) ↔ (a ≢ b)
differs_iff a b = ground (arith, eq_iff a b)

module _ (p : Procedure) (current : ProcedureStep) (known : step p current.id ≡ some current) where
  first-Sound : Sound p current.id 0 (at_first current)
  first-Sound = ((at_start, tt), ((at_start, known), tt))

  first-Closed : Closed p current.id (at_first current)
  first-Closed id to s t h es m et = inr h

  first-Covers : Covers p current.id 0 (at_first current)
  first-Covers _ at_start = ground (arith, eq_refl current.id)

  abbrev seen_at : ℕ → List String
  seen_at n = (look n p (at_first current)).seen

  seen-Near : (n : ℕ) (id : String) → contains id (seen_at n) ≡ true → Near p current.id n id
  seen-Near n id h =
      All-contains (Near p current.id n) id (seen_at n) h
        (look-Sound p current.id n 0 n (at_first current) (omega arith) first-Sound).0

  Near-seen : (n : ℕ) (id : String) → Near p current.id n id → contains id (seen_at n) ≡ true
  Near-seen n id near =
      look-Covers p current.id n 0 n (at_first current) (omega arith) first-Sound first-Closed
        first-Covers id near

  -- The preview shows, and exactly once, the steps other than the current one that at most `depth`
  -- moves lead to, for a current step that the procedure has.
  pub ahead_iff :
      (depth : ℤ) (id : String)
      → (shown id (steps_ahead p current depth) ≡ 1)
        ↔ ((id ≢ current.id) × Near p current.id (at_least_zero depth) id)
  unfolding steps_ahead
  ahead_iff depth id =
      let n = at_least_zero depth in
      let counts =
        look-Counts p current.id id n (at_first current) (at_first-Counts p current id) in
      let (to, from) =
        one_iff (shown id (look n p (at_first current)).found) (str_eq id current.id)
          (contains id (seen_at n)) counts in
      (
        λ once.
            let (other, seen) = to once in
            ((differs_iff id current.id).0 other, seen-Near n id seen),
        λ h. from ((differs_iff id current.id).1 h.0, Near-seen n id h.1),
      )
