-- ===== src/Campaign/Worker/Picked.antt =====
-- The row that the dialler's claim picks is one of the table's rows.
use mathlib.Core.Path.{subst}
use turncall.Prelude.{
  ℕ, ◌≡◌, refl, Bool, Option, none, some, List, [], ◌∷◌, Among, filter, ◌⊎◌, inl, inr, Bool-cases,
  sym,
}
use turncall.Campaign.{TargetRow, Db}
use turncall.Campaign.Claims.{
  better, first_by, first_pending, due_by, never_set, sooner, earlier_in_list, coalesce,
  next_target,
}

map_inr : {A B C : Type 0} → (B → C) → A ⊎ B → A ⊎ C
map_inr f (inl a) = inl a
map_inr f (inr b) = inr (f b)

filter-Among :
    (p : TargetRow → Bool) (t : TargetRow) (xs : List TargetRow)
    → Among t (filter p xs)
    → Among t xs
filter-Among p t [] h = h
filter-Among p t (x ∷ xs) h = elim (Bool-cases (p x)) [
  | inl hit ↦
      let kept : filter p (x ∷ xs) ≡ x ∷ filter p xs = rw hit refl in
      let h' : (t ≡ x) ⊎ Among t (filter p xs) = subst (Among t) kept h in
      map_inr (filter-Among p t xs) h'
  | inr miss ↦
      let dropped : filter p (x ∷ xs) ≡ filter p xs = rw miss refl in
      inr (filter-Among p t xs (subst (Among t) dropped h))
]

better-Among :
    (before : TargetRow → TargetRow → Bool) (x : TargetRow) (xs : List TargetRow)
    (o : Option TargetRow)
    → ((u : TargetRow) → o ≡ some u → Among u xs)
    → Among (better before x o) (x ∷ xs)
unfolding better
better-Among before x xs none k = inl refl
better-Among before x xs (some u) k = elim (Bool-cases (before u x)) [
  | inl first ↦
      let it : better before x (some u) ≡ u = rw first refl in
      inr (subst (λ r. Among r xs) (sym it) (k u refl))
  | inr later ↦ inl (rw later refl)
]

first_by-Among :
    (before : TargetRow → TargetRow → Bool) (xs : List TargetRow) (t : TargetRow)
    → first_by before xs ≡ some t
    → Among t xs
unfolding first_by
first_by-Among before [] t e = cc
first_by-Among before (x ∷ xs) t e =
    let is_better : better before x (first_by before xs) ≡ t = cc in
    subst (λ r. Among r (x ∷ xs)) is_better
      (better-Among before x xs (first_by before xs) (first_by-Among before xs))

first_pending-Among :
    (campaign : ℕ) (locked : ℕ → Bool) (where_ : TargetRow → Bool)
    (before : TargetRow → TargetRow → Bool) (db : Db) (t : TargetRow)
    → first_pending campaign locked where_ before db ≡ some t
    → Among t db.targets
unfolding first_pending
first_pending-Among campaign locked where_ before db t e =
    filter-Among _ t db.targets (first_by-Among before _ t e)

coalesce-cases :
    (a b : Option TargetRow) (t : TargetRow) → coalesce a b ≡ some t → (a ≡ some t) ⊎ (b ≡ some t)
coalesce-cases none b t e = inr e
coalesce-cases (some u) b t e = inl e

pub next_target-Among :
    (campaign : ℕ) (locked : ℕ → Bool) (now : ℕ) (db : Db) (t : TargetRow)
    → next_target campaign locked now db ≡ some t
    → Among t db.targets
unfolding next_target
next_target-Among campaign locked now db t e = elim (coalesce-cases _ _ t e) [
  | inl due ↦
      first_pending-Among campaign locked (λ r. due_by now r.next_attempt_at) sooner db t due
  | inr new ↦
      first_pending-Among campaign locked (λ r. never_set r.next_attempt_at) earlier_in_list db t
        new
]
