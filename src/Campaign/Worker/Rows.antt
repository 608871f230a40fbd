-- ===== src/Campaign/Worker/Rows.antt =====
-- Properties of every row, under the UPDATEs and the claim.
use mathlib.Core.Path.{subst}
use turncall.Prelude.{
  ◌∙◌, ℕ, ◌≡◌, refl, Bool, true, false, not, ◌&&◌, ◌||◌, Option, none, some, List, [], ◌∷◌, any,
  filter, ◌==◌, if◌then◌else◌, arith, Bool-cases, inl, inr,
}
use turncall.Campaign.{pending, TargetRow, Db}
use turncall.Campaign.Table.{is_target_status, update_where, campaign_running}
use turncall.Campaign.Claims.{
  better, first_by, first_pending, due_by, never_set, sooner, earlier_in_list, coalesce,
  next_target,
}

abbrev pub Every {ℓ} : {A : Type ℓ} → (A → Bool) → List A → Type 0
Every p [] = Unit
Every p (x ∷ xs) = (p x ≡ true) × Every p xs

pub Every-update_where {ℓ} :
    {A : Type ℓ} (q p : A → Bool) (f : A → A)
    → ((x : A) → q x ≡ true → p x ≡ true → q (f x) ≡ true)
    → (xs : List A) → Every q xs
    → Every q (update_where p f xs)
Every-update_where q p f keep [] h = tt
Every-update_where q p f keep (x ∷ xs) h = elim (Bool-cases (p x)) [
  | inl hit ↦ rw hit (keep x h.0 hit, Every-update_where q p f keep xs h.1)
  | inr miss ↦ rw miss (h.0, Every-update_where q p f keep xs h.1)
]

-- No row satisfies what is against a property of every row.
pub any-Every {ℓ} :
    {A : Type ℓ} (q p : A → Bool)
    → ((x : A) → q x ≡ true → p x ≡ false)
    → (xs : List A) → Every q xs
    → any p xs ≡ false
any-Every q p miss [] h = refl
any-Every q p miss (x ∷ xs) h = rw (miss x h.0, any-Every q p miss xs h.1)

pub Every-mono {ℓ} :
    {A : Type ℓ} (p q : A → Bool)
    → ((x : A) → p x ≡ true → q x ≡ true)
    → (xs : List A) → Every p xs
    → Every q xs
Every-mono p q le [] h = tt
Every-mono p q le (x ∷ xs) h = (le x h.0, Every-mono p q le xs h.1)

pub Every-filter {ℓ} : {A : Type ℓ} (p : A → Bool) (xs : List A) → Every p (filter p xs)
Every-filter p [] = tt
Every-filter p (x ∷ xs) = elim (Bool-cases (p x)) [
  | inl hit ↦ rw hit (hit, Every-filter p xs)
  | inr miss ↦ rw miss (Every-filter p xs)
]

better-Every :
    (before : TargetRow → TargetRow → Bool) (q : TargetRow → Bool) (t : TargetRow)
    (o : Option TargetRow)
    → q t ≡ true
    → ((u : TargetRow) → o ≡ some u → q u ≡ true)
    → q (better before t o) ≡ true
unfolding better
better-Every before q t none h k = h
better-Every before q t (some u) h k = elim (Bool-cases (before u t)) [
  | inl first ↦ rw first (k u refl)
  | inr later ↦ rw later h
]

-- What holds of every row holds of the one that is picked.
pub first_by-Every :
    (before : TargetRow → TargetRow → Bool) (q : TargetRow → Bool) (xs : List TargetRow)
    (t : TargetRow)
    → first_by before xs ≡ some t
    → Every q xs
    → q t ≡ true
unfolding first_by
first_by-Every before q [] t e h = cc
first_by-Every before q (x ∷ xs) t e h =
    let e' : better before x (first_by before xs) ≡ t = cc in
    subst (λ r. q r ≡ true) e'
      (better-Every before q x (first_by before xs) h.0
        (λ u eq. first_by-Every before q xs u eq h.1))

Every-and-filter {ℓ} :
    {A : Type ℓ} (p q : A → Bool) (xs : List A) → Every q xs → Every (λ x. p x && q x) (filter p xs)
Every-and-filter p q [] h = tt
Every-and-filter p q (x ∷ xs) h = elim (Bool-cases (p x)) [
  | inl hit ↦ rw hit (rw (hit, h.0), Every-and-filter p q xs h.1)
  | inr miss ↦ rw miss (Every-and-filter p q xs h.1)
]

picked :
    (campaign : ℕ) (locked : ℕ → Bool) (where_ : TargetRow → Bool)
    (before : TargetRow → TargetRow → Bool) (db : Db) (q : TargetRow → Bool) (t : TargetRow)
    → first_pending campaign locked where_ before db ≡ some t
    → Every q db.targets
    → (is_target_status t.status pending ≡ true)
      × (t.campaign_id ≡ campaign)
      × (campaign_running campaign db ≡ true)
      × (where_ t ≡ true)
      × (locked t.id ≡ false)
      × (q t ≡ true)
unfolding first_pending
picked campaign locked where_ before db q t e h = ground (
  arith,
  first_by-Every before
      (λ t.
        (t.campaign_id == campaign
          && campaign_running campaign db
          && is_target_status t.status pending
          && where_ t
          && not (locked t.id))
        && q t)
      _ t e (Every-and-filter _ q db.targets h),
)

-- A target with no instant set, or one that has come.
abbrev pub is_due : ℕ → TargetRow → Bool
unfolding due_by
is_due now t = never_set t.next_attempt_at || due_by now t.next_attempt_at

-- What is picked is a pending target of the campaign, which runs, that is due and not locked.
pub next_target-lem :
    (campaign : ℕ) (locked : ℕ → Bool) (now : ℕ) (db : Db) (q : TargetRow → Bool) (t : TargetRow)
    → next_target campaign locked now db ≡ some t
    → Every q db.targets
    → (t.status ≡ pending)
      × (t.campaign_id ≡ campaign)
      × (campaign_running campaign db ≡ true)
      × (is_due now t ≡ true)
      × (locked t.id ≡ false)
      × (q t ≡ true)
unfolding next_target
next_target-lem campaign locked now db q t e h =
    go (first_pending campaign locked (λ t. due_by now t.next_attempt_at) sooner db) refl e
  where
    due : TargetRow → Bool
    due t = due_by now t.next_attempt_at

    fresh : TargetRow → Bool
    fresh t = never_set t.next_attempt_at

    go :
        (o : Option TargetRow)
        → first_pending campaign locked due sooner db ≡ o
        → coalesce o (first_pending campaign locked fresh earlier_in_list db) ≡ some t
        → (t.status ≡ pending)
          × (t.campaign_id ≡ campaign)
          × (campaign_running campaign db ≡ true)
          × (is_due now t ≡ true)
          × (locked t.id ≡ false)
          × (q t ≡ true)
    go none eq e = ground (arith, picked campaign locked fresh earlier_in_list db q t e h)
    go (some u) eq e = ground (arith, picked campaign locked due sooner db q t (eq ∙ e) h)

pub if_holds : (P : Db → Type 0) (b : Bool) (db db' : Db) → P db → P db' → P (if b then db else db')
if_holds P true db db' h h' = h
if_holds P false db db' h h' = h'

pub all_true {ℓ} : {A : Type ℓ} (xs : List A) → Every (λ _. true) xs
all_true [] = tt
all_true (x ∷ xs) = (refl, all_true xs)
