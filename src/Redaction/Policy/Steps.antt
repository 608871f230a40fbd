-- ===== src/Redaction/Policy/Steps.antt =====
-- What each step of the policy cache keeps of its entries, of the rows and of what is on its way.
use turncall.Prelude.{
  ℕ, zero, suc, ◌+◌, ◌≤◌, false, ◌≡◌, ◌≢◌, refl, List, [], ◌∷◌, Option, none, some, arith, ◌==◌,
  ◌⊎◌, inl, inr, Bool-cases,
}
use turncall.Redaction.Policy.{
  RedactionPolicy, Cached, Cache, Redacting, Process, Use, asks, sees, fails, arrives, commits,
  elsewhere, Reply, returned, awaits_row, remember_policy, asked_for, after_row, drop_at, item_at,
  row_seen, row_arrived, use_cache, run,
}

-- No policy arrives later than `t`.
abbrev pub ArriveBy : ℕ → List Use → Type 0
ArriveBy t [] = Unit
ArriveBy t (arrives now i ∷ rest) = (now ≤ t) × ArriveBy t rest
ArriveBy t (_ ∷ rest) = ArriveBy t rest

-- Nobody writes the project's row.
abbrev pub NoWrites : ℕ → List Use → Type 0
NoWrites p [] = Unit
NoWrites p (commits project row ∷ rest) = (project ≢ p) × NoWrites p rest
NoWrites p (elsewhere project row ∷ rest) = (project ≢ p) × NoWrites p rest
NoWrites p (_ ∷ rest) = NoWrites p rest

-- The policies on their way to the project `p` are all `current`.
abbrev pub AllCurrent : ℕ → Option RedactionPolicy → List (ℕ × Option RedactionPolicy) → Type 0
AllCurrent p current [] = Unit
AllCurrent p current ((q, policy) ∷ rest) =
    ((q ≢ p) ⊎ (policy ≡ current)) × AllCurrent p current rest

-- An entry is trusted for its time to live at most.
abbrev pub Bounded : ℕ → Cached → Type 0
Bounded t none = Unit
Bounded t (some (until, policy)) = until ≤ t + 30

-- An entry holds the policy, or is not trusted any more when the time to live is over.
abbrev pub FreshOr : ℕ → Option RedactionPolicy → Cached → Type 0
FreshOr t current none = Unit
FreshOr t current (some (until, policy)) = (until ≤ t + 30) ⊎ (policy ≡ current)

remember-Bounded :
    (t now q p : ℕ) (policy : Option RedactionPolicy) (c : Cache)
    → now ≤ t
    → Bounded t (c p)
    → Bounded t ((after_row now q policy c).1 p)
unfolding after_row remember_policy
remember-Bounded t now q p policy c le h = elim (Bool-cases (q == p)) [
  | inl same ↦ rw same (omega arith)
  | inr other ↦ rw other h
]

pub differs : (q p : ℕ) → q ≢ p → (q == p) ≡ false
differs q p h = ground arith

pub remember-FreshOr :
    (t now q p : ℕ) (current policy : Option RedactionPolicy) (c : Cache)
    → ((q ≢ p) ⊎ (policy ≡ current))
    → FreshOr t current (c p)
    → FreshOr t current ((after_row now q policy c).1 p)
unfolding after_row remember_policy
remember-FreshOr t now q p current policy c (inl apart) h = rw (differs q p apart) h
remember-FreshOr t now q p current policy c (inr is) h = elim (Bool-cases (q == p)) [
  | inl same ↦ rw same (inr is)
  | inr other ↦ rw other h
]

arrived-Bounded :
    (t now i p : ℕ) (o : Option (ℕ × Option RedactionPolicy)) (s : Process)
    → now ≤ t
    → Bounded t (s.cache p)
    → Bounded t ((row_arrived o now i s).cache p)
unfolding row_arrived
arrived-Bounded t now i p none s le h = h
arrived-Bounded t now i p (some (q, policy)) s le h = remember-Bounded t now q p policy s.cache le h

asked_for-cache : (r : Reply) (project : ℕ) (s : Process) → (asked_for r project s).cache ≡ s.cache
unfolding asked_for
asked_for-cache (returned policy) project s = refl
asked_for-cache awaits_row project s = refl

row_seen-cache : (o : Option ℕ) (i : ℕ) (s : Process) → (row_seen o i s).cache ≡ s.cache
unfolding row_seen
row_seen-cache none i s = refl
row_seen-cache (some project) i s = refl

use-Bounded :
    (t p : ℕ) (x : Use) (s : Process)
    → ArriveBy t (x ∷ [])
    → Bounded t (s.cache p)
    → Bounded t ((use_cache x s).cache p)
unfolding use_cache
use-Bounded t p (asks now q) s b h = rw asked_for-cache h
use-Bounded t p (sees i) s b h = rw row_seen-cache h
use-Bounded t p (fails i) s b h = h
use-Bounded t p (arrives now i) s b h = arrived-Bounded t now i p _ s b.0 h
use-Bounded t p (commits q row) s b h = h
use-Bounded t p (elsewhere q row) s b h = h

ArriveBy-cons :
    (t : ℕ) (x : Use) (xs : List Use) → ArriveBy t (x ∷ xs) → ArriveBy t (x ∷ []) × ArriveBy t xs
ArriveBy-cons t (asks now q) xs b = (tt, b)
ArriveBy-cons t (sees i) xs b = (tt, b)
ArriveBy-cons t (fails i) xs b = (tt, b)
ArriveBy-cons t (arrives now i) xs b = ((b.0, tt), b.1)
ArriveBy-cons t (commits q row) xs b = (tt, b)
ArriveBy-cons t (elsewhere q row) xs b = (tt, b)

pub run-Bounded :
    (t p : ℕ) (xs : List Use) (s : Process)
    → ArriveBy t xs
    → Bounded t (s.cache p)
    → Bounded t ((run xs s).cache p)
unfolding run
run-Bounded t p [] s b h = h
run-Bounded t p (x ∷ xs) s b h =
    let (one, more) = ArriveBy-cons t x xs b in
    run-Bounded t p xs (use_cache x s) more (use-Bounded t p x s one h)

-- The project has this row.
abbrev pub HasRow : ℕ → Redacting → Process → Type 0
HasRow p row s = s.projects p ≡ some row

pub NoWrites-cons :
    (p : ℕ) (x : Use) (xs : List Use) → NoWrites p (x ∷ xs) → NoWrites p (x ∷ []) × NoWrites p xs
NoWrites-cons p (asks now q) xs n = (tt, n)
NoWrites-cons p (sees i) xs n = (tt, n)
NoWrites-cons p (fails i) xs n = (tt, n)
NoWrites-cons p (arrives now i) xs n = (tt, n)
NoWrites-cons p (commits q row) xs n = ((n.0, tt), n.1)
NoWrites-cons p (elsewhere q row) xs n = ((n.0, tt), n.1)

asked_for-projects :
    (r : Reply) (project : ℕ) (s : Process) → (asked_for r project s).projects ≡ s.projects
unfolding asked_for
asked_for-projects (returned policy) project s = refl
asked_for-projects awaits_row project s = refl

row_seen-projects : (o : Option ℕ) (i : ℕ) (s : Process) → (row_seen o i s).projects ≡ s.projects
unfolding row_seen
row_seen-projects none i s = refl
row_seen-projects (some project) i s = refl

row_arrived-projects :
    (o : Option (ℕ × Option RedactionPolicy)) (now i : ℕ) (s : Process)
    → (row_arrived o now i s).projects ≡ s.projects
unfolding row_arrived
row_arrived-projects none now i s = refl
row_arrived-projects (some (q, policy)) now i s = refl

use-HasRow :
    (p : ℕ) (row : Redacting) (x : Use) (s : Process)
    → NoWrites p (x ∷ [])
    → HasRow p row s
    → HasRow p row (use_cache x s)
unfolding use_cache
use-HasRow p row (asks now q) s n h = rw asked_for-projects h
use-HasRow p row (sees i) s n h = rw row_seen-projects h
use-HasRow p row (fails i) s n h = h
use-HasRow p row (arrives now i) s n h = rw row_arrived-projects h
use-HasRow p row (commits q other) s n h = rw (differs q p n.0) h
use-HasRow p row (elsewhere q other) s n h = rw (differs q p n.0) h

pub run-HasRow :
    (p : ℕ) (row : Redacting) (xs : List Use) (s : Process)
    → NoWrites p xs
    → HasRow p row s
    → HasRow p row (run xs s)
unfolding run
run-HasRow p row [] s n h = h
run-HasRow p row (x ∷ xs) s n h =
    let (one, more) = NoWrites-cons p x xs n in
    run-HasRow p row xs (use_cache x s) more (use-HasRow p row x s one h)

pub AllCurrent-drop :
    (p : ℕ) (current : Option RedactionPolicy) (i : ℕ) (xs : List (ℕ × Option RedactionPolicy))
    → AllCurrent p current xs
    → AllCurrent p current (drop_at i xs)
AllCurrent-drop p current i [] h = tt
AllCurrent-drop p current zero (x ∷ xs) h = h.1
AllCurrent-drop p current (suc i) (x ∷ xs) h = (h.0, AllCurrent-drop p current i xs h.1)

pub AllCurrent-item :
    (p : ℕ) (current : Option RedactionPolicy) (i q : ℕ) (policy : Option RedactionPolicy)
    (xs : List (ℕ × Option RedactionPolicy))
    → AllCurrent p current xs
    → item_at i xs ≡ some (q, policy)
    → ((q ≢ p) ⊎ (policy ≡ current))
AllCurrent-item p current i q policy [] h e = cc
AllCurrent-item p current zero q policy ((r, other) ∷ xs) (inl apart, more) e =
    inl (λ same. apart (cc))
AllCurrent-item p current zero q policy ((r, other) ∷ xs) (inr is, more) e = inr cc
AllCurrent-item p current (suc i) q policy (x ∷ xs) h e =
    AllCurrent-item p current i q policy xs h.1 e
