-- ===== src/Redaction/Policy/Fresh.antt =====
-- How old a policy may be that this process applies.
use turncall.Prelude.{
  ℕ, ◌+◌, ◌≤◌, ◌≡◌, ◌≢◌, refl, ap, ◌∙◌, List, [], ◌∷◌, Option, none, some, arith, ◌==◌, ◌⊎◌, inl,
  inr, Bool-cases, Option-cases, ==_iff,
}
use turncall.Limits.{at_number}
use turncall.Redaction.Policy.{
  RedactionPolicy, Cached, Redacting, Projects, Process, Use, asks, sees, fails, arrives, commits,
  elsewhere, Reply, returned, awaits_row, policy_ttl_seconds, read_row, read_policy, trusted,
  policy_for_project, asked_for, item_at, row_seen, row_arrived, use_cache, run,
}
use turncall.Redaction.Policy.Steps.{
  ArriveBy, NoWrites, AllCurrent, Bounded, FreshOr, differs, remember-FreshOr, run-Bounded, HasRow,
  NoWrites-cons, run-HasRow, AllCurrent-drop, AllCurrent-item,
}

-- After the change nothing old can come back: the row stands, an entry is new or its time to live is
-- bounded, and what is on its way is new.
record IsFresh (t p : ℕ) (row : Redacting) (s : Process) : Type 0 where
  has_row : HasRow p row s
  entry : FreshOr t (read_row (some row)) (s.cache p)
  current : AllCurrent p (read_row (some row)) s.on_the_way

seen-IsFresh :
    (t p : ℕ) (row : Redacting) (o : Option ℕ) (i : ℕ) (s : Process)
    → IsFresh t p row s
    → IsFresh t p row (row_seen o i s)
unfolding row_seen read_policy
seen-IsFresh t p row none i s f = f
seen-IsFresh t p row (some q) i s f = record {
  has_row = f.has_row;
  entry = f.entry;
  current = (
    elim (Bool-cases (q == p)) [
      | inl same ↦ inr (ap read_row (ap s.projects ((==_iff q p).0 same) ∙ f.has_row))
      | inr other ↦ inl (λ (is : q ≡ p). absurd (ground (arith, other, is)))
    ],
    f.current,
  );
}

arrived-IsFresh :
    (t p : ℕ) (row : Redacting) (o : Option (ℕ × Option RedactionPolicy)) (now i : ℕ) (s : Process)
    → item_at i s.on_the_way ≡ o
    → IsFresh t p row s
    → IsFresh t p row (row_arrived o now i s)
unfolding row_arrived
arrived-IsFresh t p row none now i s e f = f
arrived-IsFresh t p row (some (q, policy)) now i s e f = record {
  has_row = f.has_row;
  entry =
      remember-FreshOr t now q p (read_row (some row)) policy s.cache
        (AllCurrent-item p _ i q policy s.on_the_way f.current e) f.entry;
  current = AllCurrent-drop p _ i s.on_the_way f.current;
}

asked-IsFresh :
    (t p : ℕ) (row : Redacting) (r : Reply) (q : ℕ) (s : Process)
    → IsFresh t p row s
    → IsFresh t p row (asked_for r q s)
unfolding asked_for
asked-IsFresh t p row (returned policy) q s f = f
asked-IsFresh t p row awaits_row q s f = record {
  has_row = f.has_row;
  entry = f.entry;
  current = f.current;
}

written-IsFresh :
    (t p q : ℕ) (row other : Redacting) (s : Process)
    → q ≢ p
    → IsFresh t p row s
    → IsFresh t p row (record s { projects = at_number s.projects q (some other) })
written-IsFresh t p q row other s apart f = record {
  has_row = rw (differs q p apart) f.has_row;
  entry = f.entry;
  current = f.current;
}

use-IsFresh :
    (t p : ℕ) (row : Redacting) (x : Use) (s : Process)
    → NoWrites p (x ∷ [])
    → IsFresh t p row s
    → IsFresh t p row (use_cache x s)
unfolding use_cache
use-IsFresh t p row (asks now q) s n f = asked-IsFresh t p row _ q s f
use-IsFresh t p row (sees i) s n f = seen-IsFresh t p row _ i s f
use-IsFresh t p row (fails i) s n f = record {
  has_row = f.has_row;
  entry = f.entry;
  current = f.current;
}
use-IsFresh t p row (arrives now i) s n f = arrived-IsFresh t p row _ now i s refl f
use-IsFresh t p row (commits q other) s n f = record {
  has_row = (written-IsFresh t p q row other s n.0 f).has_row;
  entry = f.entry;
  current = (inl n.0, f.current);
}
use-IsFresh t p row (elsewhere q other) s n f = written-IsFresh t p q row other s n.0 f

run-IsFresh :
    (t p : ℕ) (row : Redacting) (xs : List Use) (s : Process)
    → NoWrites p xs
    → IsFresh t p row s
    → IsFresh t p row (run xs s)
unfolding run
run-IsFresh t p row [] s n f = f
run-IsFresh t p row (x ∷ xs) s n f =
    let (one, more) = NoWrites-cons p x xs n in
    run-IsFresh t p row xs (use_cache x s) more (use-IsFresh t p row x s one f)

late_entry :
    (t now : ℕ) (current : Option RedactionPolicy) (x : Cached) (policy : Option RedactionPolicy)
    → FreshOr t current x
    → t + 30 ≤ now
    → trusted now x ≡ some policy
    → policy ≡ current
unfolding trusted
late_entry t now current none policy h late e = cc
late_entry t now current (some (until, kept)) policy (inl old) late e = absurd (ground arith)
late_entry t now current (some (until, kept)) policy (inr same) late e = ground arith

-- A read gets the policy of this row: from the cache, or from the row, and what is on its way to the
-- cache is that policy too.
abbrev pub Applies : ℕ → ℕ → Redacting → Process → Type 0
Applies now p row s =
    ((policy_for_project now p s.cache ≡ returned (read_row (some row)))
      ⊎ ((policy_for_project now p s.cache ≡ awaits_row)
          × (read_policy s.projects p ≡ read_row (some row))))
    × AllCurrent p (read_row (some row)) s.on_the_way

IsFresh-Applies :
    (t now p : ℕ) (row : Redacting) (s : Process)
    → IsFresh t p row s
    → t + 30 ≤ now
    → Applies now p row s
unfolding policy_for_project read_policy
IsFresh-Applies t now p row s f late = (
  elim (Option-cases (trusted now (s.cache p))) [
    | inr (policy, e) ↦ inl (
        rw (e, policy_for_project)
          (ap returned (late_entry t now _ (s.cache p) policy f.entry late e)))
    | inl e ↦ inr (rw (e, policy_for_project) refl, ap read_row f.has_row)
  ],
  f.current,
)

Bounded-FreshOr :
    (t : ℕ) (current : Option RedactionPolicy) (x : Cached) → Bounded t x → FreshOr t current x
Bounded-FreshOr t current none h = tt
Bounded-FreshOr t current (some (until, policy)) h = inl h

-- The process before it has read anything.
abbrev pub started : Projects → Process
started db = record { projects = db; cache = λ p. none; asked = []; on_the_way = [] }

-- The process after another replica has changed the row of `p`, and after what follows.
abbrev pub since_change : List Use → ℕ → Redacting → List Use → Projects → Process
since_change before p row landing db =
    run landing (use_cache (elsewhere p row) (run before (started db)))

-- When another replica changes a project's redaction, this process applies the new policy from 30
-- seconds after an instant `t` by which every policy that it had read or committed before the change has
-- arrived in its cache: a read gets the new policy from the cache or from the row. It may have read and
-- written anything before, and it may read and write other projects in between and after, in any order
-- and with reads that fail.
pub fresh_within_ttl :
    (t now p : ℕ) (row : Redacting) (before landing after : List Use) (db : Projects)
    → ArriveBy t before
    → ArriveBy t landing
    → NoWrites p landing
    → NoWrites p after
    → AllCurrent p (read_row (some row)) (since_change before p row landing db).on_the_way
    → t + policy_ttl_seconds ≤ now
    → Applies now p row (run after (since_change before p row landing db))
unfolding use_cache
fresh_within_ttl t now p row before landing after db b l n n' current late =
    let s : Process = use_cache (elsewhere p row) (run before (started db)) in
    let written : HasRow p row s = rw ((==_iff p p).1 refl) in
    let bounded : Bounded t (s.cache p) = run-Bounded t p before (started db) b tt in
    let landed : IsFresh t p row (run landing s) = record {
      has_row = run-HasRow p row landing s n written;
      entry = Bounded-FreshOr t _ _ (run-Bounded t p landing s l bounded);
      current = current;
    } in
    IsFresh-Applies t now p row _ (run-IsFresh t p row after (run landing s) n' landed) late
