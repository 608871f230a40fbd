-- ===== src/Limits/Retry.antt =====
-- What the wait of a refusal promises: the script's answer to a key without a free place.
use mathlib.Core.Path.{subst}
use turncall.Prelude.{
  ℕ, ◌+◌, ◌-◌, ◌≤◌, ◌<◌, ◌≡◌, true, List, [], ◌∷◌, length, ltb, arith, Bool-cases, inl, inr, sym,
}
use turncall.Limits.{
  Entry, ZSet, empty, current, purge, is_full, first_score, wait_for_oldest, admit,
}
use turncall.Limits.Window.{length-filter-le, WithinTtl}
use turncall.Limits.Count.{Request, run, AllLimited, run_within_limit, length-purge-le}
use turncall.Limits.Expiry.{alive, InOrder, IsTimed-run, purge-eq-alive, WithinTtl-purge}

alive_before :
    (now : ℕ) (e : Entry) (l : List Entry) → now < first_score e l → alive now (e ∷ l) ≡ e ∷ l
unfolding first_score
alive_before now e [] h = ground arith
alive_before now e (d ∷ l) h = ground (arith, alive_before now d l)

alive_after :
    (now : ℕ) (e : Entry) (l : List Entry)
    → first_score e l ≤ now
    → length (alive now (e ∷ l)) ≤ length l
unfolding first_score
alive_after now e [] h = ground arith
alive_after now e (d ∷ l) h =
    ground (arith, alive_after now d l, length-filter-le (λ (x : Entry). ltb now x.score) (d ∷ l))

-- Every score lies after `now`.
abbrev After : ℕ → List Entry → Type 0
After now [] = Unit
After now (e ∷ l) = (now < e.score) × After now l

After-alive : (now : ℕ) (l : List Entry) → After now (alive now l)
After-alive now [] = tt
After-alive now (e ∷ l) = ground (arith, After-alive now l)

first_score-After :
    (now : ℕ) (e : Entry) (l : List Entry) → After now (e ∷ l) → now < first_score e l
unfolding first_score
first_score-After now e [] h = h.0
first_score-After now e (d ∷ l) h = omega (arith, first_score-After now d l h.1)

first_score_within :
    (bound : ℕ) (e : Entry) (l : List Entry) → WithinTtl bound (e ∷ l) → first_score e l ≤ bound
unfolding first_score
first_score_within bound e [] h = h.0
first_score_within bound e (d ∷ l) h = omega arith

After-purge : (now : ℕ) (z : ZSet) → After now (purge now z)
unfolding purge current
After-purge now z = elim (Bool-cases (ltb z.expires now)) [
  | inl gone ↦ rw gone tt
  | inr there ↦ rw there (After-alive now z.entries)
]

-- The refused set, read again before the oldest member has expired and when it has.
module _ (now member limit ttl : ℕ) (z : ZSet) where
  abbrev wait_on : List Entry → ℕ
  wait_on kept = now + wait_for_oldest now kept

  full_later :
      (later : ℕ) (kept : List Entry)
      → After now kept
      → WithinTtl z.expires kept
      → is_full member limit kept ≡ true
      → now ≤ later
      → later < wait_on kept
      → (admit later member limit ttl (record z { entries = kept })).0 ≡ wait_on kept - later
  unfolding is_full wait_for_oldest admit
  full_later later [] after within full le lt = ground arith
  full_later later (e ∷ l) after within full le lt = ground (
    arith,
    first_score-After now e l after,
    alive_before later e l,
    purge-eq-alive later (record z { entries = e ∷ l }) within,
  )

  free_at_hint :
      (kept : List Entry)
      → After now kept
      → WithinTtl z.expires kept
      → is_full member limit kept ≡ true
      → length kept ≤ limit
      → (admit (wait_on kept) member limit ttl (record z { entries = kept })).0 ≡ 0
  unfolding is_full wait_for_oldest admit
  free_at_hint [] after within full le = ground arith
  free_at_hint (e ∷ l) after within full le = ground (
    arith,
    first_score-After now e l after,
    alive_after (wait_on (e ∷ l)) e l,
    purge-eq-alive (wait_on (e ∷ l)) (record z { entries = e ∷ l }) within,
  )

  full_of_refused : 0 < (admit now member limit ttl z).0 → is_full member limit (purge now z) ≡ true
  unfolding admit
  full_of_refused h = ground arith

  admit-refused :
      is_full member limit (purge now z) ≡ true
      → admit now member limit ttl z
        ≡ (wait_for_oldest now (purge now z), record z { entries = purge now z })
  unfolding admit
  admit-refused h = ground arith

module _ (now member limit ttl : ℕ) (z : ZSet) (within : WithinTtl z.expires z.entries)
    (refused : 0 < (admit now member limit ttl z).0) where
  abbrev hint : ℕ
  hint = now + (admit now member limit ttl z).0

  abbrev after_refusal : ZSet
  after_refusal = (admit now member limit ttl z).1

  -- Until the wait of a refusal is over, with no other request in between, the same request is
  -- refused again, with exactly what is left of that wait.
  refusal_stands :
      (later : ℕ)
      → now ≤ later
      → later < hint
      → (admit later member limit ttl after_refusal).0 ≡ hint - later
  refusal_stands later le lt =
      let full = full_of_refused now member limit ttl z refused in
      let e = admit-refused now member limit ttl z full in
      subst (λ (r : ℕ × ZSet). (admit later member limit ttl r.1).0 ≡ now + r.0 - later) (sym e)
        (full_later now member limit ttl z later (purge now z) (After-purge now z)
          (WithinTtl-purge now z within) full le (subst (λ (r : ℕ × ZSet). later < now + r.0) e lt))

  -- When the wait of a refusal is over the same request is admitted, if no other was made in between
  -- and the set did not hold more members than the limit.
  retry_admits : length z.entries ≤ limit → (admit hint member limit ttl after_refusal).0 ≡ 0
  retry_admits le =
      let full = full_of_refused now member limit ttl z refused in
      subst (λ (r : ℕ × ZSet). (admit (now + r.0) member limit ttl r.1).0 ≡ 0)
        (sym (admit-refused now member limit ttl z full))
        (free_at_hint now member limit ttl z (purge now z) (After-purge now z)
          (WithinTtl-purge now z within) full (omega (arith, length-purge-le now z, le)))

-- The wait that a refusal answers is exact, for a set that admissions made, in the order of Redis's
-- clock, with the key's one window and limits of at most the refused request's: if nobody else asks in
-- between, the same request is refused until the wait is over, with exactly what is left of it, and it
-- is admitted when the wait is over.
pub wait_is_exact :
    (before : List Request) (now member limit ttl wait later : ℕ)
    → InOrder ttl 0 before
    → AllLimited limit before
    → (admit now member limit ttl (run before empty)).0 ≡ wait
    → 0 < wait
    → now ≤ later
    → later < now + wait
    → let refused = (admit now member limit ttl (run before empty)).1 in
      ((admit later member limit ttl refused).0 ≡ now + wait - later)
      × ((admit (now + wait) member limit ttl refused).0 ≡ 0)
wait_is_exact before now member limit ttl wait later order limited answer pos le lt =
    let z : ZSet = run before empty in
    let within =
      IsTimed-run ttl 0 before empty order (record { covered = tt; bounded = omega arith }) in
    let no_place : 0 < (admit now member limit ttl z).0 = subst (λ w. 0 < w) (sym answer) pos in
    let soon : later < now + (admit now member limit ttl z).0 =
      subst (λ w. later < now + w) (sym answer) lt in
    let kept : ZSet = (admit now member limit ttl z).1 in
    (
      subst (λ w. (admit later member limit ttl kept).0 ≡ now + w - later) answer
          (refusal_stands now member limit ttl z within no_place later le soon),
      subst (λ w. (admit (now + w) member limit ttl kept).0 ≡ 0) answer
          (retry_admits now member limit ttl z within no_place
            (run_within_limit limit before limited)),
    )
