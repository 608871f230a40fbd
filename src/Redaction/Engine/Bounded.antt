-- ===== src/Redaction/Engine/Bounded.antt =====
-- The backlog that the engine takes in, and its breaker.
use turncall.Prelude.{
  ℕ, zero, suc, ◌+◌, ◌-◌, ◌≤◌, ◌<◌, true, false, ◌≡◌, refl, List, [], ◌∷◌, arith, length, ◌⊎◌, inl,
}
use turncall.Redaction.Engine.{
  Engine, fresh, max_pending, retry_after_seconds, warm, on_loaded, ask, Outcome, answered,
  worker_died, raised, without, size_at, ends, Event, asked, load_ended, job_ended, at_instant,
  happen, run,
}

unfoldable pub sum : List ℕ → ℕ
sum [] = 0
sum (n ∷ rest) = n + sum rest

abbrev AllPositive : List ℕ → Type 0
AllPositive [] = Unit
AllPositive (n ∷ rest) = (0 < n) × AllPositive rest

-- The count is that of the calls in flight, and it is within the bound or one call's.
record IsCounted (e : Engine) : Type 0 where
  counted : e.pending ≡ sum e.jobs
  positive : AllPositive e.jobs
  bounded : (e.pending ≤ max_pending) ⊎ (length e.jobs ≤ 1)

sum-without : (i : ℕ) (ns : List ℕ) → sum (without i ns) + size_at i ns ≡ sum ns
unfolding sum without size_at
sum-without i [] = refl
sum-without zero (n ∷ rest) = omega arith
sum-without (suc i) (n ∷ rest) = omega (arith, sum-without i rest)

length-without-le : (i : ℕ) (ns : List ℕ) → length (without i ns) ≤ length ns
unfolding without
length-without-le i [] = omega arith
length-without-le zero (n ∷ rest) = omega arith
length-without-le (suc i) (n ∷ rest) = omega (arith, length-without-le i rest)

without-AllPositive : (i : ℕ) (ns : List ℕ) → AllPositive ns → AllPositive (without i ns)
unfolding without
without-AllPositive i [] h = h
without-AllPositive zero (n ∷ rest) h = h.1
without-AllPositive (suc i) (n ∷ rest) h = (h.0, without-AllPositive i rest h.1)

empty_of_sum : (ns : List ℕ) → AllPositive ns → sum ns ≡ 0 → length ns ≡ 0
unfolding sum
empty_of_sum [] h e = omega arith
empty_of_sum (n ∷ rest) h e = absurd (omega arith)

ask-IsCounted : (now more : ℕ) (e : Engine) → IsCounted e → IsCounted (ask now (suc more) e).1
unfolding ask sum warm
ask-IsCounted now more e h = ground (arith, empty_of_sum e.jobs h.positive)

-- Only the count and the calls in flight matter.
ends_job :
    (now i : ℕ) (e : Engine)
    → IsCounted e
    → {e' : Engine} → e'.pending ≡ e.pending - size_at i e.jobs
    → e'.jobs ≡ without i e.jobs
    → IsCounted e'
ends_job now i e h p j = record {
  counted = rw (p, j) (omega (arith, sum-without i e.jobs, h.counted));
  positive = rw j (without-AllPositive i e.jobs h.positive);
  bounded = rw (p, j) (ground (arith, length-without-le i e.jobs));
}

ends-IsCounted : (now i : ℕ) (o : Outcome) (e : Engine) → IsCounted e → IsCounted (ends now i o e)
unfolding ends
ends-IsCounted now i answered e h = ends_job now i e h refl refl
ends-IsCounted now i worker_died e h = ends_job now i e h refl refl
ends-IsCounted now i raised e h = ends_job now i e h refl refl

happen-IsCounted : (x : Event) (e : Engine) → IsCounted e → IsCounted (happen x e)
unfolding happen on_loaded
happen-IsCounted (asked now more) e h = ask-IsCounted now more e h
happen-IsCounted (load_ended now true) e h = record {
  counted = h.counted;
  positive = h.positive;
  bounded = h.bounded;
}
happen-IsCounted (load_ended now false) e h = record {
  counted = h.counted;
  positive = h.positive;
  bounded = h.bounded;
}
happen-IsCounted (job_ended now i outcome) e h = ends-IsCounted now i outcome e h

run-IsCounted : (xs : List Event) (e : Engine) → IsCounted e → IsCounted (run xs e)
unfolding run
run-IsCounted [] e h = h
run-IsCounted (x ∷ xs) e h = run-IsCounted xs (happen x e) (happen-IsCounted x e h)

-- Over any events the backlog is the number of texts of the calls in flight, and it is within the
-- bound unless it is the texts of one call alone.
pub run_bounded :
    (xs : List Event)
    → ((run xs fresh).pending ≡ sum (run xs fresh).jobs)
      × (((run xs fresh).pending ≤ max_pending) ⊎ (length (run xs fresh).jobs ≤ 1))
unfolding sum
run_bounded xs =
    let h : IsCounted (run xs fresh) =
      run-IsCounted xs fresh
        (record { counted = refl; positive = tt; bounded = inl (omega arith) }) in
    (h.counted, h.bounded)

-- Every event is at `t` or later.
abbrev pub AllAfter : ℕ → List Event → Type 0
AllAfter t [] = Unit
AllAfter t (x ∷ xs) = (t ≤ at_instant x) × AllAfter t xs

happen_stays_closed :
    (t : ℕ) (x : Event) (e : Engine)
    → t ≤ at_instant x
    → t + retry_after_seconds ≤ e.closed_until
    → t + retry_after_seconds ≤ (happen x e).closed_until
unfolding happen ask warm on_loaded ends
happen_stays_closed t (asked now more) e le h = ground arith
happen_stays_closed t (load_ended now true) e le h = h
happen_stays_closed t (load_ended now false) e le h = omega arith
happen_stays_closed t (job_ended now i answered) e le h = h
happen_stays_closed t (job_ended now i worker_died) e le h = omega arith
happen_stays_closed t (job_ended now i raised) e le h = h

run_stays_closed :
    (t : ℕ) (xs : List Event) (e : Engine)
    → AllAfter t xs
    → t + retry_after_seconds ≤ e.closed_until
    → t + retry_after_seconds ≤ (run xs e).closed_until
unfolding run
run_stays_closed t [] e le h = h
run_stays_closed t (x ∷ xs) e le h =
    run_stays_closed t xs (happen x e) le.1 (happen_stays_closed t x e le.0 h)

-- What opens the breaker: a load that fails, or a worker that dies.
abbrev pub Opens : Event → Type 0
Opens (asked now more) = ⊥
Opens (load_ended now ok) = ok ≡ false
Opens (job_ended now i outcome) = outcome ≡ worker_died

Opens-closed :
    (x : Event) (e : Engine)
    → Opens x
    → (happen x e).closed_until ≡ at_instant x + retry_after_seconds
unfolding happen on_loaded ends
Opens-closed (asked now more) e o = absurd o
Opens-closed (load_ended now ok) e o = rw o
Opens-closed (job_ended now i outcome) e o = rw o

-- For 300 seconds after a load fails or the worker dies every text is withheld and nothing is taken
-- in, whatever happens in between.
pub breaker_holds :
    (x : Event) (e : Engine) (xs : List Event) (now texts : ℕ)
    → Opens x
    → AllAfter (at_instant x) xs
    → now < at_instant x + retry_after_seconds
    → ask now texts (run xs (happen x e)) ≡ (false, run xs (happen x e))
unfolding ask
breaker_holds x e xs now texts o after early =
    let closed : at_instant x + retry_after_seconds ≤ (run xs (happen x e)).closed_until =
      run_stays_closed (at_instant x) xs (happen x e) after (omega (arith, Opens-closed x e o)) in
    ground arith
