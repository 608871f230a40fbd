-- ===== src/Events/Retries.antt =====
-- How often a delivery is tried, and what it waits.
use turncall.Prelude.{
  ℕ, zero, suc, ◌+◌, ◌*◌, ◌-◌, ◌≤◌, ◌<◌, true, false, List, [], ◌∷◌, ◌++◌, ltb, ◌≡◌, refl, arith,
  ◌∙◌, ap, ap₂,
}
use mathlib.Core.List.{append-nil}
use turncall.Events.{
  after_answer, Response, status, request_error, unexpected, success, failure, Delivery, go_on,
  attempt_from, deliver_webhook, power_of_two,
}

-- A failure that is tried again.
abbrev pub Fails : Response → Type 0
Fails (status code) = 400 ≤ code
Fails request_error = Unit
Fails unexpected = ⊥

-- The pauses from an attempt on, each twice the one before.
abbrev pub delays : ℕ → ℕ → ℕ → List ℕ
delays base zero attempt = []
delays base (suc k) attempt = (base * power_of_two attempt) ∷ delays base k (suc attempt)

-- Addition that computes.
abbrev more : ℕ → ℕ → ℕ
more zero n = n
more (suc k) n = suc (more k n)

more_is : (k n : ℕ) → more k n ≡ k + n
more_is zero n = omega arith
more_is (suc k) n = omega (arith, more_is k n)

back : (attempt next : ℕ) → next ≡ attempt + 0 → next ≡ attempt
back attempt next e = omega arith

module _ (answers : ℕ → Response) (max base : ℕ) where
  -- `k` attempts from `attempt` on fail.
  abbrev pub AllFail : ℕ → ℕ → Type 0
  AllFail zero attempt = Unit
  AllFail (suc k) attempt = Fails (answers attempt) × AllFail k (suc attempt)

  Fails-step :
      (answer : Response) (attempt : ℕ) (rest : Delivery)
      → Fails answer
      → after_answer answers max base answer attempt rest ≡ go_on answers max base attempt rest
  unfolding after_answer
  Fails-step (status code) attempt rest h = ground arith
  Fails-step request_error attempt rest h = refl
  Fails-step unexpected attempt rest h = absurd h

  earlier : (attempt k next : ℕ) → next ≡ attempt + suc k → next ≤ max → ltb attempt max ≡ true
  earlier attempt k next e le = ground arith

  -- Behind `k` failures.
  abbrev behind : ℕ → ℕ → Delivery → Delivery
  behind k attempt rest = record rest {
    posts = more k rest.posts;
    slept = delays base k attempt ++ rest.slept;
  }

  behind_step :
      (k attempt : ℕ) (rest : Delivery)
      → ltb attempt max ≡ true
      → go_on answers max base attempt (behind k (suc attempt) rest) ≡ behind (suc k) attempt rest
  unfolding go_on
  behind_step k attempt rest e = rw e refl

  attempts_fail :
      (k left attempt next : ℕ)
      → AllFail k attempt
      → next ≡ attempt + k
      → next ≤ max
      → attempt_from answers max base (more k left) attempt
        ≡ behind k attempt (attempt_from answers max base left next)
  unfolding attempt_from
  attempts_fail zero left attempt next h e le = rw (back attempt next e) refl
  attempts_fail (suc k) left attempt next h e le =
      Fails-step (answers attempt) attempt _ h.0
      ∙ ap (go_on answers max base attempt)
          (attempts_fail k left (suc attempt) next h.1 (omega arith) le)
      ∙ behind_step k attempt (attempt_from answers max base left next)
          (earlier attempt k next e le)

  -- The attempts that are left behind `k` of them.
  all_of : (k : ℕ) → k ≤ max → max + 1 ≡ more k (suc (max - k))
  all_of k le = omega (arith, more_is k (suc (max - k)))

  answered_last :
      (left k code : ℕ)
      → answers k ≡ status code
      → code < 400
      → attempt_from answers max base (suc left) k
        ≡ record { result = success code (k + 1); posts = 1; slept = [] }
  unfolding attempt_from after_answer
  answered_last left k code e ok = rw e (ground arith)

  -- The first `k` requests fail, the next one is answered with a status below 400: the delivery has sent
  -- `k + 1` requests, with pauses that double in between, and says so.
  pub delivered :
      (k code : ℕ)
      → AllFail k 0
      → k ≤ max
      → answers k ≡ status code
      → code < 400
      → deliver_webhook answers max base
        ≡ record { result = success code (k + 1); posts = k + 1; slept = delays base k 0 }
  unfolding deliver_webhook
  delivered k code h le e ok =
      ap (λ n. attempt_from answers max base n 0) (all_of k le)
      ∙ attempts_fail k (suc (max - k)) 0 k h (omega arith) le
      ∙ ap (behind k 0) (answered_last (max - k) k code e ok)
      ∙ ap₂ (λ n ns. record { result = success code (k + 1); posts = n; slept = ns }) (more_is k 1)
          (append-nil (delays base k 0))

  not_before : ltb max max ≡ false
  not_before = ground arith

  nothing_left : max - max ≡ 0
  nothing_left = omega arith

  failed_last :
      Fails (answers max)
      → attempt_from answers max base 1 max
        ≡ record { result = failure (max + 1); posts = 1; slept = [] }
  unfolding attempt_from go_on
  failed_last h = Fails-step (answers max) max _ h ∙ rw not_before refl

  -- When every request fails the delivery has sent one more than the retries it is allowed, with a pause
  -- between any two, and ends as a failure.
  pub gives_up :
      AllFail max 0
      → Fails (answers max)
      → deliver_webhook answers max base
        ≡ record { result = failure (max + 1); posts = max + 1; slept = delays base max 0 }
  unfolding deliver_webhook
  gives_up h last =
      ap (λ n. attempt_from answers max base n 0)
        (all_of max (omega arith) ∙ ap (λ n. more max (suc n)) nothing_left)
      ∙ attempts_fail max 1 0 max h (omega arith) (omega arith)
      ∙ ap (behind max 0) (failed_last last)
      ∙ ap₂ (λ n ns. record { result = failure (max + 1); posts = n; slept = ns }) (more_is max 1)
          (append-nil (delays base max 0))
