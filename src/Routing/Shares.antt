-- ===== src/Routing/Shares.antt =====
-- How the hundred buckets are shared among the variants.
use native.Mathlib.Nat.{add-zero, zero-add}
use mathlib.Core.Path.{subst}
use turncall.Prelude.{
  ◌∙◌, ap, ℕ, zero, suc, ◌+◌, ◌≤◌, ◌<◌, ◌%◌, ◌≡◌, refl, Bool, true, false, String, Option, none,
  some, List, [], ◌∷◌, ◌==◌, if◌then◌else◌, arith,
}
use turncall.Routing.{Weighted, last_agent, pick_from, pick_agent_by_weight}

abbrev pub total_weight : List Weighted → ℕ
total_weight [] = 0
total_weight (e ∷ rest) = e.weight + total_weight rest

-- The weight that the list gives to one agent, over all its entries.
abbrev pub weight_of : ℕ → List Weighted → ℕ
weight_of agent [] = 0
weight_of agent (e ∷ rest) = (if e.agent_id == agent then e.weight else 0) + weight_of agent rest

abbrev pub is_agent : ℕ → Option ℕ → Bool
is_agent agent none = false
is_agent agent (some a) = a == agent

-- How many of the `n` numbers from `lo` on satisfy the test.
abbrev pub count_range : (ℕ → Bool) → ℕ → ℕ → ℕ
count_range p lo zero = 0
count_range p lo (suc n) = (if p lo then 1 else 0) + count_range p (lo + 1) n

count_range-split :
    (p : ℕ → Bool) (n lo m k : ℕ) {mid : ℕ}
    → k ≡ n + m
    → mid ≡ lo + n
    → count_range p lo k ≡ count_range p lo n + count_range p mid m
count_range-split p zero lo m k e d =
    let e' : k ≡ m = omega arith in let d' : _ ≡ lo = d ∙ add-zero lo in rw (e', d', zero-add)
count_range-split p (suc n) lo m zero e d = absurd (omega arith)
count_range-split p (suc n) lo m (suc k) e d =
    omega (arith, count_range-split p n (lo + 1) m k (omega arith) (d ∙ omega arith))

count_range-const :
    (p : ℕ → Bool) (b : Bool) (n lo : ℕ)
    → ((i : ℕ) → lo ≤ i → i < lo + n → p i ≡ b)
    → count_range p lo n ≡ (if b then n else 0)
count_range-const p true zero lo h = refl
count_range-const p false zero lo h = refl
count_range-const p b (suc n) lo h =
    ground
      (arith, h lo, count_range-const p b n (lo + 1) (λ i a c. h i (omega arith) (omega arith)))

count_range-cong :
    (p q : ℕ → Bool) (n lo : ℕ)
    → ((i : ℕ) → lo ≤ i → i < lo + n → p i ≡ q i)
    → count_range p lo n ≡ count_range q lo n
count_range-cong p q zero lo h = refl
count_range-cong p q (suc n) lo h =
    ground (arith, h lo, count_range-cong p q n (lo + 1) (λ i a c. h i (omega arith) (omega arith)))

module _ (agent : ℕ) (fallback : Option ℕ) where
  abbrev picks : List Weighted → ℕ → ℕ → Bool
  picks ws cumulative bucket = is_agent agent (pick_from fallback bucket cumulative ws)

  picks-head :
      (e : Weighted) (rest : List Weighted) (lo i : ℕ)
      → i < lo + e.weight
      → picks (e ∷ rest) lo i ≡ (e.agent_id == agent)
  unfolding pick_from
  picks-head e rest lo i h = ground arith

  picks-tail :
      (e : Weighted) (rest : List Weighted) (lo i : ℕ)
      → lo + e.weight ≤ i
      → picks (e ∷ rest) lo i ≡ picks rest (lo + e.weight) i
  unfolding pick_from
  picks-tail e rest lo i h = ground arith

  share_from :
      (ws : List Weighted) (lo : ℕ)
      → count_range (picks ws lo) lo (total_weight ws) ≡ weight_of agent ws
  share_from [] lo = refl
  share_from (e ∷ rest) lo = omega (
    arith,
    count_range-split (picks (e ∷ rest) lo) e.weight lo (total_weight rest)
        (e.weight + total_weight rest) {mid = lo + e.weight} refl refl,
    count_range-const (picks (e ∷ rest) lo) (e.agent_id == agent) e.weight lo
        (λ i _ h. picks-head e rest lo i h),
    count_range-cong (picks (e ∷ rest) lo) (picks rest (lo + e.weight)) (total_weight rest)
        (lo + e.weight) (λ i h _. picks-tail e rest lo i h),
    share_from rest (lo + e.weight),
  )

bucket_below : (b : ℕ) → b < 100 → b % 100 ≡ b
bucket_below b h = omega arith

-- With weights that sum to 100, an agent is picked for exactly as many of the hundred buckets as the
-- weight it has over all its entries.
pub share_of_buckets :
    (agent : ℕ) (ws : List Weighted) (caller : String)
    → total_weight ws ≡ 100
    → count_range (λ bucket. is_agent agent (pick_agent_by_weight (λ _. bucket) ws caller)) 0 100
      ≡ weight_of agent ws
unfolding pick_agent_by_weight
share_of_buckets agent ws caller sum =
    count_range-cong (λ bucket. is_agent agent (pick_from (last_agent ws) (bucket % 100) 0 ws))
      (picks agent (last_agent ws) ws 0) 100 0
      (λ i _ h. ap (λ b. picks agent (last_agent ws) ws 0 b) (bucket_below i h))
    ∙ subst (λ n. count_range (picks agent (last_agent ws) ws 0) 0 n ≡ weight_of agent ws) sum
        (share_from agent (last_agent ws) ws 0)
