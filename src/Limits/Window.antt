-- ===== src/Limits/Window.antt =====
-- The sorted set under ZADD, ZREM and the purge of expired members.
use turncall.Prelude.{
  ℕ, ◌+◌, ◌≤◌, ◌≡◌, refl, Bool, not, ◌||◌, ◌&&◌, List, [], ◌∷◌, filter, length, ◌==◌, if◌then◌else◌,
  arith,
}
use turncall.Limits.{Entry, has, zadd}

pub length-filter-le {ℓ} :
    {A : Type ℓ} (p : A → Bool) (xs : List A) → length (filter p xs) ≤ length xs
length-filter-le p [] = omega arith
length-filter-le p (x ∷ xs) = ground (arith, length-filter-le p xs)

pub has-zadd : (m s j : ℕ) (l : List Entry) → has j (zadd m s l) ≡ (m == j || has j l)
unfolding zadd
has-zadd m s j [] = refl
has-zadd m s j (e ∷ l) = ground (arith, has-zadd m s j l)

pub length-zadd :
    (m s : ℕ) (l : List Entry) → length (zadd m s l) ≡ (if has m l then length l else length l + 1)
unfolding zadd
length-zadd m s [] = omega arith
length-zadd m s (e ∷ l) = ground (arith, length-zadd m s l)

-- How often a member stands in the set.
abbrev pub times : ℕ → List Entry → ℕ
times m [] = 0
times m (e ∷ l) = (if e.member == m then 1 else 0) + times m l

pub times-zadd :
    (m s j : ℕ) (l : List Entry)
    → times j (zadd m s l) ≤ (if m == j && not (has j l) then 1 else times j l)
unfolding zadd
times-zadd m s j [] = ground arith
times-zadd m s j (e ∷ l) = ground (arith, times-zadd m s j l)

pub times-filter-le : (p : Entry → Bool) (j : ℕ) (l : List Entry) → times j (filter p l) ≤ times j l
times-filter-le p j [] = omega arith
times-filter-le p j (e ∷ l) = ground (arith, times-filter-le p j l)

-- Every member expires no later than `bound`.
abbrev pub WithinTtl : ℕ → List Entry → Type 0
WithinTtl bound [] = Unit
WithinTtl bound (e ∷ l) = (e.score ≤ bound) × WithinTtl bound l

pub WithinTtl-filter :
    (p : Entry → Bool) (bound : ℕ) (l : List Entry)
    → WithinTtl bound l
    → WithinTtl bound (filter p l)
WithinTtl-filter p bound [] h = tt
WithinTtl-filter p bound (e ∷ l) h = ground (arith, WithinTtl-filter p bound l h.1)

pub WithinTtl-zadd :
    (m s bound : ℕ) (l : List Entry) → s ≤ bound → WithinTtl bound l → WithinTtl bound (zadd m s l)
unfolding zadd
WithinTtl-zadd m s bound [] le h = (le, tt)
WithinTtl-zadd m s bound (e ∷ l) le h = ground (arith, WithinTtl-zadd m s bound l le h.1)

pub WithinTtl-mono : (a b : ℕ) (l : List Entry) → a ≤ b → WithinTtl a l → WithinTtl b l
WithinTtl-mono a b [] le h = tt
WithinTtl-mono a b (e ∷ l) le h = (omega arith, WithinTtl-mono a b l le h.1)
