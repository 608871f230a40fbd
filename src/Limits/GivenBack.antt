-- ===== src/Limits/GivenBack.antt =====
-- What ZREM and a refusal leave of a sorted set, once the expired members are gone.
use turncall.Prelude.{ℕ, ◌+◌, ◌≤◌, ◌≡◌, refl, sym, ap, ◌∙◌, false, List, [], ◌∷◌, arith, ◌≢◌}
use turncall.Limits.{Entry, ZSet, has, zadd, zrem, current, purge, is_full, admit}
use turncall.Limits.Window.{WithinTtl}
use turncall.Limits.Expiry.{alive, alive_of_expired, purge-eq-alive}

pub alive-alive :
    (now later : ℕ) (l : List Entry) → now ≤ later → alive later (alive now l) ≡ alive later l
alive-alive now later [] h = refl
alive-alive now later (e ∷ l) h = ground (arith, alive-alive now later l)

zrem-zadd : (m s : ℕ) (l : List Entry) → has m l ≡ false → zrem m (zadd m s l) ≡ l
unfolding zrem zadd
zrem-zadd m s [] h = ground arith
zrem-zadd m s (e ∷ l) h = ground (arith, zrem-zadd m s l)

-- What ZREM leaves after ZADD of the same member is what it leaves without.
zrem_of_zadd : (m s : ℕ) (l : List Entry) → zrem m (zadd m s l) ≡ zrem m l
unfolding zrem zadd
zrem_of_zadd m s [] = ground arith
zrem_of_zadd m s (e ∷ l) = ground (arith, zrem_of_zadd m s l)

zrem-alive : (m t : ℕ) (l : List Entry) → alive t (zrem m l) ≡ zrem m (alive t l)
unfolding zrem
zrem-alive m t [] = refl
zrem-alive m t (e ∷ l) = ground (arith, zrem-alive m t l)

-- A member that is not among the live ones is not among those of a later instant.
zrem_of_absent :
    (m now t : ℕ) (l : List Entry)
    → now ≤ t
    → has m (alive now l) ≡ false
    → zrem m (alive t l) ≡ alive t l
unfolding zrem
zrem_of_absent m now t [] le h = refl
zrem_of_absent m now t (e ∷ l) le h = ground (arith, zrem_of_absent m now t l)

-- The clock's order, and members that expire within the window that the call takes.
pub record IsGivenBack (t₁ t₂ t ttl : ℕ) (z : ZSet) : Type 0 where
  pub taken : t₁ ≤ t₂
  pub given : t₂ ≤ t
  pub covered : WithinTtl z.expires z.entries
  pub windowed : WithinTtl (t₁ + ttl) z.entries

pub give_back :
    (t₁ t₂ t m limit ttl : ℕ) (z : ZSet)
    → IsGivenBack t₁ t₂ t ttl z
    → has m (purge t₁ z) ≡ false
    → (admit t₁ m limit ttl z).0 ≡ 0
    → let z₁ = (admit t₁ m limit ttl z).1 in
      purge t (record z₁ { entries = zrem m (current t₂ z₁) }) ≡ purge t z
unfolding admit purge current
give_back t₁ t₂ t m limit ttl z g fresh ok = rw (purge-eq-alive t z g.covered) (
    ground (
      arith,
      zrem-zadd m (t₁ + ttl) (purge t₁ z),
      alive-alive t₁ t z.entries,
      alive_of_expired (t₁ + ttl) t z.entries,
      purge-eq-alive t₁ z,
    ))

pub refused_keeps :
    (now t m limit ttl : ℕ) (z : ZSet)
    → WithinTtl z.expires z.entries
    → now ≤ t
    → (admit now m limit ttl z).0 ≢ 0
    → purge t (admit now m limit ttl z).1 ≡ purge t z
unfolding admit purge current
refused_keeps now t m limit ttl z within le no_room = rw (purge-eq-alive t z within) (
    ground (
      arith,
      alive-alive now t z.entries,
      alive_of_expired z.expires t z.entries,
      purge-eq-alive now z,
    ))

zrem_of_none : (m : ℕ) → zrem m [] ≡ []
unfolding zrem
zrem_of_none m = refl

refused_is_absent :
    (now m limit ttl : ℕ) (z : ZSet) → (admit now m limit ttl z).0 ≢ 0 → has m (purge now z) ≡ false
unfolding admit is_full
refused_is_absent now m limit ttl z no_room = ground arith

-- An admission that is given back leaves the set without the member, whether or not it was there.
pub give_back_others :
    (t₁ t₂ t m limit ttl : ℕ) (z : ZSet)
    → IsGivenBack t₁ t₂ t ttl z
    → (admit t₁ m limit ttl z).0 ≡ 0
    → let z₁ = (admit t₁ m limit ttl z).1 in
      purge t (record z₁ { entries = zrem m (current t₂ z₁) }) ≡ zrem m (purge t z)
unfolding admit purge current
give_back_others t₁ t₂ t m limit ttl z g ok = rw (purge-eq-alive t z g.covered) (
    ground (
      arith,
      zrem_of_zadd m (t₁ + ttl) (purge t₁ z),
      zrem-alive m t (zadd m (t₁ + ttl) (purge t₁ z)),
      zrem-alive m t (purge t₁ z),
      alive-alive t₁ t z.entries,
      alive_of_expired (t₁ + ttl) t z.entries,
      purge-eq-alive t₁ z,
      zrem_of_none m,
    ))

-- A set that refuses a member does not hold it.
pub refused_others :
    (now t m limit ttl : ℕ) (z : ZSet)
    → WithinTtl z.expires z.entries
    → now ≤ t
    → (admit now m limit ttl z).0 ≢ 0
    → purge t (admit now m limit ttl z).1 ≡ zrem m (purge t z)
refused_others now t m limit ttl z within le no_room =
    let absent : has m (alive now z.entries) ≡ false =
      ap (has m) (sym (purge-eq-alive now z within))
      ∙ refused_is_absent now m limit ttl z no_room in
    refused_keeps now t m limit ttl z within le no_room
    ∙ purge-eq-alive t z within
    ∙ sym (zrem_of_absent m now t z.entries le absent)
    ∙ ap (zrem m) (sym (purge-eq-alive t z within))
