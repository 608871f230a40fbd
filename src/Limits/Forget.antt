-- ===== src/Limits/Forget.antt =====
-- A set but for one member: what the commands for that member leave of it.
use turncall.Prelude.{
  ℕ, ◌+◌, ◌≤◌, ◌≡◌, ◌∙◌, refl, sym, ap, false, List, [], ◌∷◌, ltb, arith, Bool-cases, inl, inr,
}
use turncall.Limits.{Entry, ZSet, Sent, has, zadd, zrem, current, purge, admit}
use turncall.Limits.Window.{WithinTtl, WithinTtl-filter}
use turncall.Limits.Expiry.{alive, alive_of_expired, purge-eq-alive, IsTimed, IsTimed-serve}
use turncall.Limits.GivenBack.{alive-alive}

zrem-alive-zadd : (c s t : ℕ) (l : List Entry) → zrem c (alive t (zadd c s l)) ≡ zrem c (alive t l)
unfolding zrem zadd
zrem-alive-zadd c s t [] = ground arith
zrem-alive-zadd c s t (e ∷ l) = ground (arith, zrem-alive-zadd c s t l)

zrem-alive-zrem : (c t : ℕ) (l : List Entry) → zrem c (alive t (zrem c l)) ≡ zrem c (alive t l)
unfolding zrem
zrem-alive-zrem c t [] = refl
zrem-alive-zrem c t (e ∷ l) = ground (arith, zrem-alive-zrem c t l)

pub alive-zrem : (c t : ℕ) (l : List Entry) → zrem c (alive t (zrem c l)) ≡ alive t (zrem c l)
unfolding zrem
alive-zrem c t [] = refl
alive-zrem c t (e ∷ l) = ground (arith, alive-zrem c t l)

-- The member is not among those alive, now or later.
pub zrem_absent :
    (c t t' : ℕ) (l : List Entry)
    → t ≤ t'
    → has c (alive t l) ≡ false
    → zrem c (alive t' l) ≡ alive t' l
unfolding zrem
zrem_absent c t t' [] h e = refl
zrem_absent c t t' (d ∷ l) h e = ground (arith, zrem_absent c t t' l)

-- A set that took only commands for one member, the last of them at some time, is, but for that member,
-- what it was.
pub record Keeps (c ttl last t : ℕ) (z z' : ZSet) : Type 0 where
  pub same : zrem c (alive t z'.entries) ≡ zrem c (alive t z.entries)
  pub timed : IsTimed ttl last z'

admit-same :
    (c ttl limit now t : ℕ) (z : ZSet)
    → WithinTtl z.expires z.entries
    → now ≤ t
    → zrem c (alive t (admit now c limit ttl z).1.entries) ≡ zrem c (alive t z.entries)
unfolding admit
admit-same c ttl limit now t z within le = rw (purge-eq-alive now z within) (
    ground
      (arith, zrem-alive-zadd c (now + ttl) t (alive now z.entries), alive-alive now t z.entries))

pub admit-Keeps :
    (c ttl limit last now t : ℕ) (z₀ z : ZSet)
    → last ≤ now
    → now ≤ t
    → Keeps c ttl last t z₀ z
    → Keeps c ttl now t z₀ (admit now c limit ttl z).1
admit-Keeps c ttl limit last now t z₀ z le before k = record {
  same = admit-same c ttl limit now t z k.timed.covered before ∙ k.same;
  timed =
      IsTimed-serve ttl last (record { now = now; member = c; limit = limit; ttl = ttl }) z refl le
        k.timed;
}

abbrev pub given_back : Sent → ℕ → ZSet → ZSet
given_back sent call z = record z { entries = zrem call (current sent.now z) }

back-same :
    (c : ℕ) (sent : Sent) (t : ℕ) (z : ZSet)
    → WithinTtl z.expires z.entries
    → sent.now ≤ t
    → zrem c (alive t (given_back sent c z).entries) ≡ zrem c (alive t z.entries)
unfolding current zrem
back-same c sent t z within le = elim (Bool-cases (ltb z.expires sent.now)) [
  | inl gone ↦
      rw (gone, alive_of_expired z.expires t z.entries (ground (arith, gone, le)) within) refl
  | inr there ↦ rw there (zrem-alive-zrem c t z.entries)
]

back-covered :
    (c : ℕ) (sent : Sent) (z : ZSet)
    → WithinTtl z.expires z.entries
    → WithinTtl z.expires (given_back sent c z).entries
unfolding current zrem
back-covered c sent z within = elim (Bool-cases (ltb z.expires sent.now)) [
  | inl gone ↦ rw gone tt
  | inr there ↦ rw there (WithinTtl-filter _ z.expires z.entries within)
]

pub back-Keeps :
    (c ttl last t : ℕ) (sent : Sent) (z₀ z : ZSet)
    → last ≤ sent.now
    → sent.now ≤ t
    → Keeps c ttl last t z₀ z
    → Keeps c ttl sent.now t z₀ (given_back sent c z)
back-Keeps c ttl last t sent z₀ z le before k = record {
  same = back-same c sent t z k.timed.covered before ∙ k.same;
  timed = record {
    covered = back-covered c sent z k.timed.covered;
    bounded = omega (arith, k.timed.bounded, le);
  };
}

given_back-alone :
    (c : ℕ) (sent : Sent) (t : ℕ) (z : ZSet)
    → zrem c (alive t (given_back sent c z).entries) ≡ alive t (given_back sent c z).entries
given_back-alone c sent t z = alive-zrem c t (current sent.now z)

-- Once the member is given back, the set is what it was before any command for that member, which was not
-- in it.
pub back_at_last :
    (c ttl last first t : ℕ) (sent : Sent) (z₀ z : ZSet)
    → last ≤ sent.now
    → sent.now ≤ t
    → first ≤ t
    → WithinTtl z₀.expires z₀.entries
    → has c (purge first z₀) ≡ false
    → Keeps c ttl last t z₀ z
    → purge t (given_back sent c z) ≡ purge t z₀
back_at_last c ttl last first t sent z₀ z le before begun within absent k =
    let k' = back-Keeps c ttl last t sent z₀ z le before k in
    let not_there : has c (alive first z₀.entries) ≡ false =
      sym (ap (has c) (purge-eq-alive first z₀ within)) ∙ absent in
    purge-eq-alive t (given_back sent c z) k'.timed.covered
    ∙ sym (given_back-alone c sent t z)
    ∙ k'.same
    ∙ zrem_absent c first t z₀.entries begun not_there
    ∙ sym (purge-eq-alive t z₀ within)
