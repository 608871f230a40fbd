-- ===== src/Limits/Expiry.antt =====
-- The key's own expiry, against the expiry of its members.
use turncall.Prelude.{
  ℕ, ◌+◌, ◌≤◌, ◌<◌, ◌≡◌, refl, List, [], ◌∷◌, filter, ltb, arith, Bool-cases, inl, inr,
}
use turncall.Limits.{Entry, ZSet, empty, current, purge, admit}
use turncall.Limits.Window.{WithinTtl, WithinTtl-filter, WithinTtl-zadd, WithinTtl-mono}
use turncall.Limits.Count.{Request, serve, run}

-- The members whose expiry lies after `now`.
abbrev pub alive : ℕ → List Entry → List Entry
alive now = filter (λ e. ltb now e.score)

-- The requests come in the order of Redis's clock, from `last` on, all with the key's one window.
abbrev pub InOrder : ℕ → ℕ → List Request → Type 0
InOrder ttl last [] = Unit
InOrder ttl last (q ∷ qs) = (q.ttl ≡ ttl) × (last ≤ q.now) × InOrder ttl q.now qs

pub record IsTimed (ttl last : ℕ) (z : ZSet) : Type 0 where
  pub covered : WithinTtl z.expires z.entries
  pub bounded : z.expires ≤ last + ttl

pub WithinTtl-purge :
    (now : ℕ) (z : ZSet) → WithinTtl z.expires z.entries → WithinTtl z.expires (purge now z)
unfolding purge current
WithinTtl-purge now z h = elim (Bool-cases (ltb z.expires now)) [
  | inl gone ↦ rw gone tt
  | inr there ↦ rw there (WithinTtl-filter _ z.expires z.entries h)
]

pub IsTimed-serve :
    (ttl last : ℕ) (q : Request) (z : ZSet)
    → q.ttl ≡ ttl
    → last ≤ q.now
    → IsTimed ttl last z
    → IsTimed ttl q.now (serve q z)
unfolding admit
IsTimed-serve ttl last q z same le t = ground (
  arith,
  WithinTtl-purge q.now z t.covered,
  WithinTtl-mono z.expires (q.now + q.ttl) (purge q.now z),
  WithinTtl-zadd q.member (q.now + q.ttl) (q.now + q.ttl) (purge q.now z),
)

pub IsTimed-run :
    (ttl last : ℕ) (qs : List Request) (z : ZSet)
    → InOrder ttl last qs
    → IsTimed ttl last z
    → WithinTtl (run qs z).expires (run qs z).entries
unfolding run
IsTimed-run ttl last [] z o t = t.covered
IsTimed-run ttl last (q ∷ qs) z o t =
    IsTimed-run ttl q.now qs (serve q z) o.2 (IsTimed-serve ttl last q z o.0 o.1 t)

pub alive_of_expired :
    (bound now : ℕ) (l : List Entry) → bound < now → WithinTtl bound l → alive now l ≡ []
alive_of_expired bound now [] lt h = refl
alive_of_expired bound now (e ∷ l) lt h = ground (arith, alive_of_expired bound now l lt h.1)

-- A key whose members expire no later than it does loses none of them to its own expiry.
pub purge-eq-alive :
    (now : ℕ) (z : ZSet) → WithinTtl z.expires z.entries → purge now z ≡ alive now z.entries
unfolding purge current
purge-eq-alive now z h = ground (arith, alive_of_expired z.expires now z.entries)

-- After any requests on one key, in the order of Redis's clock and with the key's one window, the
-- key's own expiry drops no member that is still counted: what a command finds is what has not
-- expired of what was added.
pub run_expiry_harmless :
    (ttl now : ℕ) (qs : List Request)
    → InOrder ttl 0 qs
    → purge now (run qs empty) ≡ alive now (run qs empty).entries
run_expiry_harmless ttl now qs o =
    purge-eq-alive now (run qs empty)
      (IsTimed-run ttl 0 qs empty o (record { covered = tt; bounded = omega arith }))
