-- ===== src/Limits/Hold.antt =====
-- A slot that was taken or renewed stays counted until its lease ends.
use turncall.Prelude.{
  ℕ, ◌+◌, ◌≤◌, ◌<◌, ◌≡◌, Bool, true, false, ◌&&◌, List, [], ◌∷◌, any, filter, ltb, leb, ◌==◌, arith,
  if◌then◌else◌, sym,
}
use mathlib.Core.Path.{subst}
use turncall.Limits.{
  wait_for_oldest, Entry, ZSet, Redis, Sent, up, has, zadd, current, purge, is_full, admit,
  live_call_lease_ms, renew_live_call,
}
use turncall.Limits.Count.{Request, serve, run}

-- The member is there with an expiry of at least that.
abbrev until : ℕ → ℕ → List Entry → Bool
until m s = any (λ e. e.member == m && leb s e.score)

record Held (m s : ℕ) (z : ZSet) : Type 0 where
  there : until m s z.entries ≡ true
  kept : s ≤ z.expires

until-alive :
    (m s now : ℕ) (l : List Entry)
    → now < s
    → until m s l ≡ true
    → until m s (filter (λ e. ltb now e.score) l) ≡ true
until-alive m s now [] h e = e
until-alive m s now (d ∷ l) h e = ground (arith, until-alive m s now l)

until-zadd :
    (m s j score : ℕ) (l : List Entry)
    → s ≤ score
    → until m s l ≡ true
    → until m s (zadd j score l) ≡ true
unfolding zadd
until-zadd m s j score [] h e = ground arith
until-zadd m s j score (d ∷ l) h e = ground (arith, until-zadd m s j score l)

until-new : (m s : ℕ) (l : List Entry) → until m s (zadd m s l) ≡ true
unfolding zadd
until-new m s [] = ground arith
until-new m s (d ∷ l) = ground (arith, until-new m s l)

until-has : (m s : ℕ) (l : List Entry) → until m s l ≡ true → has m l ≡ true
until-has m s [] e = e
until-has m s (d ∷ l) e = ground (arith, until-has m s l)

until-purge : (m s now : ℕ) (z : ZSet) → now < s → Held m s z → until m s (purge now z) ≡ true
unfolding purge current
until-purge m s now z h held = ground (arith, until-alive m s now z.entries, held.there, held.kept)

if_second :
    (P : ZSet → Type 0) (b : Bool) (x y : ℕ × ZSet) → P x.1 → P y.1 → P (if b then x else y).1
if_second P true x y h k = h
if_second P false x y h k = k

Held-serve :
    (m s : ℕ) (q : Request) (z : ZSet)
    → q.now < s
    → s ≤ q.now + q.ttl
    → Held m s z
    → Held m s (serve q z)
unfolding admit
Held-serve m s q z before within held =
    if_second (Held m s) (is_full q.member q.limit (purge q.now z))
      (wait_for_oldest q.now (purge q.now z), record z { entries = purge q.now z })
      (
        0,
        record { entries = zadd q.member (q.now + q.ttl) (purge q.now z); expires = q.now + q.ttl },
      )
      (record { there = until-purge m s q.now z before held; kept = held.kept })
      (record {
        there =
            until-zadd m s q.member (q.now + q.ttl) (purge q.now z) within
              (until-purge m s q.now z before held);
        kept = within;
      })

-- The requests come between two times of Redis's clock, all with the same window.
abbrev pub Between : ℕ → ℕ → ℕ → List Request → Type 0
Between ttl from to [] = Unit
Between ttl from to (q ∷ qs) =
    (q.ttl ≡ ttl) × (from ≤ q.now) × (q.now ≤ to) × Between ttl from to qs

Held-run :
    (m ttl now later : ℕ) (qs : List Request) (z : ZSet)
    → Between ttl now later qs
    → later < now + ttl
    → Held m (now + ttl) z
    → Held m (now + ttl) (run qs z)
unfolding run
Held-run m ttl now later [] z all h held = held
Held-run m ttl now later (q ∷ qs) z all h held =
    Held-run m ttl now later qs (serve q z) all.3 h
      (Held-serve m (now + ttl) q z (omega (arith, all.2, h)) (omega (arith, all.0, all.1)) held)

Held-renew : (now m ttl : ℕ) (z : ZSet) → Held m (now + ttl) (admit now m 0 ttl z).1
unfolding admit is_full
Held-renew now m ttl z = record {
  there = until-new m (now + ttl) (purge now z);
  kept = omega arith;
}

renew-live_calls :
    (sent : Sent) (project call : ℕ) (r : Redis)
    → sent.link ≡ up
    → (renew_live_call sent project call r).live_calls project
      ≡ (admit sent.now call 0 live_call_lease_ms (r.live_calls project)).1
unfolding renew_live_call
renew-live_calls sent project call r is_up = ground arith

-- A renewal of a live call keeps the call's slot until its lease ends, whatever is asked of the project's
-- live calls in between: no other admission or refusal, at whatever limit, takes it away.
pub renewed_slot_stays :
    (sent : Sent) (project call later : ℕ) (qs : List Request) (r : Redis)
    → sent.link ≡ up
    → Between live_call_lease_ms sent.now later qs
    → later < sent.now + live_call_lease_ms
    → has call (purge later (run qs ((renew_live_call sent project call r).live_calls project)))
      ≡ true
renewed_slot_stays sent project call later qs r is_up all h =
    let until_then = sent.now + live_call_lease_ms in
    let renewed = (renew_live_call sent project call r).live_calls project in
    let start =
      subst (Held call until_then) (sym (renew-live_calls sent project call r is_up))
        (Held-renew sent.now call live_call_lease_ms (r.live_calls project)) in
    until-has call until_then (purge later (run qs renewed)) (
      until-purge call until_then later (run qs renewed) h
        (Held-run call live_call_lease_ms sent.now later qs renewed all h start))
