-- ===== src/Limits/Reserve.antt =====
-- What a reservation takes, gives back and finds again.
use turncall.Prelude.{
  ℕ, ◌+◌, ◌≤◌, ◌<◌, ◌≡◌, true, false, List, [], ◌∷◌, arith, ◌≢◌, String, eq_refl,
}
use turncall.Limits.{
  Entry, ZSet, Redis, DialSent, DialCheck, allowed, ProjectLimits, up, has, zadd, zrem, current,
  purge, is_full, admit, live_call_lease_ms, dial_window_ms, reserve_dial, or_default,
}
use turncall.Limits.Window.{WithinTtl}
use turncall.Limits.Expiry.{alive}
use turncall.Limits.GivenBack.{
  IsGivenBack, give_back, refused_keeps, give_back_others, refused_others,
}

has-alive-zadd : (now m s : ℕ) (l : List Entry) → now < s → has m (alive now (zadd m s l)) ≡ true
unfolding zadd
has-alive-zadd now m s [] h = ground arith
has-alive-zadd now m s (e ∷ l) h = ground (arith, has-alive-zadd now m s l)

-- An admitted member stands in the set until its expiry.
admitted_stays :
    (now later m limit ttl : ℕ) (z : ZSet)
    → (admit now m limit ttl z).0 ≡ 0
    → later < now + ttl
    → has m (purge later (admit now m limit ttl z).1) ≡ true
unfolding admit purge current
admitted_stays now later m limit ttl z ok h =
    ground (arith, has-alive-zadd later m (now + ttl) (purge now z))

-- A member that stands in the set is admitted, whatever the limit.
readmitted :
    (now m limit ttl : ℕ) (z : ZSet) → has m (purge now z) ≡ true → (admit now m limit ttl z).0 ≡ 0
unfolding admit is_full
readmitted now m limit ttl z h = ground arith

-- Every command of the reservation arrives and is answered.
pub record IsUp (sent : DialSent) : Type 0 where
  pub slot_up : sent.slot.link ≡ up
  pub window_up : sent.window.link ≡ up
  pub giving_back_up : sent.giving_back.link ≡ up

module _ (sent : DialSent) (limits : ProjectLimits) (project call : ℕ) (number : String)
    (default_cps : ℕ) (r : Redis) where
  abbrev reserved : DialCheck × Redis
  reserved = reserve_dial sent limits project call number default_cps r

  -- A reservation that is refused, by either limit, leaves the call no slot of the project and every
  -- other live call and the number's window as they were, for whatever command comes later. This holds
  -- whether or not the call held a slot before, as at the re-admission of a dial. Every command
  -- arrives, the clock goes forward, and the members of the sets expire within their keys' windows.
  pub refused_leaves_others :
      (t : ℕ)
      → IsUp sent
      → IsGivenBack sent.slot.now sent.giving_back.now t live_call_lease_ms (r.live_calls project)
      → WithinTtl (r.dials number).expires (r.dials number).entries
      → sent.window.now ≤ t
      → reserved.0 ≢ allowed
      → (purge t (reserved.1.live_calls project) ≡ zrem call (purge t (r.live_calls project)))
        × (purge t (reserved.1.dials number) ≡ purge t (r.dials number))
  unfolding reserve_dial
  refused_leaves_others t u g w le no_dial = ground (
    arith,
    eq_refl number,
    give_back_others sent.slot.now sent.giving_back.now t call limits.live_calls live_call_lease_ms
        (r.live_calls project) g,
    refused_others sent.slot.now t call limits.live_calls live_call_lease_ms (r.live_calls project)
        g.covered,
    refused_keeps sent.window.now t call (or_default limits.outbound_calls_per_second default_cps)
        dial_window_ms (r.dials number) w,
  )

  -- A call that held no slot before a refusal changes neither count.
  pub refused_takes_nothing :
      (t : ℕ)
      → IsUp sent
      → IsGivenBack sent.slot.now sent.giving_back.now t live_call_lease_ms (r.live_calls project)
      → WithinTtl (r.dials number).expires (r.dials number).entries
      → sent.window.now ≤ t
      → has call (purge sent.slot.now (r.live_calls project)) ≡ false
      → reserved.0 ≢ allowed
      → (purge t (reserved.1.live_calls project) ≡ purge t (r.live_calls project))
        × (purge t (reserved.1.dials number) ≡ purge t (r.dials number))
  unfolding reserve_dial
  refused_takes_nothing t u g w le fresh no_dial = ground (
    arith,
    eq_refl number,
    give_back sent.slot.now sent.giving_back.now t call limits.live_calls live_call_lease_ms
        (r.live_calls project) g fresh,
    refused_keeps sent.slot.now t call limits.live_calls live_call_lease_ms (r.live_calls project)
        g.covered,
    refused_keeps sent.window.now t call (or_default limits.outbound_calls_per_second default_cps)
        dial_window_ms (r.dials number) w,
  )

  abbrev slot_answer : ℕ × ZSet
  slot_answer = admit sent.slot.now call limits.live_calls live_call_lease_ms (r.live_calls project)

  abbrev window_answer : ℕ × ZSet
  window_answer =
      admit sent.window.now call (or_default limits.outbound_calls_per_second default_cps)
        dial_window_ms (r.dials number)

  pub reserve_granted :
      IsUp sent
      → reserved.0 ≡ allowed
      → (slot_answer.0 ≡ 0)
        × (window_answer.0 ≡ 0)
        × (reserved.1.live_calls project ≡ slot_answer.1)
        × (reserved.1.dials number ≡ window_answer.1)
  unfolding reserve_dial
  reserve_granted u ok = ground (arith, eq_refl number)

  reserve_grants : IsUp sent → slot_answer.0 ≡ 0 → window_answer.0 ≡ 0 → reserved.0 ≡ allowed
  unfolding reserve_dial
  reserve_grants u a b = ground arith

module _ (sent : DialSent) (limits : ProjectLimits) (project call : ℕ) (number : String)
    (default_cps : ℕ) (r : Redis) where
  -- A reservation that was granted is granted again to the same call, whatever the limits have
  -- become, while its place in the number's window lasts.
  pub reserve_again :
      (again : DialSent) (limits' : ProjectLimits) (default' : ℕ)
      → IsUp sent
      → IsUp again
      → again.slot.now < sent.slot.now + live_call_lease_ms
      → again.window.now < sent.window.now + dial_window_ms
      → (reserve_dial sent limits project call number default_cps r).0 ≡ allowed
      → (reserve_dial again limits' project call number default'
          (reserve_dial sent limits project call number default_cps r).1).0
        ≡ allowed
  reserve_again again limits' default' u u' slot window ok =
      let (a, b, live, dials) =
        reserve_granted sent limits project call number default_cps r u ok in
      reserve_grants again limits' project call number default' _ u'
        (readmitted again.slot.now call limits'.live_calls live_call_lease_ms _ (
          rw live (
            admitted_stays sent.slot.now again.slot.now call limits.live_calls live_call_lease_ms
              (r.live_calls project) a slot)))
        (readmitted again.window.now call (or_default limits'.outbound_calls_per_second default')
          dial_window_ms _
          (rw dials (
            admitted_stays sent.window.now again.window.now call
              (or_default limits.outbound_calls_per_second default_cps) dial_window_ms
              (r.dials number) b window)))
