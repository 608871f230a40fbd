-- ===== src/Limits/Reserved.antt =====
-- A reservation, whatever it comes to, is only commands for its own call.
use mathlib.Core.Path.{subst}
use turncall.Prelude.{
  ℕ, ◌≤◌, ◌≡◌, ◌⊎◌, sym, String, arith, Bool-cases, inl, inr, str_eq, eq_iff, eq_refl,
}
use turncall.Limits.{
  ZSet, Redis, DialSent, ProjectLimits, admit, live_call_lease_ms, dial_window_ms, or_default,
  reserve_dial,
}
use turncall.Limits.Reserve.{IsUp}
use turncall.Limits.Forget.{Keeps, admit-Keeps, back-Keeps, given_back}

pub Keeps-mono :
    (c ttl last later t : ℕ) (z₀ z : ZSet)
    → last ≤ later
    → Keeps c ttl last t z₀ z
    → Keeps c ttl later t z₀ z
Keeps-mono c ttl last later t z₀ z le k = record {
  same = k.same;
  timed = record { covered = k.timed.covered; bounded = omega (arith, k.timed.bounded, le) };
}

module _ (sent : DialSent) (limits : ProjectLimits) (project call : ℕ) (number : String)
    (default_cps : ℕ) (r : Redis) (is_up : IsUp sent) where
  abbrev slot : ZSet
  slot = (admit sent.slot.now call limits.live_calls live_call_lease_ms (r.live_calls project)).1

  abbrev after : Redis
  after = (reserve_dial sent limits project call number default_cps r).1

  live-cases :
      (after.live_calls project ≡ slot)
      ⊎ (after.live_calls project ≡ given_back sent.giving_back call slot)
  unfolding reserve_dial
  live-cases = ground (arith, is_up.slot_up, is_up.window_up, is_up.giving_back_up)

  dials-own :
      (after.dials number ≡ r.dials number)
      ⊎ (after.dials number
          ≡ (admit sent.window.now call
              (or_default limits.outbound_calls_per_second default_cps)
              dial_window_ms
              (r.dials number)).1)
  unfolding reserve_dial
  dials-own = ground (arith, is_up.slot_up, is_up.window_up, is_up.giving_back_up, eq_refl number)

  dials-cases :
      (n : String)
      → (after.dials n ≡ r.dials n)
        ⊎ (after.dials n
            ≡ (admit sent.window.now call
                (or_default limits.outbound_calls_per_second default_cps)
                dial_window_ms
                (r.dials n)).1)
  unfolding reserve_dial
  dials-cases n = elim (Bool-cases (str_eq number n)) [
    | inl same ↦
        subst
          (λ i.
            (after.dials i ≡ r.dials i)
            ⊎ (after.dials i
                ≡ (admit sent.window.now call
                    (or_default limits.outbound_calls_per_second default_cps) dial_window_ms
                    (r.dials i)).1))
          ((eq_iff number n).0 same) dials-own
    | inr other ↦ ground (arith, is_up.slot_up, is_up.window_up, is_up.giving_back_up, other)
  ]

  pub reserve-live-Keeps :
      (last t : ℕ) (z₀ : ZSet)
      → last ≤ sent.slot.now
      → sent.slot.now ≤ sent.giving_back.now
      → sent.giving_back.now ≤ t
      → Keeps call live_call_lease_ms last t z₀ (r.live_calls project)
      → Keeps call live_call_lease_ms sent.giving_back.now t z₀ (after.live_calls project)
  reserve-live-Keeps last t z₀ le order before k =
      let k' =
        admit-Keeps call live_call_lease_ms limits.live_calls last sent.slot.now t z₀
          (r.live_calls project) le (omega arith) k in
      elim live-cases [
        | inl same ↦ subst (Keeps call live_call_lease_ms sent.giving_back.now t z₀) (sym same) (
            Keeps-mono call live_call_lease_ms sent.slot.now sent.giving_back.now t z₀ slot order
              k')
        | inr same ↦ subst (Keeps call live_call_lease_ms sent.giving_back.now t z₀) (sym same) (
            back-Keeps call live_call_lease_ms sent.slot.now t sent.giving_back z₀ slot order before
              k')
      ]

  pub reserve-dials-Keeps :
      (n : String) (last t : ℕ) (z₀ : ZSet)
      → last ≤ sent.window.now
      → sent.window.now ≤ t
      → Keeps call dial_window_ms last t z₀ (r.dials n)
      → Keeps call dial_window_ms sent.window.now t z₀ (after.dials n)
  reserve-dials-Keeps n last t z₀ le before k = elim (dials-cases n) [
    | inl same ↦
        subst (Keeps call dial_window_ms sent.window.now t z₀) (sym same)
          (Keeps-mono call dial_window_ms last sent.window.now t z₀ (r.dials n) le k)
    | inr same ↦ subst (Keeps call dial_window_ms sent.window.now t z₀) (sym same) (
        admit-Keeps call dial_window_ms (or_default limits.outbound_calls_per_second default_cps)
          last sent.window.now t z₀ (r.dials n) le before k)
  ]
