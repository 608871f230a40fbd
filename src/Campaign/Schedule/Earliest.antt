-- ===== src/Campaign/Schedule/Earliest.antt =====
-- The instant that `next_open` gives, against the windows of all dates.
use turncall.Prelude.{
  ℕ, zero, suc, ◌+◌, ◌<◌, ◌≤◌, ◌≡◌, ◌&&◌, Bool, true, false, Option, some, ltb, leb, arith,
  Bool-cases, inl, inr, ◌⊎◌,
}
use mathlib.Core.Path.{subst}
use turncall.Campaign.{CallingWindow}
use turncall.Campaign.Schedule.{Zone, is_open_on, opens, closes, on_day, over_days, next_open}

-- An instant lies in the window of a date.
abbrev pub in_window : Zone → CallingWindow → ℕ → ℕ → Bool
in_window zone window day t =
    is_open_on window day && leb (opens zone window day) t && ltb t (closes zone window day)

-- An instant lies in the window of an allowed date, or it is the opening of the window of an allowed
-- date that is over by then: the clocks of the zone skip that window on that date.
abbrev pub AllowedAt : Zone → CallingWindow → ℕ → Type 0
AllowedAt zone window t =
    (on : ℕ) × (is_open_on window on ≡ true)
    × ((in_window zone window on t ≡ true)
        ⊎ ((t ≡ opens zone window on) × (closes zone window on ≤ t)))

-- The windows of two dates come in the dates' order, and that of a date before the local one of an
-- instant has closed by that instant.
pub record KeepsDays (zone : Zone) (window : CallingWindow) (now : ℕ) : Type 0 where
  pub in_order : (day later : ℕ) → day < later → opens zone window day < opens zone window later
  pub gone : (day : ℕ) → day < zone.local_day now → closes zone window day ≤ now

on_day-cases :
    (zone : Zone) (now : ℕ) (window : CallingWindow) (day : ℕ) (rest : Option ℕ) (r : ℕ)
    → on_day zone now window day rest ≡ some r
    → ((is_open_on window day ≡ true) × (now < opens zone window day) × (r ≡ opens zone window day))
      ⊎ ((is_open_on window day ≡ true)
          × (opens zone window day ≤ now)
          × (now < closes zone window day)
          × (r ≡ now))
      ⊎ (((is_open_on window day ≡ false) ⊎ (closes zone window day ≤ now)) × (rest ≡ some r))
unfolding on_day
on_day-cases zone now window day rest r e = elim (Bool-cases (is_open_on window day)) [
  | inl allowed ↦ ground arith
  | inr shut ↦ ground arith
]

in_window-lem :
    (zone : Zone) (window : CallingWindow) (day t : ℕ)
    → in_window zone window day t ≡ true
    → (is_open_on window day ≡ true) × (opens zone window day ≤ t) × (t < closes zone window day)
in_window-lem zone window day t inside = elim (Bool-cases (is_open_on window day)) [
  | inl allowed ↦ ground arith
  | inr shut ↦ ground (arith, shut, inside)
]

today_or_gone : (on day : ℕ) → (day ≤ on) ⊎ (on < day)
today_or_gone on day = ground arith

this_or_later : (day on : ℕ) → day ≤ on → (on ≡ day) ⊎ (day < on)
this_or_later day on le = ground arith

module _ (zone : Zone) (window : CallingWindow) (now : ℕ) where
  over_days-AllowedAt :
      (left day r : ℕ)
      → over_days zone now window day left ≡ some r
      → (now ≤ r) × AllowedAt zone window r
  unfolding over_days
  over_days-AllowedAt zero day r e = ground arith
  over_days-AllowedAt (suc left) day r e =
      elim (on_day-cases zone now window day (over_days zone now window (day + 1) left) r e) [
        | inl (allowed, soon, at) ↦ elim (Bool-cases (leb (closes zone window day) r)) [
          | inl over ↦ (omega arith, (day, allowed, inr (at, ground arith)))
          | inr proper ↦ (omega arith, (day, allowed, inl (rw allowed (ground arith))))
        ]
        | inr (inl (allowed, since, until, at)) ↦
            (omega arith, (day, allowed, inl (rw (allowed, at) (ground arith))))
        | inr (inr (shut, rest)) ↦ over_days-AllowedAt left (day + 1) r rest
      ]

  over_days-now :
      (left day r : ℕ)
      → over_days zone now window day left ≡ some r
      → r ≤ now
      → (r ≡ now) × ((on : ℕ) × (in_window zone window on now ≡ true))
  unfolding over_days
  over_days-now zero day r e le = ground arith
  over_days-now (suc left) day r e le =
      elim (on_day-cases zone now window day (over_days zone now window (day + 1) left) r e) [
        | inl (allowed, soon, at) ↦ absurd (omega arith)
        | inr (inl (allowed, since, until, at)) ↦ (at, (day, rw allowed (ground arith)))
        | inr (inr (shut, rest)) ↦ over_days-now left (day + 1) r rest le
      ]

module _ (zone : Zone) (window : CallingWindow) (now : ℕ) (keeps : KeepsDays zone window now) where
  over_days-first :
      (left day r t on : ℕ)
      → over_days zone now window day left ≡ some r
      → day ≤ on
      → now ≤ t
      → in_window zone window on t ≡ true
      → r ≤ t
  unfolding over_days
  over_days-first zero day r t on e from after inside = ground arith
  over_days-first (suc left) day r t on e from after inside =
      let within = in_window-lem zone window on t inside in
      elim (on_day-cases zone now window day (over_days zone now window (day + 1) left) r e) [
        | inl (allowed, soon, at) ↦ elim (this_or_later day on from) [
          | inl same ↦
              let opened = subst (λ i. opens zone window i ≤ t) same within.1 in omega arith
          | inr later ↦ let order = keeps.in_order day on later in omega arith
        ]
        | inr (inl (allowed, since, until, at)) ↦ omega arith
        | inr (inr (shut, rest)) ↦ elim (this_or_later day on from) [
          | inl same ↦
              let allowed = subst (λ i. is_open_on window i ≡ true) same within.0 in
              let closing = subst (λ i. t < closes zone window i) same within.2 in ground arith
          | inr later ↦ over_days-first left (day + 1) r t on rest (omega arith) after inside
        ]
      ]

-- The instant that `next_open` gives is not before now, and it lies in the window of an allowed date
-- or is the opening of a window of an allowed date that the zone's clocks skip. This holds in any zone.
pub next_open-AllowedAt :
    (zone : Zone) (window : CallingWindow) (now r : ℕ)
    → next_open zone now (some window) ≡ some r
    → (now ≤ r) × AllowedAt zone window r
unfolding next_open
next_open-AllowedAt zone window now r e =
    over_days-AllowedAt zone window now 8 (zone.local_day now) r e

-- If what `next_open` gives has come, it is now and a window is open now.
pub next_open-now :
    (zone : Zone) (window : CallingWindow) (now r : ℕ)
    → next_open zone now (some window) ≡ some r
    → r ≤ now
    → (r ≡ now) × ((on : ℕ) × (in_window zone window on now ≡ true))
unfolding next_open
next_open-now zone window now r e le = over_days-now zone window now 8 (zone.local_day now) r e le

-- No instant from now on that lies in the window of any date comes before the one that `next_open`
-- gives, in a zone that keeps the windows in the order of their dates.
pub next_open_earliest :
    (zone : Zone) (window : CallingWindow) (now r t on : ℕ)
    → KeepsDays zone window now
    → next_open zone now (some window) ≡ some r
    → now ≤ t
    → in_window zone window on t ≡ true
    → r ≤ t
unfolding next_open
next_open_earliest zone window now r t on keeps e after inside =
    let within = in_window-lem zone window on t inside in
    elim (today_or_gone on (zone.local_day now)) [
      | inl from ↦
          over_days-first zone window now keeps 8 (zone.local_day now) r t on e from after inside
      | inr before ↦ let over = keeps.gone on before in omega arith
    ]
