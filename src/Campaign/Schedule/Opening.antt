-- ===== src/Campaign/Schedule/Opening.antt =====
-- A window with an allowed day opens within eight days.
use turncall.Prelude.{
  ℕ, zero, suc, ◌+◌, ◌%◌, ◌<◌, ◌≤◌, ◌≡◌, true, Option, some, ◌==◌, arith, is_some, sym, any, ◌-◌,
}
use mathlib.Core.Path.{subst}
use turncall.Campaign.{CallingWindow}
use turncall.Campaign.Schedule.{Zone, isoweekday, is_open_on, closes, on_day, over_days, next_open}

-- The days after an instant's local date come after the instant.
abbrev pub LaterDays : Zone → CallingWindow → ℕ → Type 0
LaterDays zone window now = (day : ℕ) → zone.local_day now < day → now < closes zone window day

found_on :
    (zone : Zone) (now : ℕ) (window : CallingWindow) (day : ℕ) (rest : Option ℕ)
    → is_open_on window day ≡ true
    → now < closes zone window day
    → is_some (on_day zone now window day rest) ≡ true
unfolding on_day
found_on zone now window day rest allowed before = ground arith

found_later :
    (zone : Zone) (now : ℕ) (window : CallingWindow) (day : ℕ) (rest : Option ℕ)
    → is_some rest ≡ true
    → is_some (on_day zone now window day rest) ≡ true
unfolding on_day
found_later zone now window day rest found = ground arith

-- How many days after a day one of the given weekday comes.
abbrev pub until_weekday : ℕ → ℕ → ℕ
until_weekday d day = (d + 7 - day % 7) % 7

isoweekday-until_weekday : (d day : ℕ) → 1 ≤ d → d ≤ 7 → isoweekday (day + until_weekday d day) ≡ d
unfolding isoweekday
isoweekday-until_weekday d day low high =
    let same : (day + until_weekday d day) % 7 ≡ d % 7 = omega arith in ground arith

over_days-found :
    (zone : Zone) (now : ℕ) (window : CallingWindow) (k left day open_day : ℕ)
    → open_day ≡ day + k
    → k < left
    → is_open_on window open_day ≡ true
    → now < closes zone window open_day
    → is_some (over_days zone now window day left) ≡ true
unfolding over_days
over_days-found zone now window k zero day open_day e inside allowed before = ground arith
over_days-found zone now window zero (suc left) day open_day e inside allowed before =
    let here : open_day ≡ day = omega arith in
    found_on zone now window day (over_days zone now window (day + 1) left)
      (subst (λ i. is_open_on window i ≡ true) here allowed)
      (subst (λ i. now < closes zone window i) here before)
over_days-found zone now window (suc k) (suc left) day open_day e inside allowed before =
    found_later zone now window day (over_days zone now window (day + 1) left) (
      over_days-found zone now window k left (day + 1) open_day (omega arith) (omega arith) allowed
        before)

-- One of the window's days is a weekday.
abbrev pub HasDay : CallingWindow → Type 0
HasDay window = (d : ℕ) × (any (λ e. e == d) window.days ≡ true) × (1 ≤ d) × (d ≤ 7)

-- A window with an allowed day always opens: `next_open` never raises, if the window of each later
-- date closes after now.
pub next_open_total :
    (zone : Zone) (now : ℕ) (window : CallingWindow)
    → HasDay window
    → LaterDays zone window now
    → is_some (next_open zone now (some window)) ≡ true
unfolding next_open
next_open_total zone now window (d, listed, low, high) later =
    let today = zone.local_day now in
    let tomorrow = today + 1 in
    let ahead = until_weekday d tomorrow in
    let on_it = isoweekday-until_weekday d tomorrow low high in
    over_days-found zone now window (ahead + 1) 8 today (tomorrow + ahead) (omega arith)
      (omega arith) (subst (λ w. any (λ e. e == w) window.days ≡ true) (sym on_it) listed)
      (later (tomorrow + ahead) (omega arith))
