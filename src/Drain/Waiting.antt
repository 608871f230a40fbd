-- ===== src/Drain/Waiting.antt =====
-- What a drain waits for, and for how long.
use turncall.Prelude.{
  ℕ, ◌≤◌, true, false, some, List, [], ◌∷◌, any, leb, ◌≡◌, refl, arith, sym, ◌∙◌, Bool-cases, inl,
  inr,
}
use mathlib.Core.Bool.{true≢false}
use turncall.Drain.{Live, Look, latest, calls_remain, wait_for_calls}

-- Every call is past its deadline.
abbrev pub AllExpired : ℕ → List Live → Type 0
AllExpired now [] = Unit
AllExpired now (l ∷ rest) = (l.deadline ≤ now) × AllExpired now rest

-- Every call that any of the looks meets has its deadline by then.
abbrev pub AllBy : ℕ → List Look → Type 0
AllBy by [] = Unit
AllBy by (look ∷ looks) = AllExpired by look.live × AllBy by looks

expired_at :
    (now : ℕ) (l : Live) (rest : List Live) → latest l rest ≤ now → AllExpired now (l ∷ rest)
unfolding latest
expired_at now l [] h = (h, tt)
expired_at now l (m ∷ rest) h = (ground arith, expired_at now m rest (ground arith))

latest_within :
    (by : ℕ) (l : Live) (rest : List Live) → AllExpired by (l ∷ rest) → latest l rest ≤ by
unfolding latest
latest_within by l [] h = h.0
latest_within by l (m ∷ rest) h =
    let later : latest m rest ≤ by = latest_within by m rest h.1 in ground (arith, h.0)

none_remain : (now : ℕ) (live : List Live) → calls_remain now live ≡ false → AllExpired now live
unfolding calls_remain
none_remain now [] h = tt
none_remain now (l ∷ rest) h = expired_at now l rest (ground arith)

over_by :
    (now by : ℕ) (live : List Live) → AllExpired by live → by ≤ now → calls_remain now live ≡ false
unfolding calls_remain
over_by now by [] h le = refl
over_by now by (l ∷ rest) h le =
    let latest_by : latest l rest ≤ by = latest_within by l rest h in ground arith

later_look :
    (by : ℕ) (look : Look) (looks : List Look)
    → AllExpired by look.live
    → calls_remain look.now look.live ≡ true
    → any (λ l. leb by l.now) (look ∷ looks) ≡ true
    → any (λ l. leb by l.now) looks ≡ true
later_look by look looks h e late = elim (Bool-cases (leb by look.now)) [
  | inl le ↦ absurd (true≢false (sym e ∙ over_by look.now by look.live h (ground arith)))
  | inr later ↦ ground (arith, late)
]

-- The wait for live calls ends once a look is at or past the latest deadline that any look meets; and when it
-- ends every call that is still live is past its own deadline: none is cut off within its budget.
pub calls_waited_for :
    (by : ℕ) (looks : List Look)
    → AllBy by looks
    → any (λ look. leb by look.now) looks ≡ true
    → (look : Look) × (rest : List Look) × (wait_for_calls looks ≡ some (look, rest))
      × AllExpired look.now look.live
unfolding wait_for_calls
calls_waited_for by [] h late = ground arith
calls_waited_for by (look ∷ looks) h late = elim (Bool-cases (calls_remain look.now look.live)) [
  | inl e ↦
      (let (last, rest, found, expired) =
          calls_waited_for by looks h.1 (later_look by look looks h.0 e late) in
        (last, rest, rw e found, expired))
  | inr e ↦ (look, looks, rw e refl, none_remain look.now look.live e)
]
