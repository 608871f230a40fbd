-- ===== src/Drain/Handover.antt =====
-- The SIGTERM goes back once.
use turncall.Prelude.{
  ℕ, suc, ◌+◌, ◌≤◌, ◌<◌, sym, ◌∙◌, ◌≢◌, ◌-◌, ◌==◌, if_true, if_false, Bool, true, false, not, List,
  [], ◌∷◌, ◌++◌, ◌≡◌, refl, arith, Bool-cases, inl, inr, if◌then◌else◌,
}
use mathlib.Core.Bool.{true≢false}
use mathlib.Core.Path.{subst}
use turncall.Drain.{
  Callback, start_drain, hand_back, Signals, installed, uninstall, handed_back, on_sigterm,
  run_callback, next_callback, Event, sigterm, callback_runs, drain_ends, uninstalled, happen, run,
}

-- The drains that run or are to be started.
abbrev pub starts : List Callback → ℕ
starts [] = 0
starts (start_drain ∷ cs) = suc (starts cs)
starts (hand_back ∷ cs) = starts cs

abbrev pub one_if : Bool → ℕ
one_if true = 1
one_if false = 0

-- The signal is raised only when the handler is given up; and nothing is under way before a SIGTERM.
record IsHandover (s : Signals) : Type 0 where
  once : s.raised + one_if s.ours ≤ 1
  one_drain : starts s.scheduled + s.drains ≤ one_if s.draining
  first_asked : (s.draining ≡ false) → (s.raised ≡ 0) × (s.scheduled ≡ [])

installed-IsHandover : IsHandover installed
installed-IsHandover = record {
  once = omega arith;
  one_drain = omega arith;
  first_asked = λ e. (refl, refl);
}

not_empty : {c : Callback} {cs : List Callback} → c ∷ cs ≢ []
not_empty e = cc

given : {b : Bool} → b ≡ true → one_if b ≡ 1
given e = rw e refl

none_if : {b : Bool} → b ≡ false → one_if b ≡ 0
none_if e = rw e refl

idle : (s : Signals) → IsHandover s → s.draining ≡ false → 0 < starts s.scheduled + s.drains → ⊥
idle s h e some_drain = omega (arith, h.one_drain, none_if e)

draining_of : (s : Signals) → IsHandover s → 0 < starts s.scheduled + s.drains → s.draining ≡ true
draining_of s h some_drain = elim (Bool-cases s.draining) [
  | inl e ↦ e
  | inr e ↦ absurd (idle s h e some_drain)
]

one_at_most : (b : Bool) → one_if b ≤ 1
one_at_most true = omega arith
one_at_most false = omega arith

starts-append :
    (cs : List Callback) (c : Callback) → starts (cs ++ (c ∷ [])) ≡ starts cs + starts (c ∷ [])
starts-append [] c = omega arith
starts-append (start_drain ∷ cs) c = omega (arith, starts-append cs c)
starts-append (hand_back ∷ cs) c = starts-append cs c

-- Giving the handler up, in a state that has begun to drain.
handed_back-IsHandover :
    (s : Signals) → IsHandover s → s.draining ≡ true → IsHandover (handed_back s)
unfolding handed_back uninstall
handed_back-IsHandover s h d = elim (Bool-cases s.ours) [
  | inl e ↦ rw e (record {
    once = omega (arith, h.once, given e);
    one_drain = h.one_drain;
    first_asked = λ f. absurd (true≢false (sym d ∙ f));
  })
  | inr e ↦ rw e (record {
    once = omega (arith, h.once);
    one_drain = h.one_drain;
    first_asked = λ f. absurd (true≢false (sym d ∙ f));
  })
]

not-true : {b : Bool} → b ≡ true → not b ≡ false
not-true e = rw e refl

not-false : {b : Bool} → b ≡ false → not b ≡ true
not-false e = rw e refl

-- What is scheduled was asked for by a SIGTERM.
draining_of_scheduled :
    (s : Signals) {c : Callback} {cs : List Callback}
    → IsHandover s
    → s.scheduled ≡ c ∷ cs
    → s.draining ≡ true
draining_of_scheduled s h e = elim (Bool-cases s.draining) [
  | inl d ↦ d
  | inr d ↦ absurd (not_empty (sym e ∙ (h.first_asked d).1))
]

-- A SIGTERM while the handler is ours.
taken :
    (s : Signals)
    → IsHandover s
    → IsHandover (
        if s.draining
        then record s { scheduled = s.scheduled ++ (hand_back ∷ []) }
        else record s { draining = true; scheduled = s.scheduled ++ (start_drain ∷ []) })
taken s h = elim (Bool-cases s.draining) [
  | inl d ↦ subst IsHandover (sym (if_true _ _ _ d)) (record {
    once = h.once;
    one_drain = omega (arith, h.one_drain, starts-append s.scheduled hand_back);
    first_asked = λ f. absurd (true≢false (sym d ∙ f));
  })
  | inr d ↦ subst IsHandover (sym (if_false _ _ _ d)) (record {
    once = h.once;
    one_drain = omega (arith, h.one_drain, starts-append s.scheduled start_drain, none_if d);
    first_asked = λ f. absurd (true≢false f);
  })
]

on_sigterm-IsHandover : (s : Signals) → IsHandover s → IsHandover (on_sigterm s)
unfolding on_sigterm
on_sigterm-IsHandover s h = elim (Bool-cases s.ours) [
  | inl o ↦ subst IsHandover (sym (if_false _ _ _ (not-true o))) (taken s h)
  | inr o ↦ subst IsHandover (sym (if_true _ _ _ (not-false o))) h
]

next_callback-IsHandover :
    (cs : List Callback) (s : Signals)
    → IsHandover s
    → s.scheduled ≡ cs
    → IsHandover (next_callback cs s)
unfolding run_callback
next_callback-IsHandover [] s h e = h
next_callback-IsHandover (start_drain ∷ cs) s h e =
    let d : s.draining ≡ true = draining_of s h (rw e (omega arith)) in
    let count : starts s.scheduled ≡ suc (starts cs) = rw e refl in
    record {
      once = h.once;
      one_drain = omega (arith, h.one_drain, count);
      first_asked = λ f. absurd (true≢false (sym d ∙ f));
    }
next_callback-IsHandover (hand_back ∷ cs) s h e =
    let d : s.draining ≡ true = draining_of_scheduled s h e in
    let count : starts s.scheduled ≡ starts cs = rw e refl in
    handed_back-IsHandover (record s { scheduled = cs })
      (record {
        once = h.once;
        one_drain = omega (arith, h.one_drain, count);
        first_asked = λ f. absurd (true≢false (sym d ∙ f));
      })
      d

happen-IsHandover : (x : Event) (s : Signals) → IsHandover s → IsHandover (happen x s)
unfolding happen uninstall
happen-IsHandover sigterm s h = on_sigterm-IsHandover s h
happen-IsHandover callback_runs s h = next_callback-IsHandover s.scheduled s h refl
happen-IsHandover drain_ends s h = elim (Bool-cases (s.drains == 0)) [
  | inl e ↦ subst IsHandover (sym (if_true _ _ _ e)) h
  | inr e ↦
      (let d : s.draining ≡ true = draining_of s h (ground arith) in
        subst IsHandover (sym (if_false _ _ _ e)) (
          handed_back-IsHandover (record s { drains = s.drains - 1 })
            (record {
              once = h.once;
              one_drain = omega (arith, h.one_drain);
              first_asked = λ f. absurd (true≢false (sym d ∙ f));
            })
            d))
]
happen-IsHandover uninstalled s h = record {
  once = omega (arith, h.once);
  one_drain = h.one_drain;
  first_asked = h.first_asked;
}

run-IsHandover : (xs : List Event) (s : Signals) → IsHandover s → IsHandover (run xs s)
unfolding run
run-IsHandover [] s h = h
run-IsHandover (x ∷ xs) s h = run-IsHandover xs (happen x s) (happen-IsHandover x s h)

raised_asked : (s : Signals) → IsHandover s → s.raised ≤ one_if s.draining
raised_asked s h = elim (Bool-cases s.draining) [
  | inl d ↦ omega (arith, h.once, given d)
  | inr d ↦ omega (arith, (h.first_asked d).0, none_if d)
]

-- Over any events the process raises SIGTERM for its previous owner once at most, never while the handler
-- is still its own or before it got one, and it runs one drain at most.
pub handed_over_once :
    (xs : List Event)
    → ((run xs installed).raised + one_if (run xs installed).ours ≤ 1)
      × (starts (run xs installed).scheduled + (run xs installed).drains ≤ 1)
      × ((run xs installed).raised ≤ one_if (run xs installed).draining)
handed_over_once xs =
    let h : IsHandover (run xs installed) = run-IsHandover xs installed installed-IsHandover in
    (
      h.once,
      omega (arith, h.one_drain, one_at_most (run xs installed).draining),
      raised_asked (run xs installed) h,
    )
