-- ===== src/CallState/Transitions.antt =====
-- Where the transitions of `VALID_TRANSITIONS` lead, over any number of them.
use turncall.Prelude.{◌≡◌, refl, ◌↔◌, Bool, true, false, [], not, arith}
use turncall.CallState.{
  CallStatus, initiated, ringing, in_progress, transferring, handed_off, completed, failed,
  no_answer, busy, voicemail, valid_transitions, is_valid_transition, is_terminal_state,
  is_active_state,
}

-- A call goes from the one state to the other by allowed transitions.
pub data Leads : CallStatus → CallStatus → Type 0 where
  here : {s : CallStatus} → Leads s s
  then : {s t u : CallStatus} → is_valid_transition s t ≡ true → Leads t u → Leads s u

-- A state is terminal exactly when the table allows no transition out of it, and every state is
-- either terminal or active, never both.
pub terminal_iff_stuck :
    (s : CallStatus)
    → ((is_terminal_state s ≡ true) ↔ (valid_transitions s ≡ []))
      × (is_active_state s ≡ not (is_terminal_state s))
unfolding is_terminal_state is_active_state valid_transitions
terminal_iff_stuck s = ground arith

terminal_refuses : (s t : CallStatus) → is_terminal_state s ≡ true → is_valid_transition s t ≡ false
unfolding is_terminal_state is_valid_transition
terminal_refuses s t h = ground arith

-- A call that reached a terminal state stays in it, whatever transitions are tried.
pub Leads-of_terminal : {s t : CallStatus} → is_terminal_state s ≡ true → Leads s t → t ≡ s
Leads-of_terminal h here = refl
Leads-of_terminal h (then {s} {t} step rest) = ground (arith, terminal_refuses s t h)

allowed :
    (is_valid_transition initiated in_progress ≡ true)
    × (is_valid_transition ringing completed ≡ true)
    × (is_valid_transition in_progress completed ≡ true)
    × (is_valid_transition transferring completed ≡ true)
    × (is_valid_transition handed_off completed ≡ true)
    × (is_valid_transition voicemail completed ≡ true)
unfolding is_valid_transition
allowed = (refl, refl, refl, refl, refl, refl)

-- From every active state some allowed transitions lead to `completed`: no live call is trapped.
pub active_can_complete : (s : CallStatus) → is_active_state s ≡ true → Leads s completed
unfolding is_active_state
active_can_complete initiated h = then allowed.0 (then allowed.2 here)
active_can_complete ringing h = then allowed.1 here
active_can_complete in_progress h = then allowed.2 here
active_can_complete transferring h = then allowed.3 here
active_can_complete handed_off h = then allowed.4 here
active_can_complete voicemail h = then allowed.5 here
active_can_complete completed h = here
active_can_complete failed h = cc
active_can_complete no_answer h = cc
active_can_complete busy h = cc

-- The states of a call that was picked up, and the two that it can end in.
abbrev pub is_answered : CallStatus → Bool
is_answered in_progress = true
is_answered transferring = true
is_answered handed_off = true
is_answered completed = true
is_answered failed = true
is_answered _ = false

step-answered :
    (s t : CallStatus)
    → is_valid_transition s t ≡ true
    → is_answered s ≡ true
    → is_answered t ≡ true
unfolding is_valid_transition
step-answered s t h = ground arith

-- A call that was picked up never goes back to ringing, and is never recorded as unanswered, busy or
-- left to voicemail.
pub Leads-answered : {s t : CallStatus} → Leads s t → is_answered s ≡ true → is_answered t ≡ true
Leads-answered here h = h
Leads-answered (then {s} {t} step rest) h = Leads-answered rest (step-answered s t step h)
