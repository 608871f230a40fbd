-- ===== src/CallState/Examples.antt =====
-- Runs of the call's state machine and of the reasons, at concrete calls.
use turncall.Prelude.{true, ◌≡◌, refl}
use turncall.CallState.{
  in_progress, transferring, completed, no_answer, is_valid_transition, is_terminal_state,
  is_active_state,
}
use turncall.CallState.Transitions.{Leads, here, then}

no_answer_is_terminal : is_terminal_state no_answer ≡ true
unfolding is_terminal_state
no_answer_is_terminal = refl

transferring_is_active : is_active_state transferring ≡ true
unfolding is_active_state
transferring_is_active = refl

transferred : Leads in_progress completed
transferred = then {t = transferring} step (then {t = completed} done here)
  where
    step : is_valid_transition in_progress transferring ≡ true
    step = unfold is_valid_transition in refl

    done : is_valid_transition transferring completed ≡ true
    done = unfold is_valid_transition in refl
