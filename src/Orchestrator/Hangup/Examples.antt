-- ===== src/Orchestrator/Hangup/Examples.antt =====
-- A call that ends, and one that ends with nothing to say.
use turncall.Prelude.{true, false, [], ◌∷◌, ◌≡◌, refl}
use turncall.Orchestrator.Hangup.{
  Frame, arm_frame, reply_start, reply_end, other, pushed, end_worker, fresh, process,
  process_frame, end_call,
}
use turncall.Orchestrator.Hangup.Goodbye.{ends_after_goodbye, passed_on}

-- The reply that carried the tool call ends after the gate is armed.
ends_after_goodbye_example :
    (process
      (reply_start
        ∷ arm_frame false
        ∷ reply_end
        ∷ reply_start
        ∷ other
        ∷ reply_end
        ∷ reply_start
        ∷ reply_end
        ∷ [])
      fresh).0
    ≡ pushed reply_start
      ∷ pushed reply_end
      ∷ pushed reply_start
      ∷ pushed other
      ∷ pushed reply_end
      ∷ end_worker
      ∷ pushed reply_start
      ∷ pushed reply_end
      ∷ []
unfolding passed_on turncall.Orchestrator.Hangup.Goodbye.passed
ends_after_goodbye_example =
    ends_after_goodbye (reply_start ∷ []) (reply_end ∷ []) (other ∷ [])
      (reply_start ∷ reply_end ∷ []) (refl, tt) (refl, tt) (refl, tt)

at_once :
    (process (arm_frame true ∷ reply_start ∷ []) fresh).0 ≡ end_worker ∷ pushed reply_start ∷ []
unfolding process process_frame end_call
at_once = refl
