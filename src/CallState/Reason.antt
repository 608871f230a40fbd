-- ===== src/CallState/Reason.antt =====
-- The reason that `infer_ended_reason` gives, against the state machine and the recorded events.
use turncall.Prelude.{
  String, ◌≡◌, ◌≢◌, refl, ◌↔◌, Bool, true, false, ◌||◌, List, contains, arith, eq_iff, str_eq,
}
use turncall.CallState.{
  CallStatus, completed, unknown, customer_ended_call, customer_did_not_answer, customer_busy,
  in_progress, value, is_terminal_state, infer_ended_reason,
}
use turncall.CallState.Transitions.{Leads, is_answered, Leads-answered}

-- Some event that says by itself how the call ended.
abbrev pub signalled : List String → Bool
signalled events =
    contains "voicemail.detected" events
    || contains "call.transferred" events
    || contains "call.max_duration_reached" events
    || contains "call.customer_silent" events

-- A call in a terminal state always gets a reason: never `unknown`, whatever was recorded.
pub infer-ne-unknown :
    (s : CallStatus) (events : List String) (assistant_ended : Bool)
    → is_terminal_state s ≡ true
    → infer_ended_reason (value s) events assistant_ended ≢ unknown
unfolding infer_ended_reason is_terminal_state
infer-ne-unknown completed events assistant_ended h = ground arith
infer-ne-unknown _ events assistant_ended h = ground arith

customer_ended_of :
    (events : List String)
    → signalled events ≡ false
    → infer_ended_reason "completed" events false ≡ customer_ended_call
unfolding infer_ended_reason
customer_ended_of events h = ground arith

customer_ended_needs :
    (status : String) (events : List String) (assistant_ended : Bool)
    → infer_ended_reason status events assistant_ended ≡ customer_ended_call
    → (str_eq status "completed" ≡ true) × (assistant_ended ≡ false) × (signalled events ≡ false)
unfolding infer_ended_reason
customer_ended_needs status events assistant_ended h = ground arith

-- The reason `customer_ended_call` is given exactly to a completed call that no event explains and
-- that the assistant did not end.
pub infer_customer_ended_iff :
    (status : String) (events : List String) (assistant_ended : Bool)
    → (infer_ended_reason status events assistant_ended ≡ customer_ended_call)
      ↔ ((status ≡ "completed") × (assistant_ended ≡ false) × (signalled events ≡ false))
infer_customer_ended_iff status events assistant_ended = (
  λ h.
      let (s, a, e) = customer_ended_needs status events assistant_ended h in
      ((eq_iff status "completed").0 s, a, e),
  λ h. rw (h.0, h.1) (customer_ended_of events h.2),
)

reason_answered :
    (s : CallStatus) (events : List String) (assistant_ended : Bool)
    → is_answered s ≡ true
    → (infer_ended_reason (value s) events assistant_ended ≢ customer_did_not_answer)
      × (infer_ended_reason (value s) events assistant_ended ≢ customer_busy)
unfolding infer_ended_reason
reason_answered in_progress events assistant_ended h = ground arith
reason_answered _ events assistant_ended h = ground arith

-- A call that was in progress, however it went on, is never reported as unanswered or busy.
pub infer_of_answered :
    {s : CallStatus} (events : List String) (assistant_ended : Bool)
    → Leads in_progress s
    → (infer_ended_reason (value s) events assistant_ended ≢ customer_did_not_answer)
      × (infer_ended_reason (value s) events assistant_ended ≢ customer_busy)
infer_of_answered {s} events assistant_ended p =
    reason_answered s events assistant_ended (Leads-answered p refl)
