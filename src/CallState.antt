-- ===== src/CallState.antt =====
-- domain/call_state.py, with the enumerations of domain/enums.py that it uses: the states of a call,
-- the transitions between them, and the reason for which a call ended.
pub mod Transitions
pub mod Reason
mod Examples
use turncall.Prelude.{String, Bool, List, [], ◌∷◌, any, contains, is_yes, str_eq, if◌then◌else◌}

pub data CallStatus : Type 0 where
  initiated ringing in_progress transferring handed_off : CallStatus
  completed failed no_answer busy voicemail : CallStatus

pub CallStatus-discrete : Discrete CallStatus
CallStatus-discrete = hlevel

abbrev pub status_eq : CallStatus → CallStatus → Bool
status_eq a b = is_yes (CallStatus-discrete a b)

-- The members' values: `CallStatus` is a `StrEnum`.
unfoldable pub value : CallStatus → String
value initiated = "initiated"
value ringing = "ringing"
value in_progress = "in_progress"
value transferring = "transferring"
value handed_off = "handed_off"
value completed = "completed"
value failed = "failed"
value no_answer = "no_answer"
value busy = "busy"
value voicemail = "voicemail"

-- VALID_TRANSITIONS: every state has an entry, so the `.get` default is never taken.
unfoldable pub valid_transitions : CallStatus → List CallStatus
valid_transitions initiated = ringing ∷ in_progress ∷ failed ∷ no_answer ∷ busy ∷ []
valid_transitions ringing = in_progress ∷ failed ∷ no_answer ∷ busy ∷ voicemail ∷ completed ∷ []
valid_transitions in_progress = transferring ∷ handed_off ∷ completed ∷ failed ∷ []
valid_transitions transferring = in_progress ∷ completed ∷ failed ∷ []
valid_transitions handed_off = in_progress ∷ completed ∷ failed ∷ []
valid_transitions completed = []
valid_transitions failed = []
valid_transitions no_answer = []
valid_transitions busy = []
valid_transitions voicemail = completed ∷ []

abbrev pub holds : CallStatus → List CallStatus → Bool
unfolding CallStatus-discrete
holds s = any (status_eq s)

unfoldable pub is_valid_transition : CallStatus → CallStatus → Bool
unfolding valid_transitions CallStatus-discrete
is_valid_transition current target = holds target (valid_transitions current)

unfoldable pub is_terminal_state : CallStatus → Bool
unfolding CallStatus-discrete
is_terminal_state status = holds status (completed ∷ failed ∷ no_answer ∷ busy ∷ [])

unfoldable pub is_active_state : CallStatus → Bool
unfolding CallStatus-discrete
is_active_state status =
    holds status (initiated ∷ ringing ∷ in_progress ∷ transferring ∷ handed_off ∷ voicemail ∷ [])

pub data EndedReason : Type 0 where
  voicemail transferred assistant_ended_call customer_did_not_answer customer_busy : EndedReason
  pipeline_error telephony_failed max_duration_reached customer_silent : EndedReason
  customer_ended_call unknown : EndedReason

-- The call's terminal status is a text here, and `event_types` a set of texts.
unfoldable pub infer_ended_reason : String → List String → Bool → EndedReason
unfolding value
infer_ended_reason status event_types assistant_ended =
    if contains "voicemail.detected" event_types
    then EndedReason.voicemail
    else if contains "call.transferred" event_types
    then transferred
    else if contains "call.max_duration_reached" event_types
    then max_duration_reached
    else if contains "call.customer_silent" event_types
    then customer_silent
    else if assistant_ended
    then assistant_ended_call
    else if str_eq status (value no_answer)
    then customer_did_not_answer
    else if str_eq status (value busy)
    then customer_busy
    else if str_eq status (value failed)
    then (if contains "call.failed" event_types then telephony_failed else pipeline_error)
    else if str_eq status (value completed)
    then customer_ended_call
    else unknown
