-- ===== src/Orchestrator/Hangup.antt =====
-- orchestrator/hangup.py: the gate behind the LLM that ends the call after the agent's goodbye.
pub mod Goodbye
mod Examples
use turncall.Prelude.{Bool, true, false, not, ◌||◌, List, [], ◌∷◌, ◌++◌, if◌then◌else◌}

-- The frames that the gate sees: `HangupArmFrame`, the two ends of a reply, and all others.
pub data Frame : Type 0 where
  arm_frame : (current_reply : Bool) → Frame
  reply_start reply_end other : Frame

-- What it sends on: a frame it was given, or the `EndWorkerFrame` of its own.
pub data Sent : Type 0 where
  pushed : (frame : Frame) → Sent
  end_worker : Sent

-- `quiet` is the event `_quiet`: no reply is playing.
pub record Gate : Type 0 where
  pub ending : Bool
  pub armed : Bool
  pub replying : Bool
  pub ended : Bool
  pub quiet : Bool

abbrev pub fresh : Gate
fresh = record { ending = false; armed = false; replying = false; ended = false; quiet = true }

unfoldable pub begin_ending : Gate → Gate
begin_ending g = record g { ending = true }

-- `_end`
unfoldable pub end_call : Gate → List Sent × Gate
end_call g =
    if g.ended
    then ([], record g { replying = false })
    else (end_worker ∷ [], record g { replying = false; ended = true })

unfoldable pub process_frame : Frame → Gate → List Sent × Gate
unfolding end_call
process_frame (arm_frame false) g = ([], record g { ending = true; armed = true })
process_frame (arm_frame true) g =
    let g' : Gate = record g { ending = true; armed = true; replying = not g.quiet } in
    if not g'.replying then end_call g' else ([], g')
process_frame reply_start g =
    (pushed reply_start ∷ [], record g { replying = g.replying || g.armed; quiet = false })
process_frame reply_end g =
    let g' : Gate = record g { quiet = true } in
    let (sent, g'') = end_call g' in
    if g'.replying then (pushed reply_end ∷ sent, g'') else (pushed reply_end ∷ [], g')
process_frame other g = (pushed other ∷ [], g)

unfoldable pub process : List Frame → Gate → List Sent × Gate
unfolding process_frame
process [] g = ([], g)
process (frame ∷ rest) g =
    let (sent, g') = process_frame frame g in
    let (more, g'') = process rest g' in (sent ++ more, g'')
