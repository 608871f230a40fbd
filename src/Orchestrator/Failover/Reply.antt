-- ===== src/Orchestrator/Failover/Reply.antt =====
-- orchestrator/failover.py: `FailoverTTS`, the reply that it keeps while it is spoken.
use turncall.Prelude.{Bool, true, false, not, List, [], ◌∷◌, ◌++◌, if◌then◌else◌}

-- The frames that ask for speech, each with its `skip_tts`, and those that come of it.
pub data Frame : Type 0 where
  reply_start speak text reply_end : (skip_tts : Bool) → Frame
  interruption transcription other : Frame

-- What a member pushes.
pub data Pushed : Type 0 where
  tts_audio tts_stopped another : Pushed

pub data Event : Type 0 where
  downstream : (frame : Frame) → Event
  pushed : (frame : Pushed) → Event

pub record Tts : Type 0 where
  pub reply : List Frame
  pub reply_heard : Bool

abbrev pub fresh : Tts
fresh = record { reply = []; reply_heard = false }

unfoldable pub begin_reply : Frame → Bool → Tts → Tts
begin_reply frame skip s =
    if not skip then record { reply = frame ∷ []; reply_heard = false } else s

-- A frame of the reply that is kept, if there is one.
unfoldable pub go_on : Frame → Bool → Tts → Tts
go_on frame skip s = elim s.reply [
  | [] ↦ s
  | first ∷ rest ↦ if not skip then record s { reply = first ∷ (rest ++ (frame ∷ [])) } else s
]

-- `_note_reply`
unfoldable pub note_reply : Frame → Tts → Tts
unfolding begin_reply go_on
note_reply (reply_start skip) s = begin_reply (reply_start skip) skip s
note_reply (speak skip) s = begin_reply (speak skip) skip s
note_reply interruption s = record s { reply = [] }
note_reply (text skip) s = go_on (text skip) skip s
note_reply (reply_end skip) s = go_on (reply_end skip) skip s
note_reply transcription s = s
note_reply other s = s

-- `push_frame`, before it is passed on
unfoldable pub note_pushed : Pushed → Tts → Tts
note_pushed tts_audio s = record s { reply_heard = true }
note_pushed tts_stopped s = if s.reply_heard then record s { reply = [] } else s
note_pushed another s = s

unfoldable pub happen : Event → Tts → Tts
unfolding note_reply note_pushed
happen (downstream frame) s = note_reply frame s
happen (pushed frame) s = note_pushed frame s

unfoldable pub run : List Event → Tts → Tts
unfolding happen
run [] s = s
run (x ∷ xs) s = run xs (happen x s)

-- `_replay`: the frames that the new member is handed.
unfoldable pub replay : Tts → List Frame
replay s = s.reply
