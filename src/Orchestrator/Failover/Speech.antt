-- ===== src/Orchestrator/Failover/Speech.antt =====
-- orchestrator/failover.py: `FailoverSTT`, what it keeps of the caller's speech and of the turns that
-- nobody transcribed.
use turncall.Prelude.{
  ℕ, suc, ◌+◌, Bool, true, false, not, ◌||◌, List, [], ◌∷◌, ◌++◌, map, ltb, length, if◌then◌else◌,
}

abbrev pub stt_replay_frames : ℕ
stt_replay_frames = 1500

abbrev pub silent_turns_allowed : ℕ
silent_turns_allowed = 2

-- `unheard` is the deque, the oldest frame first; `silence_check`, whether a check is pending.
pub record Stt (Audio : Type 0) : Type 0 where
  pub unheard : List Audio
  pub speech : Bool
  pub speaking : Bool
  pub heard : Bool
  pub silent_turns : ℕ
  pub silence_check : Bool

-- `deque.append` of a deque that holds `n` at most
unfoldable pub append_within : {A : Type 0} → ℕ → List A → A → List A
append_within n [] x = if ltb 0 n then x ∷ [] else []
append_within n (y ∷ ys) x = if ltb (length ys + 1) n then (y ∷ ys) ++ (x ∷ []) else ys ++ (x ∷ [])

-- What reaches the group, what its members push through it, and the time that has passed. `others` is
-- whether a member after the active one is usable.
pub data Event (Audio : Type 0) : Type 0 where
  audio : (frame : Audio) → Event Audio
  started_speaking stopped_speaking transcription interim : Event Audio
  silent_turn_over : (others : Bool) → Event Audio

module _ {Audio : Type 0} where
  abbrev pub fresh : Stt Audio
  fresh = record {
    unheard = [];
    speech = false;
    speaking = false;
    heard = false;
    silent_turns = 0;
    silence_check = false;
  }

  -- `_check_silent_turn`: whether the active member is written off.
  unfoldable pub check_silent_turn : Bool → Stt Audio → Bool × Stt Audio
  check_silent_turn others s =
      let turns : ℕ = if s.heard then 0 else suc s.silent_turns in
      let s' : Stt Audio = record s {
        silence_check = false;
        silent_turns = turns;
        heard = false;
      } in
      if ltb turns silent_turns_allowed
      then (false, s')
      else if not others
      then (false, s')
      else (true, record s' { silent_turns = 0 })

  unfoldable pub happen : Event Audio → Stt Audio → Bool × Stt Audio
  unfolding append_within check_silent_turn
  happen (audio frame) s =
      (false, record s { unheard = append_within stt_replay_frames s.unheard frame })
  happen started_speaking s =
      (false, record s { speech = true; speaking = true; silence_check = false })
  happen stopped_speaking s = (false, record s { speaking = false; silence_check = true })
  happen transcription s = (false, record s { heard = true; unheard = []; speech = s.speaking })
  happen interim s = (false, record s { heard = true })
  happen (silent_turn_over others) s =
      if s.silence_check then check_silent_turn others s else (false, s)

  unfoldable pub run : List (Event Audio) → Stt Audio → Stt Audio
  unfolding happen
  run [] s = s
  run (x ∷ xs) s = run xs (happen x s).1

-- What the new member is handed.
pub data Queued (Audio : Type 0) : Type 0 where
  speech_starts speech_stops : Queued Audio
  original : (frame : Audio) → Queued Audio

-- `_replay`
unfoldable pub replay : {Audio : Type 0} → Stt Audio → List (Queued Audio)
replay s =
    if not s.speech || ltb (length s.unheard) 1
    then []
    else speech_starts ∷ (map original s.unheard ++ (if s.speaking then [] else speech_stops ∷ []))
