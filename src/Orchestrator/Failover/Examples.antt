-- ===== src/Orchestrator/Failover/Examples.antt =====
-- A group of two members on a call that fails over, with the speech and the reply that it keeps.
use turncall.Prelude.{
  ℕ, Bool, true, false, not, ◌&&◌, List, [], ◌∷◌, map, ◌≡◌, ◌≢◌, refl, arith, ◌==◌, Bool-cases, inl,
  inr, if◌then◌else◌,
}
use turncall.Orchestrator.Failover.{
  Switcher, Event, error_pushed, settings_of, run, happen, push_error_frame, settings_changed,
  keep_failed_down,
}
use turncall.Orchestrator.Failover.Members.{Chain, AllDistinct}
use turncall.Orchestrator.Failover.OneWay.{Laws, never_back}
use turncall.Orchestrator.Failover.Speech as Stt
use turncall.Orchestrator.Failover.Unheard.{replayed}
use turncall.Orchestrator.Failover.Reply as Tts
use turncall.Orchestrator.Failover.Spoken.{reply_again}

-- A switcher of two members: on an error it leaves the active one for the other, if that is usable.
record Two : Type 0 where
  on : ℕ
  up : ℕ → Bool

abbrev other_of : ℕ → ℕ
other_of n = if n == 0 then 1 else 0

abbrev two : Switcher Two
two = record {
  active = λ s. s.on;
  usable = λ s n. s.up n;
  set_usable = λ m b s. record s { up = λ n. if n == m then b else s.up n };
  push_error = λ s.
      if s.up (other_of s.on)
      then record { on = other_of s.on; up = λ n. not (n == s.on) && s.up n }
      else s;
}

itself : (n : ℕ) → (n == n) ≡ true
itself n = ground arith

apart : (n m : ℕ) → n ≢ m → (n == m) ≡ false
apart n m h = ground arith

not_other : (n : ℕ) → (other_of n == n) ≡ false
not_other n = ground arith

two-Laws : Laws two
two-Laws = record {
  sets = λ m b s. rw (itself m) refl;
  sets_only = λ m n b s h. rw (apart n m h) refl;
  gains = λ m s. refl;
  loses = λ m s h. refl;
  leaves = λ s h. elim (Bool-cases (s.up (other_of s.on))) [
    | inl e ↦ rw (e, itself s.on) refl
    | inr e ↦ absurd (h (rw e refl))
  ];
  moves = λ s h. elim (Bool-cases (s.up (other_of s.on))) [
    | inl e ↦ rw (e, not_other s.on, e) refl
    | inr e ↦ absurd (h (rw e refl))
  ];
  error_keeps = λ s n h. elim (Bool-cases (s.up (other_of s.on))) [
    | inl e ↦ rw (e, h) (ground arith)
    | inr e ↦ rw e h
  ];
}

-- The first member fails, its settings change, and the second fails as well.
abbrev failing : List Event
failing = error_pushed ∷ settings_of 0 ∷ error_pushed ∷ []

abbrev both_up : Two
both_up = record { on = 0; up = λ n. true }

never_back_example :
    Chain 0
      (run two failing (record { switcher = both_up; failed = [] })).0
      (run two failing (record { switcher = both_up; failed = [] })).1.switcher.on
    × AllDistinct (
        0 ∷ map (λ f. f.to_member) (run two failing (record { switcher = both_up; failed = [] })).0)
never_back_example = never_back two two-Laws failing both_up

moved_once :
    (run two failing (record { switcher = both_up; failed = [] })).0
    ≡ record { from_member = 0; to_member = 1 } ∷ []
unfolding run happen push_error_frame settings_changed keep_failed_down
moved_once = refl

-- A sentence that the failed member did not transcribe; the frames are numbered.
abbrev sentence : List (Stt.Event ℕ)
sentence =
    Stt.audio 4 ∷ Stt.started_speaking ∷ Stt.audio 5 ∷ Stt.interim ∷ Stt.stopped_speaking ∷ []

replayed_example :
    Stt.replay (Stt.run (Stt.audio 3 ∷ Stt.transcription ∷ sentence) Stt.fresh)
    ≡ Stt.speech_starts ∷ Stt.original 4 ∷ Stt.original 5 ∷ Stt.speech_stops ∷ []
replayed_example = replayed (Stt.audio 3 ∷ []) sentence (refl, (refl, (refl, (refl, (refl, tt)))))

-- Two silent turns write the active member off, if another is usable.
abbrev two_silences : Bool → Bool × Stt.Stt ℕ
two_silences others = Stt.happen (Stt.silent_turn_over others) (
    Stt.run (Stt.stopped_speaking ∷ Stt.silent_turn_over others ∷ Stt.stopped_speaking ∷ [])
      Stt.fresh)

written_off : (two_silences true).0 ≡ true
unfolding Stt.happen Stt.run Stt.check_silent_turn
written_off = refl

kept_alone : (two_silences false).0 ≡ false
unfolding Stt.happen Stt.run Stt.check_silent_turn
kept_alone = refl

-- The greeting, which the failed member closed without a sound.
abbrev greeting : List Tts.Event
greeting =
    Tts.downstream (Tts.text false)
    ∷ Tts.downstream (Tts.text true)
    ∷ Tts.pushed Tts.tts_stopped
    ∷ []

reply_again_example :
    Tts.replay (
      Tts.run
        (Tts.pushed Tts.tts_audio ∷ Tts.downstream (Tts.reply_start false) ∷ greeting)
        Tts.fresh)
    ≡ Tts.reply_start false ∷ Tts.text false ∷ []
reply_again_example =
    reply_again (Tts.pushed Tts.tts_audio ∷ []) (Tts.reply_start false) greeting refl
      (refl, (refl, (refl, tt)))
