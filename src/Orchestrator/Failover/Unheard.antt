-- ===== src/Orchestrator/Failover/Unheard.antt =====
-- The speech that a new STT is handed.
use turncall.Prelude.{
  ℕ, suc, ◌+◌, ◌≤◌, ◌<◌, Bool, true, false, ◌||◌, List, [], ◌∷◌, ◌++◌, map, length, ltb, any, ◌≡◌,
  refl, arith, sym, ◌∙◌, ap, ap₂, Bool-cases, inl, inr, if◌then◌else◌,
}
use mathlib.Core.List.{append_assoc, append-nil}
use turncall.Orchestrator.Failover.Speech.{
  Stt, fresh, stt_replay_frames, append_within, Event, audio, started_speaking, stopped_speaking,
  transcription, interim, silent_turn_over, check_silent_turn, happen, run, Queued, speech_starts,
  speech_stops, original, replay,
}

past : (n k : ℕ) → ltb n (k + 1) ≡ true → ltb n (suc k + 1) ≡ true
past n k e = ground arith

not_past : (n k : ℕ) → ltb (k + 1) n ≡ true → ltb n (suc k + 1) ≡ false
not_past n k e = ground arith

just_past : (n k : ℕ) → ltb n (k + 1) ≡ false → ltb (k + 1) n ≡ false → ltb n (suc k + 1) ≡ true
just_past n k e d = ground arith

reaches : (n k : ℕ) → ltb n (k + 1) ≡ false → suc k ≤ n
reaches n k e = ground arith

module _ {A : Type 0} where
  -- The last `n`.
  abbrev pub last : ℕ → List A → List A
  last n [] = []
  last n (x ∷ xs) = if ltb n (length xs + 1) then last n xs else x ∷ xs

  length-append_one : (xs : List A) (y : A) → length (xs ++ (y ∷ [])) ≡ suc (length xs)
  length-append_one [] y = refl
  length-append_one (x ∷ xs) y = omega (arith, length-append_one xs y)

  last_within : (n : ℕ) (xs : List A) → length xs ≤ n → last n xs ≡ xs
  last_within n [] h = refl
  last_within n (x ∷ xs) h = ground arith

  append_within-last :
      (n : ℕ) (xs : List A) (y : A)
      → 0 < n
      → append_within n (last n xs) y ≡ last n (xs ++ (y ∷ []))
  unfolding append_within
  append_within-last n [] y h = ground arith
  append_within-last n (x ∷ xs) y h = elim (Bool-cases (ltb n (length xs + 1))) [
    | inl e ↦ rw (e, length-append_one xs y, past n (length xs) e) (append_within-last n xs y h)
    | inr e ↦
        rw (e, length-append_one xs y)
          (elim (Bool-cases (ltb (length xs + 1) n)) [
            | inl d ↦ rw (d, not_past n (length xs) d) refl
            | inr d ↦
                rw
                  (
                    d,
                    just_past n (length xs) e d,
                    last_within n (xs ++ (y ∷ []))
                        (rw (length-append_one xs y) (reaches n (length xs) e)),
                  )
                  refl
          ])
  ]

or_true : (b : Bool) → true ≡ (b || true)
or_true b = ground arith

not_empty : (k : ℕ) → ltb (suc k) 1 ≡ false
not_empty k = ground arith

module _ {Audio : Type 0} where
  abbrev pub is_final : Event Audio → Bool
  is_final transcription = true
  is_final _ = false

  abbrev pub is_start : Event Audio → Bool
  is_start started_speaking = true
  is_start _ = false

  abbrev pub NoFinal : List (Event Audio) → Type 0
  NoFinal [] = Unit
  NoFinal (x ∷ xs) = (is_final x ≡ false) × NoFinal xs

  abbrev pub audio_of : List (Event Audio) → List Audio
  audio_of [] = []
  audio_of (audio frame ∷ xs) = frame ∷ audio_of xs
  audio_of (_ ∷ xs) = audio_of xs

  -- Whether VAD hears the caller at the end, when it did or did not at the start.
  abbrev pub speaks : Bool → List (Event Audio) → Bool
  speaks b [] = b
  speaks b (started_speaking ∷ xs) = speaks true xs
  speaks b (stopped_speaking ∷ xs) = speaks false xs
  speaks b (_ ∷ xs) = speaks b xs

  run-append : (xs ys : List (Event Audio)) (s : Stt Audio) → run (xs ++ ys) s ≡ run ys (run xs s)
  unfolding run
  run-append [] ys s = refl
  run-append (x ∷ xs) ys s = run-append xs ys (happen x s).1

  -- A check changes nothing of what is replayed.
  silent_turn_over-keeps :
      (others : Bool) (s : Stt Audio)
      → ((happen (silent_turn_over others) s).1.unheard ≡ s.unheard)
        × ((happen (silent_turn_over others) s).1.speech ≡ s.speech)
        × ((happen (silent_turn_over others) s).1.speaking ≡ s.speaking)
  unfolding happen check_silent_turn
  silent_turn_over-keeps others s = (ground arith, ground arith, ground arith)

  run_speaking :
      (xs : List (Event Audio)) (s : Stt Audio) → (run xs s).speaking ≡ speaks s.speaking xs
  unfolding run happen
  run_speaking [] s = refl
  run_speaking (audio frame ∷ xs) s = run_speaking xs _
  run_speaking (started_speaking ∷ xs) s = run_speaking xs _
  run_speaking (stopped_speaking ∷ xs) s = run_speaking xs _
  run_speaking (transcription ∷ xs) s = run_speaking xs _
  run_speaking (interim ∷ xs) s = run_speaking xs _
  run_speaking (silent_turn_over others ∷ xs) s =
      run_speaking xs (happen (silent_turn_over others) s).1
      ∙ ap (λ b. speaks b xs) (silent_turn_over-keeps others s).2

  run_speech :
      (xs : List (Event Audio)) (s : Stt Audio)
      → NoFinal xs
      → (run xs s).speech ≡ (s.speech || any is_start xs)
  unfolding run happen
  run_speech [] s h = ground arith
  run_speech (audio frame ∷ xs) s h = run_speech xs _ h.1
  run_speech (started_speaking ∷ xs) s h = run_speech xs _ h.1 ∙ or_true s.speech
  run_speech (stopped_speaking ∷ xs) s h = run_speech xs _ h.1
  run_speech (transcription ∷ xs) s h = ground arith
  run_speech (interim ∷ xs) s h = run_speech xs _ h.1
  run_speech (silent_turn_over others ∷ xs) s h =
      run_speech xs (happen (silent_turn_over others) s).1 h.1
      ∙ ap (λ b. b || any is_start xs) (silent_turn_over-keeps others s).1

  run_unheard :
      (xs : List (Event Audio)) (s : Stt Audio) (said : List Audio)
      → NoFinal xs
      → s.unheard ≡ last stt_replay_frames said
      → (run xs s).unheard ≡ last stt_replay_frames (said ++ audio_of xs)
  unfolding run happen
  run_unheard [] s said h e = rw (append-nil said) e
  run_unheard (audio frame ∷ xs) s said h e =
      run_unheard xs _ (said ++ (frame ∷ [])) h.1 (
        ap (λ kept. append_within stt_replay_frames kept frame) e
        ∙ append_within-last stt_replay_frames said frame (omega arith))
      ∙ ap (last stt_replay_frames) (append_assoc said (frame ∷ []) (audio_of xs))
  run_unheard (started_speaking ∷ xs) s said h e = run_unheard xs _ said h.1 e
  run_unheard (stopped_speaking ∷ xs) s said h e = run_unheard xs _ said h.1 e
  run_unheard (transcription ∷ xs) s said h e = ground arith
  run_unheard (interim ∷ xs) s said h e = run_unheard xs _ said h.1 e
  run_unheard (silent_turn_over others ∷ xs) s said h e =
      run_unheard xs (happen (silent_turn_over others) s).1 said h.1
        ((silent_turn_over-keeps others s).0 ∙ e)

  -- What was said since a final transcript, as a segment of speech that is closed unless the caller is
  -- still speaking.
  abbrev pub segment : List Audio → Bool → List (Queued Audio)
  segment [] speaking = []
  segment (frame ∷ frames) speaking =
      speech_starts
      ∷ (map original (frame ∷ frames) ++ (if speaking then [] else speech_stops ∷ []))

  segment_of :
      (frames : List Audio) (speaking : Bool)
      → (if ltb (length frames) 1
          then []
          else speech_starts
            ∷ (map original frames ++ (if speaking then [] else speech_stops ∷ [])))
        ≡ segment frames speaking
  segment_of [] speaking = refl
  segment_of (frame ∷ frames) speaking = rw (not_empty (length frames)) refl

  replay-segment :
      (s : Stt Audio) → replay s ≡ (if s.speech then segment s.unheard s.speaking else [])
  unfolding replay
  replay-segment s = elim (Bool-cases s.speech) [
    | inl e ↦ rw e (segment_of s.unheard s.speaking)
    | inr e ↦ rw e refl
  ]

  speaks-append :
      (b : Bool) (xs ys : List (Event Audio)) → speaks b (xs ++ ys) ≡ speaks (speaks b xs) ys
  speaks-append b [] ys = refl
  speaks-append b (audio frame ∷ xs) ys = speaks-append b xs ys
  speaks-append b (started_speaking ∷ xs) ys = speaks-append true xs ys
  speaks-append b (stopped_speaking ∷ xs) ys = speaks-append false xs ys
  speaks-append b (transcription ∷ xs) ys = speaks-append b xs ys
  speaks-append b (interim ∷ xs) ys = speaks-append b xs ys
  speaks-append b (silent_turn_over others ∷ xs) ys = speaks-append b xs ys

  -- After a final transcript, whatever came before it, a new member is handed the last 1500 frames of the
  -- caller's audio since it, if VAD hears the caller at the transcript or starts to after it, and nothing
  -- otherwise.
  pub replayed :
      (before after : List (Event Audio))
      → NoFinal after
      → replay (run (before ++ (transcription ∷ after)) fresh) ≡ (
          if speaks false before || any is_start after
          then segment (last stt_replay_frames (audio_of after)) (speaks false (before ++ after))
          else [])
  unfolding run happen
  replayed before after h =
      let s : Stt Audio = run before fresh in
      let s' : Stt Audio = (happen transcription s).1 in
      let heard : s.speaking ≡ speaks false before = run_speaking before fresh in
      let speech : (run after s').speech ≡ (speaks false before || any is_start after) =
        run_speech after s' h ∙ ap (λ b. b || any is_start after) heard in
      let speaking : (run after s').speaking ≡ speaks false (before ++ after) =
        run_speaking after s'
        ∙ ap (λ b. speaks b after) heard
        ∙ sym (speaks-append false before after) in
      let unheard : (run after s').unheard ≡ last stt_replay_frames (audio_of after) =
        run_unheard after s' [] h refl in
      ap replay (run-append before (transcription ∷ after) fresh)
      ∙ replay-segment (run after s')
      ∙ ap₂ (λ b frames. if b then frames else []) speech (ap₂ segment unheard speaking)
