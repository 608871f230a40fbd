-- ===== src/Orchestrator/Failover/Spoken.antt =====
-- The reply that a new TTS is handed.
use turncall.Prelude.{
  Bool, true, false, not, List, [], ◌∷◌, ◌++◌, ◌≡◌, refl, arith, ◌∙◌, ap, Bool-cases, inl, inr,
  if◌then◌else◌,
}
use mathlib.Core.List.{append_assoc, append-nil}
use turncall.Orchestrator.Failover.Reply.{
  Frame, reply_start, speak, text, reply_end, interruption, transcription, other, tts_audio,
  tts_stopped, another, Event, downstream, pushed, Tts, fresh, begin_reply, go_on, note_reply,
  note_pushed, happen, run, replay,
}

-- A frame that begins a reply.
abbrev pub begins : Event → Bool
begins (downstream (reply_start skip)) = not skip
begins (downstream (speak skip)) = not skip
begins _ = false

-- A frame that goes on with one.
abbrev pub is_part : Event → Bool
is_part (downstream (text skip)) = not skip
is_part (downstream (reply_end skip)) = not skip
is_part _ = false

abbrev pub parts_of : List Event → List Frame
parts_of [] = []
parts_of (pushed frame ∷ xs) = parts_of xs
parts_of (downstream frame ∷ xs) =
    let rest = parts_of xs in if is_part (downstream frame) then frame ∷ rest else rest

-- No new reply, no interruption, and no end of the speech once some was heard.
abbrev pub StillOwed : Bool → List Event → Type 0
StillOwed heard [] = Unit
StillOwed heard (downstream interruption ∷ xs) = ⊥
StillOwed heard (pushed tts_audio ∷ xs) = StillOwed true xs
StillOwed heard (pushed tts_stopped ∷ xs) = (heard ≡ false) × StillOwed heard xs
StillOwed heard (x ∷ xs) = (begins x ≡ false) × StillOwed heard xs

abbrev pub NoneBegins : List Event → Type 0
NoneBegins [] = Unit
NoneBegins (x ∷ xs) = (begins x ≡ false) × NoneBegins xs

run-append : (xs ys : List Event) (s : Tts) → run (xs ++ ys) s ≡ run ys (run xs s)
unfolding run
run-append [] ys s = refl
run-append (x ∷ xs) ys s = run-append xs ys (happen x s)

owed :
    (xs : List Event) (first : Frame) (rest : List Frame) (heard : Bool)
    → StillOwed heard xs
    → (run xs (record { reply = first ∷ rest; reply_heard = heard })).reply
      ≡ first ∷ (rest ++ parts_of xs)
unfolding run happen note_reply note_pushed begin_reply go_on
owed [] first rest heard h = rw (append-nil rest) refl
owed (downstream (reply_start false) ∷ xs) first rest heard h = ground arith
owed (downstream (reply_start true) ∷ xs) first rest heard h = owed xs first rest heard h.1
owed (downstream (speak false) ∷ xs) first rest heard h = ground arith
owed (downstream (speak true) ∷ xs) first rest heard h = owed xs first rest heard h.1
owed (downstream (text false) ∷ xs) first rest heard h =
    owed xs first (rest ++ (text false ∷ [])) heard h.1
    ∙ ap (λ l. first ∷ l) (append_assoc rest (text false ∷ []) (parts_of xs))
owed (downstream (text true) ∷ xs) first rest heard h = owed xs first rest heard h.1
owed (downstream (reply_end false) ∷ xs) first rest heard h =
    owed xs first (rest ++ (reply_end false ∷ [])) heard h.1
    ∙ ap (λ l. first ∷ l) (append_assoc rest (reply_end false ∷ []) (parts_of xs))
owed (downstream (reply_end true) ∷ xs) first rest heard h = owed xs first rest heard h.1
owed (downstream interruption ∷ xs) first rest heard h = absurd h
owed (downstream transcription ∷ xs) first rest heard h = owed xs first rest heard h.1
owed (downstream other ∷ xs) first rest heard h = owed xs first rest heard h.1
owed (pushed tts_audio ∷ xs) first rest heard h = owed xs first rest true h
owed (pushed tts_stopped ∷ xs) first rest true h = ground arith
owed (pushed tts_stopped ∷ xs) first rest false h = owed xs first rest false h.1
owed (pushed another ∷ xs) first rest heard h = owed xs first rest heard h.1

begun :
    (first : Frame) (s : Tts)
    → begins (downstream first) ≡ true
    → happen (downstream first) s ≡ record { reply = first ∷ []; reply_heard = false }
unfolding happen note_reply begin_reply
begun (reply_start false) s h = refl
begun (reply_start true) s h = ground arith
begun (speak false) s h = refl
begun (speak true) s h = ground arith
begun (text skip) s h = ground arith
begun (reply_end skip) s h = ground arith
begun interruption s h = ground arith
begun transcription s h = ground arith
begun other s h = ground arith

-- A reply that has begun, whatever came before it, and that was neither cut off nor heard to its end is
-- handed to the new member whole, from its first frame, with every part of it that was asked for since.
pub reply_again :
    (before : List Event) (first : Frame) (after : List Event)
    → begins (downstream first) ≡ true
    → StillOwed false after
    → replay (run (before ++ (downstream first ∷ after)) fresh) ≡ first ∷ parts_of after
unfolding replay run
reply_again before first after b h =
    ap (λ s. s.reply)
      (run-append before (downstream first ∷ after) fresh
        ∙ ap (run after) (begun first (run before fresh) b))
    ∙ owed after first [] false h

-- Nothing is kept, and a frame that begins no reply leaves it so.
silent_step : (x : Event) (s : Tts) → begins x ≡ false → s.reply ≡ [] → (happen x s).reply ≡ []
unfolding happen note_reply note_pushed begin_reply go_on
silent_step (downstream (reply_start false)) s h k = ground arith
silent_step (downstream (reply_start true)) s h k = k
silent_step (downstream (speak false)) s h k = ground arith
silent_step (downstream (speak true)) s h k = k
silent_step (downstream (text skip)) s h k = rw k refl
silent_step (downstream (reply_end skip)) s h k = rw k refl
silent_step (downstream interruption) s h k = refl
silent_step (downstream transcription) s h k = k
silent_step (downstream other) s h k = k
silent_step (pushed tts_audio) s h k = k
silent_step (pushed tts_stopped) s h k = elim (Bool-cases s.reply_heard) [
  | inl e ↦ rw e refl
  | inr e ↦ rw e k
]
silent_step (pushed another) s h k = k

silent_stays : (xs : List Event) (s : Tts) → NoneBegins xs → s.reply ≡ [] → (run xs s).reply ≡ []
unfolding run
silent_stays [] s h k = k
silent_stays (x ∷ xs) s h k = silent_stays xs (happen x s) h.1 (silent_step x s h.0 k)

go_on_heard :
    (frame : Frame) (skip : Bool) (s : Tts) → (go_on frame skip s).reply_heard ≡ s.reply_heard
unfolding go_on
go_on_heard frame skip s = ground arith

-- Once heard, until a reply begins.
heard_step :
    (x : Event) (s : Tts)
    → begins x ≡ false
    → s.reply_heard ≡ true
    → (happen x s).reply_heard ≡ true
unfolding happen note_reply note_pushed begin_reply go_on
heard_step (downstream (reply_start false)) s h k = ground arith
heard_step (downstream (reply_start true)) s h k = k
heard_step (downstream (speak false)) s h k = ground arith
heard_step (downstream (speak true)) s h k = k
heard_step (downstream (text skip)) s h k = go_on_heard (text skip) skip s ∙ k
heard_step (downstream (reply_end skip)) s h k = go_on_heard (reply_end skip) skip s ∙ k
heard_step (downstream interruption) s h k = k
heard_step (downstream transcription) s h k = k
heard_step (downstream other) s h k = k
heard_step (pushed tts_audio) s h k = refl
heard_step (pushed tts_stopped) s h k = rw k refl
heard_step (pushed another) s h k = k

heard_stays :
    (xs : List Event) (s : Tts)
    → NoneBegins xs
    → s.reply_heard ≡ true
    → (run xs s).reply_heard ≡ true
unfolding run
heard_stays [] s h k = k
heard_stays (x ∷ xs) s h k = heard_stays xs (happen x s) h.1 (heard_step x s h.0 k)

-- When speech has stopped and some of it was heard, a new member is handed nothing until the next reply
-- begins.
pub nothing_owed :
    (before during after : List Event)
    → NoneBegins during
    → NoneBegins after
    → replay (run (before ++ (pushed tts_audio ∷ (during ++ (pushed tts_stopped ∷ after)))) fresh)
      ≡ []
unfolding replay run happen note_pushed
nothing_owed before during after d a =
    let s : Tts = happen (pushed tts_audio) (run before fresh) in
    let heard : (run during s).reply_heard ≡ true = heard_stays during s d refl in
    ap (λ t. t.reply)
      (run-append before (pushed tts_audio ∷ (during ++ (pushed tts_stopped ∷ after))) fresh
        ∙ run-append during (pushed tts_stopped ∷ after) s)
    ∙ silent_stays after (happen (pushed tts_stopped) (run during s)) a (rw heard refl)
