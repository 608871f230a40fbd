-- ===== src/Evals/Transcript.antt =====
-- Whose words a transcript has.
use turncall.Prelude.{
  Bool, true, false, Option, none, some, List, [], ◌∷◌, ◌++◌, map, filter, ◌≡◌, refl, arith, ◌∙◌,
  ap, ap₂, Bool-cases, inl, inr, if◌then◌else◌,
}
use turncall.Evals.{
  Event, spoken, Role, user, assistant, Line, saying, beside, turns_of, bot_turns, ScriptTurn,
  TurnResult, nth, user_lines, is_not_run, interleave, transcript_from_script,
}

abbrev pub of_role : Role → Line → Bool
of_role user line = elim line.role [ user ↦ true | assistant ↦ false ]
of_role assistant line = elim line.role [ user ↦ false | assistant ↦ true ]

-- The caller's lines of the turns that were sent.
unfoldable pub sent : List ScriptTurn → List TurnResult → List Line
sent turns [] = []
sent turns (t ∷ rest) =
    let later = sent turns rest in
    if is_not_run t then later else user_lines (nth t.turn_index turns) ++ later

abbrev AllBot : List Line → Type 0
AllBot [] = Unit
AllBot (line ∷ lines) = (line.role ≡ assistant) × AllBot lines

beside-AllBot : (heard written : List Event) → AllBot (beside heard written)
unfolding beside
beside-AllBot [] written = tt
beside-AllBot (e ∷ heard) [] = (refl, beside-AllBot heard [])
beside-AllBot (e ∷ heard) (w ∷ written) = (refl, beside-AllBot heard written)

written-AllBot :
    (written : List Event)
    → AllBot (map (λ e. record { role = assistant; content = spoken e; text = none }) written)
written-AllBot [] = tt
written-AllBot (e ∷ written) = (refl, written-AllBot written)

turns_of-AllBot : (heard written : List Event) → AllBot (turns_of heard written)
unfolding turns_of
turns_of-AllBot [] written = written-AllBot written
turns_of-AllBot (e ∷ heard) written = beside-AllBot (e ∷ heard) written

of_bot : (line : Line) → line.role ≡ assistant → of_role assistant line ≡ true
of_bot line h = rw h refl

not_caller : (line : Line) → line.role ≡ assistant → of_role user line ≡ false
not_caller line h = rw h refl

-- One line in front.
bot_first :
    (line : Line) (lines more : List Line)
    → line.role ≡ assistant
    → filter (of_role assistant) lines ≡ more
    → filter (of_role assistant) (line ∷ lines) ≡ line ∷ more
bot_first line lines more h e = rw (of_bot line h) (ap (λ l. line ∷ l) e)

bot_passed :
    (line : Line) (lines more : List Line)
    → line.role ≡ assistant
    → filter (of_role user) lines ≡ more
    → filter (of_role user) (line ∷ lines) ≡ more
bot_passed line lines more h e = rw (not_caller line h) e

bot_all : (lines : List Line) → AllBot lines → filter (of_role assistant) lines ≡ lines
bot_all [] h = refl
bot_all (line ∷ lines) h = bot_first line lines lines h.0 (bot_all lines h.1)

bot_none : (lines : List Line) → AllBot lines → filter (of_role user) lines ≡ []
bot_none [] h = refl
bot_none (line ∷ lines) h = bot_passed line lines [] h.0 (bot_none lines h.1)

filter-append :
    (p : Line → Bool) (xs ys : List Line) → filter p (xs ++ ys) ≡ filter p xs ++ filter p ys
filter-append p [] ys = refl
filter-append p (x ∷ xs) ys = elim (Bool-cases (p x)) [
  | inl e ↦ rw e (ap (λ l. x ∷ l) (filter-append p xs ys))
  | inr e ↦ rw e (filter-append p xs ys)
]

caller_none : (turn : Option ScriptTurn) → filter (of_role assistant) (user_lines turn) ≡ []
unfolding user_lines
caller_none none = refl
caller_none (some turn) = ground arith

caller_all : (turn : Option ScriptTurn) → filter (of_role user) (user_lines turn) ≡ user_lines turn
unfolding user_lines
caller_all none = refl
caller_all (some turn) = ground arith

interleave_bot :
    (turns : List ScriptTurn) (results : List TurnResult) (replies : List Line)
    → AllBot replies
    → filter (of_role assistant) (interleave turns results replies) ≡ replies
unfolding interleave
interleave_bot turns [] replies h = bot_all replies h
interleave_bot turns (t ∷ rest) [] h = elim (Bool-cases (is_not_run t)) [
  | inl e ↦ rw e (interleave_bot turns rest [] h)
  | inr e ↦ rw e (
      filter-append (of_role assistant) (user_lines (nth t.turn_index turns)) _
      ∙ ap₂ (◌++◌) (caller_none (nth t.turn_index turns)) (interleave_bot turns rest [] h))
]
interleave_bot turns (t ∷ rest) (r ∷ replies) h = elim (Bool-cases (is_not_run t)) [
  | inl e ↦ rw e (interleave_bot turns rest (r ∷ replies) h)
  | inr e ↦ rw e (
      filter-append (of_role assistant) (user_lines (nth t.turn_index turns)) _
      ∙ ap₂ (◌++◌) (caller_none (nth t.turn_index turns)) (
          bot_first r (interleave turns rest replies) replies h.0
            (interleave_bot turns rest replies h.1)))
]

interleave_caller :
    (turns : List ScriptTurn) (results : List TurnResult) (replies : List Line)
    → AllBot replies
    → filter (of_role user) (interleave turns results replies) ≡ sent turns results
unfolding interleave sent
interleave_caller turns [] replies h = bot_none replies h
interleave_caller turns (t ∷ rest) [] h = elim (Bool-cases (is_not_run t)) [
  | inl e ↦ rw e (interleave_caller turns rest [] h)
  | inr e ↦ rw e (
      filter-append (of_role user) (user_lines (nth t.turn_index turns)) _
      ∙ ap₂ (◌++◌) (caller_all (nth t.turn_index turns)) (interleave_caller turns rest [] h))
]
interleave_caller turns (t ∷ rest) (r ∷ replies) h = elim (Bool-cases (is_not_run t)) [
  | inl e ↦ rw e (interleave_caller turns rest (r ∷ replies) h)
  | inr e ↦ rw e (
      filter-append (of_role user) (user_lines (nth t.turn_index turns)) _
      ∙ ap₂ (◌++◌) (caller_all (nth t.turn_index turns)) (
          bot_passed r (interleave turns rest replies) (sent turns rest) h.0
            (interleave_caller turns rest replies h.1)))
]

-- The transcript of a scripted iteration has every reply of the bot, in order and once, also those after
-- the last turn; and of the caller the turns that were sent, in order, and nothing else.
pub transcript_is_faithful :
    (events : List Event) (turns : List ScriptTurn) (results : List TurnResult)
    → (filter (of_role assistant) (transcript_from_script events turns results) ≡ bot_turns events)
      × (filter (of_role user) (transcript_from_script events turns results) ≡ sent turns results)
unfolding transcript_from_script bot_turns
transcript_is_faithful events turns results =
    let h : AllBot (bot_turns events) =
      turns_of-AllBot (saying "response" events) (saying "llm_response" events) in
    (
      interleave_bot turns results (bot_turns events) h,
      interleave_caller turns results (bot_turns events) h,
    )
