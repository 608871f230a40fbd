-- ===== src/Procedure/Examples.antt =====
-- A small procedure, accepted and followed on a call.
use turncall.Prelude.{◌≢◌, String, Bool, true, false, none, some, List, [], ◌∷◌, ◌≡◌, ◌↔◌, refl}
use turncall.Procedure.{pos, ProcedureMove, ProcedureStep, Procedure, step, start_step}
use turncall.Procedure.Search.{all_reachable, reached_from}
use turncall.Procedure.Graph.{
  readable, known_words, within_the_caps, unique_ids, one_start, moves_land, has_an_ending,
  escalations, Formats, procedures_refusal,
}
use turncall.Procedure.Graph.Reach.{reached_from_total}
use turncall.Procedure.Graph.Routes.{Route, All}
use turncall.Procedure.Graph.Reachable.{all_reachable_iff}
use turncall.Procedure.Graph.Sound.{IsSound}
use turncall.Procedure.Graph.Accept.{FreshNames, procedures_accepted_iff}
use turncall.Procedure.Window.{steps_ahead}
use turncall.Procedure.Window.Counted.{shown}
use turncall.Procedure.Window.Near.{Near}
use turncall.Procedure.Window.Covers.{ahead_iff}
use turncall.Procedure.Runs.{ProcedureRun, ProcedureState, at_call_start, finished_run}
use turncall.Procedure.State.{move}
use turncall.Procedure.State.Invariant.{IsValid}
use turncall.Procedure.State.Moves.{move_all, move_all-IsValid}
use turncall.Procedure.State.Allowed.{IsAllowed, accepted_iff}
use turncall.Procedure.State.CallStart.{call_start-IsValid}

abbrev say : String → Bool → List ProcedureMove → ProcedureStep
say id first moves = record {
  id = id;
  kind = "ask";
  text = "";
  start = first;
  tool = none;
  moves = moves;
  escalate = none;
}

abbrev finish : String → ProcedureStep
finish id = record {
  id = id;
  kind = "end";
  text = "";
  start = false;
  tool = none;
  moves = [];
  escalate = none;
}

abbrev booking : Procedure
booking = record {
  name = "booking";
  description = "";
  start = "call";
  window_depth = pos 2;
  steps =
      say "ask" true (record { to = "confirm"; when = "a date is given" } ∷ [])
      ∷ say "confirm" false (record { to = "done"; when = "agreed" } ∷ [])
      ∷ finish "done"
      ∷ [];
  unreadable = none;
}

abbrev any_format : Formats
any_format = record { is_uuid = λ _. true; is_e164 = λ _. true }

all_reachable_iff_example :
    (all_reachable booking ≡ none) ↔ All (λ t. Route booking "ask" t.id) booking.steps
all_reachable_iff_example =
    all_reachable_iff booking
      (say "ask" true (record { to = "confirm"; when = "a date is given" } ∷ []))
      (unfold start_step in refl)

reached_from_total_example : (r : List String) × (reached_from booking "ask" ≡ some r)
reached_from_total_example = reached_from_total booking "ask"

procedures_accepted_iff_example :
    (procedures_refusal any_format none (booking ∷ []) ≡ none)
    ↔ (FreshNames [] (booking ∷ []) × All (IsSound any_format none) (booking ∷ []))
procedures_accepted_iff_example = procedures_accepted_iff any_format none (booking ∷ [])

booking_accepted : procedures_refusal any_format none (booking ∷ []) ≡ none
unfolding procedures_refusal readable known_words within_the_caps unique_ids one_start moves_land
    has_an_ending all_reachable escalations
booking_accepted = refl

abbrev started : ProcedureState
unfolding at_call_start
started = at_call_start (booking ∷ [])

abbrev to_the_end : List (String × String)
to_the_end =
    ("booking", "confirm") ∷ ("booking", "ask") ∷ ("booking", "confirm") ∷ ("booking", "done") ∷ []

move_all-IsValid_example : IsValid (move_all (at_call_start (booking ∷ [])) to_the_end)
move_all-IsValid_example =
    move_all-IsValid (at_call_start (booking ∷ [])) to_the_end
      (call_start-IsValid any_format none (booking ∷ []) booking_accepted)

unaccepted : (move (at_call_start (booking ∷ [])) "booking" "done").accepted ≡ false
unfolding move at_call_start
unaccepted = refl

accepted_iff_example :
    ((move (at_call_start (booking ∷ [])) "booking" "confirm").accepted ≡ true)
    ↔ IsAllowed (at_call_start (booking ∷ [])) "booking" "confirm"
accepted_iff_example = accepted_iff (at_call_start (booking ∷ [])) "booking" "confirm"

-- The call after all of those moves.
abbrev at_end : ProcedureState
at_end = move_all (at_call_start (booking ∷ [])) to_the_end

abbrev done_run : ProcedureRun
done_run = record { name = "booking"; current = "done"; earlier = "confirm" ∷ "ask" ∷ [] }

booking_finished : finished_run at_end "booking" ≡ some done_run
unfolding move move_all at_call_start finished_run
booking_finished = refl

abbrev ask_step : ProcedureStep
ask_step = say "ask" true (record { to = "confirm"; when = "a date is given" } ∷ [])

ask_known : step booking "ask" ≡ some ask_step
unfolding step
ask_known = refl

ahead_iff_example :
    (shown "confirm" (steps_ahead booking ask_step (pos 1)) ≡ 1)
    ↔ ((◌≢◌ {A = String} "confirm" "ask") × Near booking "ask" 1 "confirm")
ahead_iff_example = ahead_iff booking ask_step ask_known (pos 1) "confirm"
