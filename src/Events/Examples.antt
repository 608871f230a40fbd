-- ===== src/Events/Examples.antt =====
-- A subscriber that answers at the third request, and one that never does.
use turncall.Prelude.{ℕ, zero, suc, String, true, List, [], ◌∷◌, ◌≡◌, refl, arith, map}
use turncall.Events.{
  Response, status, request_error, success, failure, deliver_webhook, attempt_from, after_answer,
  go_on, Subscription, deliver_to_subscribers, get_active_subscribers, power_of_two,
}
use turncall.Events.Retries.{delivered, gives_up, delays}

abbrev third_time : ℕ → Response
third_time zero = request_error
third_time (suc zero) = status 503
third_time (suc (suc n)) = status 200

delivered_example :
    deliver_webhook third_time 5 1
    ≡ record { result = success 200 3; posts = 3; slept = delays 1 2 0 }
delivered_example =
    delivered third_time 5 1 2 200 (tt, (omega arith, tt)) (omega arith) refl (omega arith)

abbrev never : ℕ → Response
never n = status 500

gives_up_example :
    deliver_webhook never 5 1 ≡ record { result = failure 6; posts = 6; slept = delays 1 5 0 }
gives_up_example =
    gives_up never 5 1 (omega arith, (omega arith, (omega arith, (omega arith, (omega arith, tt)))))
      (omega arith)

doubling : delays 1 5 0 ≡ 1 ∷ 2 ∷ 4 ∷ 8 ∷ 16 ∷ []
unfolding power_of_two
doubling = refl

abbrev to_url : String → List String → Subscription
to_url url events = record { project = 7; active = true; events = events; url = url; secret = "s" }

abbrev rows : List Subscription
rows =
    to_url "a" []
    ∷ to_url "b" ("call.ended" ∷ [])
    ∷ to_url "c" ("campaign.completed" ∷ "*" ∷ [])
    ∷ to_url "d" ("call.started" ∷ [])
    ∷ []

chosen : map (λ s. s.0) (get_active_subscribers rows 7 "call.ended") ≡ "a" ∷ "b" ∷ "c" ∷ []
unfolding get_active_subscribers turncall.Events.covers
chosen = refl
