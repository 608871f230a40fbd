-- ===== src/Events.antt =====
-- events/webhook_delivery.py and the choice of subscribers in events/dispatcher.py. What HTTP answers is
-- given for each attempt.
pub mod Retries
mod Examples
use turncall.Prelude.{
  ℕ, zero, suc, ◌+◌, ◌*◌, Bool, true, false, not, ◌||◌, ◌&&◌, List, [], ◌∷◌, map, filter, String,
  contains, ltb, ◌==◌, if◌then◌else◌,
}

-- `WebhookSubscriptionRow`, `events` being the list under that name.
pub record Subscription : Type 0 where
  pub project : ℕ
  pub active : Bool
  pub events : List String
  pub url : String
  pub secret : String

abbrev is_empty : List String → Bool
is_empty [] = true
is_empty (x ∷ xs) = false

unfoldable pub covers : String → Subscription → Bool
covers event_type row =
    is_empty row.events || contains event_type row.events || contains "*" row.events

unfoldable pub get_active_subscribers : List Subscription → ℕ → String → List (String × String)
unfolding covers
get_active_subscribers rows project event_type =
    map (λ row. (row.url, row.secret))
      (filter (covers event_type) (filter (λ row. (row.project == project) && row.active) rows))

-- What one `post` comes to: a status, an error of the request that is caught, or one that is not.
pub data Response : Type 0 where
  status : (code : ℕ) → Response
  request_error unexpected : Response

-- `DeliveryResult`, or what is raised.
pub data Result : Type 0 where
  success : (code attempts : ℕ) → Result
  failure : (attempts : ℕ) → Result
  raised : Result

-- `posts` is the number of requests that were sent, `slept` the pauses between them, in order.
pub record Delivery : Type 0 where
  pub result : Result
  pub posts : ℕ
  pub slept : List ℕ

abbrev pub max_retries_default : ℕ
max_retries_default = 5

abbrev pub base_delay_seconds : ℕ
base_delay_seconds = 1

unfoldable pub power_of_two : ℕ → ℕ
power_of_two zero = 1
power_of_two (suc n) = 2 * power_of_two n

module _ (answers : ℕ → Response) (max_retries base_delay : ℕ) where
  -- What follows an attempt that failed: the pause, and the attempts that are left.
  unfoldable pub go_on : ℕ → Delivery → Delivery
  go_on attempt rest = record rest {
    posts = suc rest.posts;
    slept =
        if ltb attempt max_retries
        then (base_delay * power_of_two attempt) ∷ rest.slept
        else rest.slept;
  }

  unfoldable pub after_answer : Response → ℕ → Delivery → Delivery
  unfolding go_on
  after_answer (status code) attempt rest =
      if ltb code 400
      then record { result = success code (attempt + 1); posts = 1; slept = [] }
      else go_on attempt rest
  after_answer request_error attempt rest = go_on attempt rest
  after_answer unexpected attempt rest = record { result = raised; posts = 1; slept = [] }

  -- The loop, with the number of attempts that are left and the current one.
  unfoldable pub attempt_from : ℕ → ℕ → Delivery
  unfolding after_answer
  attempt_from zero attempt = record { result = failure (max_retries + 1); posts = 0; slept = [] }
  attempt_from (suc left) attempt =
      after_answer (answers attempt) attempt (attempt_from left (suc attempt))

  unfoldable pub deliver_webhook : Delivery
  unfolding attempt_from
  deliver_webhook = attempt_from (max_retries + 1) 0

unfoldable pub result_of : Result → Result
result_of (success code attempts) = success code attempts
result_of (failure attempts) = failure attempts
result_of raised = failure 0

-- `deliver_to_subscribers`: what is raised for one of them is a failure of its own.
unfoldable pub deliver_to_subscribers :
    (String × String → ℕ → Response) → List (String × String) → List Result
unfolding deliver_webhook result_of
deliver_to_subscribers answers subscribers =
    map
      (λ subscriber.
        result_of
          (deliver_webhook (answers subscriber) max_retries_default base_delay_seconds).result)
      subscribers
