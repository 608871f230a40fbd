-- ===== src/Outbound.antt =====
-- services/outbound_dial.py: placing one outbound call. What the database, the carrier and the customer's
-- call-init server answer is given; the limits are those of Limits.antt, and `before_carrier` is a
-- function on the caller's state, which says whether it lets the dial go on.
pub mod Slot
pub mod Refused
pub mod Ringing
pub mod Counts
mod Examples
use turncall.Prelude.{
  ℕ, String, Bool, true, false, Option, none, some, List, [], ◌∷◌, contains, str_eq, if◌then◌else◌,
}
use turncall.Limits.{
  Redis, Sent, DialSent, DialCheck, allowed, full_live_calls, full_calls_per_second, ProjectLimits,
  reserve_dial, release_live_call,
}

-- Why a dial is refused before the carrier is asked.
pub data Fault : Type 0 where
  number_suppressed : (number : String) → Fault
  no_agent no_number : Fault
  provider_unsupported : (provider : String) → Fault
  account_fault : (code : String) → Fault
  connection_fault : (text : String) → Fault
  rate_limited : DialCheck → Fault
  call_init_raised no_base_url : Fault

pub record NumberRow : Type 0 where
  pub provider : String
  pub e164_number : String

-- What the code reads before it dials: the suppression list, the agent, the number, the carrier account
-- and, on Telnyx, the connection; then whether call-init raises, and the public base URL.
pub record Facts : Type 0 where
  pub is_suppressed : Bool
  pub agent : Option ℕ
  pub number : Option NumberRow
  pub account : Option String
  pub connection : Option String
  pub limits : ProjectLimits
  pub init_raises : Bool
  pub base_url : String

-- What the carrier answers: a call's id, or an error; and whether writing it down succeeds.
pub data Carrier : Type 0 where
  rings : (sid : String) (is_recorded : Bool) → Carrier
  fails : (error : String) → Carrier

-- How `place_outbound_call` ends: it returns the call, or raises.
pub data Outcome : Type 0 where
  placed : (sid : String) → Outcome
  not_recorded : (sid : String) → Outcome
  refused : Fault → Outcome
  stopped : Outcome
  carrier_failed : (error : String) → Outcome

pub record Request : Type 0 where
  pub project : ℕ
  pub call : ℕ
  pub to_number : String
  pub admission : DialSent
  pub release : Sent

-- `admit_outbound_call`: `reserve_dial` with no default rate.
unfoldable pub admit_outbound_call :
    DialSent → ProjectLimits → ℕ → ℕ → String → Redis → DialCheck × Redis
unfolding reserve_dial
admit_outbound_call sent limits project call from_number r =
    reserve_dial sent limits project call from_number 0 r

-- `_record_dial`, after which the slot stays taken whatever happens.
unfoldable pub recorded : String → Bool → Outcome
recorded sid is_recorded = if is_recorded then placed sid else not_recorded sid

abbrev pub number_of : Option NumberRow → String
number_of none = ""
number_of (some number) = number.e164_number

module _ {S : Type 0} (before_carrier : S → Bool × S) (facts : Facts) (request : Request) where
  -- The `except` around the dial: the slot goes back, and the exception goes on.
  unfoldable pub freed : Outcome → S → Redis → Outcome × S × Redis
  unfolding release_live_call
  freed outcome s r = (outcome, s, release_live_call request.release request.project request.call r)

  unfoldable pub ask : Carrier → S → Redis → Outcome × S × Redis
  unfolding recorded freed
  ask (rings sid is_recorded) s r = (recorded sid is_recorded, s, r)
  ask (fails error) s r = freed (carrier_failed error) s r

  -- `_dial`: no URL, or `before_carrier`, may stop it before the carrier is asked.
  unfoldable pub dial : Carrier → S → Redis → Outcome × S × Redis
  unfolding ask freed
  dial carrier s r =
      let (go_on, s') = before_carrier s in
      if str_eq facts.base_url ""
      then freed (refused no_base_url) s r
      else if go_on
      then ask carrier s' r
      else freed stopped s' r

  -- From the admission on.
  unfoldable pub admitted : Carrier → DialCheck → S → Redis → Outcome × S × Redis
  unfolding dial freed
  admitted carrier allowed s r =
      if facts.init_raises then freed (refused call_init_raised) s r else dial carrier s r
  admitted carrier check s r = (refused (rate_limited check), s, r)

  unfoldable pub admit_and_dial : Carrier → String → S → Redis → Outcome × S × Redis
  unfolding admitted admit_outbound_call
  admit_and_dial carrier from_number s r =
      let (check, r') =
        admit_outbound_call request.admission facts.limits request.project request.call from_number
          r in
      admitted carrier check s r'

  -- The account, and on Telnyx the connection.
  unfoldable pub account_problem : String → Option Fault
  account_problem provider = elim facts.account [
    | some code ↦ some (account_fault code)
    | none ↦
        if str_eq provider "telnyx"
        then (elim facts.connection [ none ↦ none | some text ↦ some (connection_fault text) ])
        else none
  ]

  unfoldable pub number_problem : Option NumberRow → Option Fault
  unfolding account_problem
  number_problem none = some no_number
  number_problem (some number) =
      if contains number.provider ("twilio" ∷ "telnyx" ∷ [])
      then account_problem number.provider
      else some (provider_unsupported number.provider)

  -- The first refusal of those that come before the admission.
  unfoldable pub early_problem : Option Fault
  unfolding number_problem
  early_problem =
      if facts.is_suppressed
      then some (number_suppressed request.to_number)
      else elim facts.agent [ none ↦ some no_agent | some agent ↦ number_problem facts.number ]

  unfoldable pub unless : Option Fault → Carrier → S → Redis → Outcome × S × Redis
  unfolding admit_and_dial
  unless (some fault) carrier s r = (refused fault, s, r)
  unless none carrier s r = admit_and_dial carrier (number_of facts.number) s r

  unfoldable pub place_outbound_call : Carrier → S → Redis → Outcome × S × Redis
  unfolding unless early_problem
  place_outbound_call carrier s r = unless early_problem carrier s r
