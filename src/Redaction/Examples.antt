-- ===== src/Redaction/Examples.antt =====
-- Payloads redacted, and the engine and the policy cache run, at concrete inputs.

use turncall.Prelude.{
  ◌≤◌, String, Bool, true, false, ◌&&◌, ◌≡◌, refl, List, [], ◌∷◌, length, none, some, arith, leb,
  str_eq, if◌then◌else◌, ◌⊎◌, ◌==◌,
}
use turncall.Json.{Fields, text, int, arr, nil, cons, end, field}
use turncall.Redaction.{deep, treatment, Treatment, replaced, texts_of}
use turncall.Redaction.Shapes.{
  Unicode, is_iso_timestamp, shaped_structural, is_blank, a_number, a_long_integer, written, codes,
  ends_with,
}
use turncall.Redaction.Payload.{redact_payload, redact_fields, texts_in, walk}
use turncall.Redaction.Detected.{redacts_in_place}
use turncall.Redaction.Withheld.{AllPlaceholders, fails_closed}
use turncall.Redaction.Policy.{
  Redacting, Projects, Use, asks, sees, fails, arrives, commits, returned, policy_for_project,
  read_row, use_cache, run,
}
use turncall.Redaction.Policy.Steps.{AllCurrent}
use turncall.Redaction.Policy.Fresh.{since_change, Applies, fresh_within_ttl}
use turncall.Redaction.Engine as Worker
use turncall.Redaction.Engine.Bounded.{run_bounded, breaker_holds, sum}

-- The digits and blanks of ASCII.
abbrev ascii : Unicode
ascii = record { is_digit = λ c. leb b'0' c && leb c b'9'; is_space = λ c. c == b' ' }

uuid_seen : shaped_structural ascii " 0123abcd-0123-4567-89AB-0123456789ef " ≡ true
unfolding shaped_structural
uuid_seen = refl

timestamp_seen : is_iso_timestamp ascii (codes "2026-01-31T09:30:00.25+01:00") ≡ true
unfolding is_iso_timestamp
timestamp_seen = refl

no_timestamp : is_iso_timestamp ascii (codes "2026-01-31") ≡ false
unfolding is_iso_timestamp
no_timestamp = refl

number_seen : a_number ascii "whatsapp:+1 (415) 555-0132" ≡ true
unfolding a_number
number_seen = refl

no_number : a_number ascii "webrtc" ≡ false
unfolding a_number
no_number = refl

written_out : written true 4155550132 ≡ "-4155550132"
unfolding written
written_out = refl

long_seen : a_long_integer 1000000 ≡ true
unfolding a_long_integer
long_seen = refl

short_seen : a_long_integer 999999 ≡ false
unfolding a_long_integer
short_seen = refl

-- What a caller said, with a number in a tool's arguments, and a field of TurnCall's own.
abbrev payload : Fields
payload = field "text" (text "ada") (
    field "customer_number" (text "+14155550132") (
      field "call_id" (text "c1")
        (field "arguments" (arr (cons (int false 4155550132) (cons (text "ada") nil))) end)))

abbrev swap_ada : String → String
swap_ada s = if str_eq s "ada" then "<PERSON>" else s

redacts_in_place_example :
    redact_payload ascii (some "transcript") [] (some swap_ada) false ("PERSON" ∷ []) payload
    ≡ some (walk ascii (some "transcript") [] ("PERSON" ∷ []) swap_ada payload)
redacts_in_place_example =
    redacts_in_place ascii swap_ada false (some "transcript") [] ("PERSON" ∷ []) payload

fails_closed_example :
    (redact_payload ascii none [] none false ("PHONE_NUMBER" ∷ []) payload
      ≡ some (redact_fields ascii none ("PHONE_NUMBER" ∷ []) payload))
    × AllPlaceholders
        (texts_in ascii none [] (redact_fields ascii none ("PHONE_NUMBER" ∷ []) payload))
fails_closed_example = fails_closed ascii none ("PHONE_NUMBER" ∷ []) payload

left_out :
    redact_fields ascii none ("PHONE_NUMBER" ∷ []) payload
    ≡ field "text" (text "<REDACTED>") (
        field "customer_number" (text "<PHONE_NUMBER>") (
          field "call_id" (text "c1") (
            field "arguments" (arr (cons (text "<REDACTED>") (cons (text "<REDACTED>") nil))) end)))
unfolding redact_fields ends_with turncall.Redaction.deep_text turncall.Redaction.is_number_text
    turncall.Redaction.deep_int is_blank a_number a_long_integer shaped_structural written
left_out = refl

abbrev row_of : Bool → Redacting
row_of b = record { redaction_enabled = b; redaction_entities = none }

-- A row is read just before another replica turns redaction on, and what was read comes after that.
abbrev read_before : List Use
read_before = asks 3 1 ∷ sees 0 ∷ []

abbrev lands_later : List Use
lands_later = arrives 8 0 ∷ []

abbrev goes_on : List Use
goes_on = asks 9 1 ∷ commits 2 (row_of true) ∷ arrives 10 0 ∷ asks 11 3 ∷ fails 0 ∷ []

abbrev off : Projects
off p = some (row_of false)

stale_at_first :
    policy_for_project 37 1 (since_change read_before 1 (row_of true) lands_later off).cache
    ≡ returned none
unfolding policy_for_project run use_cache
stale_at_first = refl

nothing_left :
    AllCurrent 1
      (read_row (some (row_of true)))
      (since_change read_before 1 (row_of true) lands_later off).on_the_way
unfolding run use_cache
nothing_left = tt

fresh_within_ttl_example :
    Applies 38 1
      (row_of true)
      (run goes_on (since_change read_before 1 (row_of true) lands_later off))
fresh_within_ttl_example =
    fresh_within_ttl 8 38 1 (row_of true) read_before lands_later goes_on off tt (omega arith, tt)
      tt (omega arith, tt) nothing_left (omega arith)

-- A batch of 300 texts is taken in alone, and the next one is withheld.
abbrev busy : List Worker.Event
busy = Worker.asked 1 299 ∷ Worker.asked 2 0 ∷ Worker.load_ended 3 true ∷ []

run_bounded_example :
    ((Worker.run busy Worker.fresh).pending ≡ sum (Worker.run busy Worker.fresh).jobs)
    × (((Worker.run busy Worker.fresh).pending ≤ 256)
        ⊎ (length (Worker.run busy Worker.fresh).jobs ≤ 1))
run_bounded_example = run_bounded busy

taken_in : (Worker.run busy Worker.fresh).jobs ≡ 300 ∷ []
unfolding Worker.run Worker.happen
taken_in = refl

breaker_holds_example :
    Worker.ask 310 1 (
      Worker.run (Worker.asked 20 0 ∷ []) (Worker.happen (Worker.load_ended 11 false) Worker.fresh))
    ≡ (
      false,
      Worker.run (Worker.asked 20 0 ∷ []) (Worker.happen (Worker.load_ended 11 false) Worker.fresh),
    )
breaker_holds_example =
    breaker_holds (Worker.load_ended 11 false) Worker.fresh (Worker.asked 20 0 ∷ []) 310 1 refl
      (omega arith, tt) (omega arith)
