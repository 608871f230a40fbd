-- ===== src/Redaction.antt =====
-- services/redaction.py: which strings of a payload are text, and what redaction makes of them. The
-- detector is Presidio in its own process: what it answers to a list of texts is given.
pub mod Shapes
pub mod Payload
pub mod Walk
pub mod Detected
pub mod Withheld
pub mod Policy
pub mod Engine
mod Examples
use turncall.Prelude.{
  ℕ, String, Bool, true, false, not, ◌&&◌, ◌||◌, List, [], ◌∷◌, ◌++◌, Option, none, some, str_eq,
  contains, if◌then◌else◌, map, length, any,
}
use turncall.Json.{
  Json, Items, Fields, null, boolean, int, float, text, arr, obj, nil, cons, end, field,
}
use Shapes.{Unicode, is_blank, shaped_structural, a_number, a_long_integer, written, ends_with}

abbrev pub withheld : String
withheld = "<REDACTED>"

abbrev pub phone : String
phone = "PHONE_NUMBER"

abbrev pub phone_fields : List String
phone_fields =
    "from_number" ∷ "to_number" ∷ "customer_number" ∷ "turncall_number" ∷ "target_number" ∷ "number"
    ∷ []

abbrev pub structural_fields : List String
structural_fields =
    "id" ∷ "timestamp" ∷ "role" ∷ "source" ∷ "status" ∷ "direction" ∷ "transport" ∷ "channel"
    ∷ "event" ∷ "kind" ∷ "modality" ∷ "ended_reason" ∷ "stage" ∷ "model" ∷ "provider"
    ∷ "transfer_mode" ∷ "answered_by" ∷ "recording_status" ∷ "recording_duration" ∷ "agent_name"
    ∷ "agent_version" ∷ "tool_name" ∷ "twilio_status" ∷ "internal_status" ∷ "hangup_cause"
    ∷ "hangup_source" ∷ "sip_hangup_cause" ∷ "missing_keys" ∷ "skill" ∷ "skills" ∷ "procedure"
    ∷ "procedures" ∷ []

abbrev pub structural_suffixes : List String
structural_suffixes = "_id" ∷ "_ids" ∷ "_sid" ∷ "_at" ∷ "_url" ∷ []

-- _IDENTIFIERS_BY_EVENT, with no identifier for any other event or none.
unfoldable pub identifiers_of : Option String → List String
identifiers_of none = []
identifiers_of (some event) =
    if contains event ("provider.failover" ∷ "procedure.step" ∷ "procedure.refused" ∷ [])
    then "from" ∷ "to" ∷ []
    else if contains event (
        "call.failed" ∷ "call.rejected" ∷ "avatar.unavailable" ∷ "skill.loaded" ∷ "skill.unloaded"
        ∷ [])
    then "reason" ∷ []
    else if str_eq event "procedure.left"
    then "from" ∷ "reason" ∷ []
    else []

unfoldable pub structural : String → Bool
structural key =
    contains key structural_fields || any (λ suffix. ends_with suffix key) structural_suffixes

-- A number at a payload's top level; a bool is an `int` in Python.
unfoldable pub a_measure : Json → Bool
a_measure (int negative n) = true
a_measure (float f) = true
a_measure (boolean b) = true
a_measure _ = false

-- What `_walk` does with a top-level field: kept, replaced whole, or passed to `_deep`.
pub data Treatment : Type 0 where
  kept replaced analysed : Treatment

module _ (u : Unicode) where
  -- `_deep`
  unfoldable pub deep_text : (String → String) → String → String
  deep_text redact s = if is_blank u s || shaped_structural u s then s else redact s

  unfoldable pub deep_int : (String → String) → Bool → ℕ → Json
  deep_int redact negative n =
      let digits = written negative n in
      if a_long_integer n
      then (if str_eq (redact digits) digits then int negative n else text (redact digits))
      else int negative n

  unfoldable mutual
    pub deep : (String → String) → Json → Json
    deep redact (text s) = text (deep_text redact s)
    deep redact (int negative n) = deep_int redact negative n
    deep redact (arr xs) = arr (deep_items redact xs)
    deep redact (obj d) = obj (deep_fields redact d)
    deep redact v = v

    pub deep_items : (String → String) → Items → Items
    deep_items redact nil = nil
    deep_items redact (cons v rest) = cons (deep redact v) (deep_items redact rest)

    pub deep_fields : (String → String) → Fields → Fields
    deep_fields redact end = end
    deep_fields redact (field k v rest) = field k (deep redact v) (deep_fields redact rest)

  -- What one `_deep` passes to `redact`, in order.
  unfoldable mutual
    pub texts_of : Json → List String
    texts_of (text s) = if is_blank u s || shaped_structural u s then [] else s ∷ []
    texts_of (int negative n) = if a_long_integer n then written negative n ∷ [] else []
    texts_of (arr xs) = texts_of_items xs
    texts_of (obj d) = texts_of_fields d
    texts_of _ = []

    pub texts_of_items : Items → List String
    texts_of_items nil = []
    texts_of_items (cons v rest) = texts_of v ++ texts_of_items rest

    pub texts_of_fields : Fields → List String
    texts_of_fields end = []
    texts_of_fields (field k v rest) = texts_of v ++ texts_of_fields rest

  unfoldable pub is_number_text : Json → Bool
  is_number_text (text s) = a_number u s
  is_number_text _ = false

  unfoldable pub treatment : Option String → List String → String → Json → Treatment
  unfolding structural a_measure identifiers_of
  treatment event_type keep key value =
      if contains key keep
        || contains key (identifiers_of event_type)
        || structural key
        || a_measure value
      then kept
      else if contains key phone_fields && is_number_text value
      then replaced
      else analysed
