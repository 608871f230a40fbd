-- ===== src/Redaction/Payload.antt =====
-- The operations of services/redaction.py on a payload, on free JSON and on one text, over what the
-- engine answers: `none` when it withholds, else the detector that its worker runs on each text.
use turncall.Prelude.{
  String, Bool, false, List, [], ◌∷◌, ◌++◌, Option, none, some, str_eq, contains, if◌then◌else◌,
  map,
}
use turncall.Json.{Json, Fields, text, end, field, ◌>>=◌}
use turncall.Redaction.{
  Treatment, kept, replaced, analysed, treatment, deep, texts_of, withheld, phone,
}
use turncall.Redaction.Shapes.{Unicode}

abbrev pub Engine : Type 0
Engine = Option (String → String)

-- `list(dict.fromkeys(texts))`: the first of each, in order; `seen` is what came before.
unfoldable pub distinct : List String → List String → List String
distinct seen [] = []
distinct seen (t ∷ rest) =
    let later = distinct (t ∷ seen) rest in
    let skipped = distinct seen rest in if contains t seen then skipped else t ∷ later

-- `dict(zip(unique, redacted))`
unfoldable pub zip : List String → List String → List (String × String)
zip (t ∷ ts) (r ∷ rs) = (t, r) ∷ zip ts rs
zip _ _ = []

unfoldable pub replacement : List (String × String) → String → String
replacement [] t = withheld
replacement ((k, r) ∷ rest) t = if str_eq k t then r else replacement rest t

-- `_worker_redact`
unfoldable pub worker_redact : (String → String) → List String → List String
worker_redact detector texts = map detector texts

-- `_detect`; `none` is RedactionWithheld.
unfoldable pub detect : Engine → Bool → List String → Option (List (String × String))
unfolding distinct zip worker_redact
detect none strict texts = if strict then none else some []
detect (some detector) strict texts =
    let unique = distinct [] texts in some (zip unique (worker_redact detector unique))

unfoldable pub replacements : Engine → Bool → List String → Option (List (String × String))
unfolding detect
replacements engine strict [] = some []
replacements engine strict (t ∷ rest) = detect engine strict (t ∷ rest)

module _ (u : Unicode) where
  unfoldable pub walk_value : Treatment → List String → (String → String) → Json → Json
  unfolding deep
  walk_value kept entities redact v = v
  walk_value replaced entities redact v =
      if contains phone entities then text "<PHONE_NUMBER>" else v
  walk_value analysed entities redact v = deep u redact v

  module _ (event_type : Option String) (keep : List String) where
    -- `_walk`
    unfoldable pub walk : List String → (String → String) → Fields → Fields
    unfolding walk_value treatment
    walk entities redact end = end
    walk entities redact (field k v rest) =
        field k (walk_value (treatment u event_type keep k v) entities redact v)
          (walk entities redact rest)

    unfoldable pub treated_texts : Treatment → Json → List String
    unfolding texts_of
    treated_texts analysed v = texts_of u v
    treated_texts _ v = []

    -- `texts_in`: what `_walk` passes to `redact`.
    unfoldable pub texts_in : Fields → List String
    unfolding treated_texts treatment
    texts_in end = []
    texts_in (field k v rest) = treated_texts (treatment u event_type keep k v) v ++ texts_in rest

    unfoldable pub redact_payload : Engine → Bool → List String → Fields → Option Fields
    unfolding walk texts_in replacements replacement
    redact_payload engine strict entities payload =
        replacements engine strict (texts_in payload) >>= λ known.
        some (walk entities (replacement known) payload)

  -- `redact_fields`
  unfoldable pub redact_fields : Option String → List String → Fields → Fields
  unfolding walk
  redact_fields event_type entities payload = walk event_type [] entities (λ _. withheld) payload

  -- `text_fields`: the top-level fields that hold text.
  unfoldable pub text_fields : Option String → Fields → List String
  unfolding texts_in
  text_fields event_type end = []
  text_fields event_type (field k v rest) =
      let later = text_fields event_type rest in
      elim (texts_in event_type [] (field k v end)) [ [] ↦ later | t ∷ ts ↦ k ∷ later ]

  unfoldable pub redact_json : Engine → Bool → Json → Option Json
  unfolding texts_of deep replacements replacement
  redact_json engine strict value = replacements engine strict (texts_of u value) >>= λ known.
      some (deep u (replacement known) value)

  unfoldable pub redact_text : Engine → String → Option Json
  unfolding redact_json
  redact_text engine s = redact_json engine false (text s)
