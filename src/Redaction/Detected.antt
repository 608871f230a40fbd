-- ===== src/Redaction/Detected.antt =====
-- What a payload becomes when the detector answers: as if each of its texts were redacted where it
-- stands, though each distinct one is detected once.
use turncall.Prelude.{
  String, Bool, true, false, ◌≡◌, refl, ap, List, [], ◌∷◌, Option, some, arith, contains, eq_iff,
  eq_refl,
}
use turncall.Json.{Json, Fields}
use turncall.Redaction.{deep, texts_of}
use turncall.Redaction.Shapes.{Unicode}
use turncall.Redaction.Payload.{
  distinct, zip, replacement, worker_redact, detect, replacements, walk, texts_in, redact_payload,
  redact_json,
}
use turncall.Redaction.Walk.{AgreeOn, deep-ext, walk-ext}

-- A text of the list, where it was not seen before, is among the distinct ones.
contains-distinct :
    (t : String) (seen ts : List String)
    → contains t ts ≡ true
    → contains t seen ≡ false
    → contains t (distinct seen ts) ≡ true
unfolding distinct
contains-distinct t seen [] h new = cc
contains-distinct t seen (x ∷ rest) h new =
    ground (arith, eq_iff t x, contains-distinct t seen rest, contains-distinct t (x ∷ seen) rest)

replacement-zip :
    (f : String → String) (t : String) (ts : List String)
    → contains t ts ≡ true
    → replacement (zip ts (worker_redact f ts)) t ≡ f t
unfolding zip replacement worker_redact
replacement-zip f t [] h = cc
replacement-zip f t (x ∷ rest) h = ground (arith, eq_iff t x, eq_iff x t, replacement-zip f t rest)

-- Every text of the list is among `all`.
abbrev Within : List String → List String → Type 0
Within [] all = Unit
Within (t ∷ rest) all = (contains t all ≡ true) × Within rest all

Within-more : (xs all : List String) (t : String) → Within xs all → Within xs (t ∷ all)
Within-more [] all t h = tt
Within-more (x ∷ xs) all t h = (ground arith, Within-more xs all t h.1)

Within-self : (ts : List String) → Within ts ts
Within-self [] = tt
Within-self (t ∷ rest) = (ground (arith, eq_refl t), Within-more rest rest t (Within-self rest))

detected_agree :
    (f : String → String) (ts all : List String)
    → Within ts all
    → AgreeOn (replacement (zip (distinct [] all) (worker_redact f (distinct [] all)))) f ts
detected_agree f [] all h = tt
detected_agree f (t ∷ rest) all h = (
  replacement-zip f t (distinct [] all) (contains-distinct t [] all h.0 refl),
  detected_agree f rest all h.1,
)

replacements_agree :
    (f : String → String) (strict : Bool) (ts : List String)
    → (known : List (String × String)) × (replacements (some f) strict ts ≡ some known)
      × AgreeOn (replacement known) f ts
unfolding replacements detect
replacements_agree f strict [] = ([], refl, tt)
replacements_agree f strict (t ∷ rest) =
    (_, refl, detected_agree f (t ∷ rest) (t ∷ rest) (Within-self (t ∷ rest)))

module _ (u : Unicode) (f : String → String) (strict : Bool) where
  -- With a detector that answers, a payload becomes what redacting each text where it stands makes of
  -- it: that texts are sent once, in one batch, and looked up again changes nothing.
  pub redacts_in_place :
      (event_type : Option String) (keep entities : List String) (payload : Fields)
      → redact_payload u event_type keep (some f) strict entities payload
        ≡ some (walk u event_type keep entities f payload)
  unfolding redact_payload
  redacts_in_place event_type keep entities payload =
      let (known, e, h) = replacements_agree f strict (texts_in u event_type keep payload) in
      rw e (ap some (walk-ext u (replacement known) f event_type keep entities payload h))

  -- The same for free JSON.
  pub redacts_json_in_place :
      (value : Json) → redact_json u (some f) strict value ≡ some (deep u f value)
  unfolding redact_json
  redacts_json_in_place value =
      let (known, e, h) = replacements_agree f strict (texts_of u value) in
      rw e (ap some (deep-ext u (replacement known) f value h))
