-- ===== src/Redaction/Withheld.antt =====
-- What leaves when the detector does not answer: no text of the payload.
use mathlib.Core.Path.{fun_ext}
use turncall.Prelude.{
  ℕ, String, Bool, true, false, ◌||◌, ◌≡◌, refl, sym, ap, List, [], ◌∷◌, ◌++◌, Option, none, some,
  str_eq, contains, Bool-cases, inl, inr, ◌⊎◌, eq_iff, if◌then◌else◌,
}
use turncall.Json.{Json, Items, Fields, int, text, arr, obj, nil, cons, end, field}
use turncall.Redaction.{
  withheld, phone, deep, deep_items, deep_fields, deep_text, deep_int, texts_of, texts_of_items,
  texts_of_fields, treatment, Treatment, kept, replaced, analysed,
}
use turncall.Redaction.Shapes.{Unicode, is_blank, shaped_structural, a_long_integer, written}
use turncall.Redaction.Payload.{
  replacement, detect, replacements, walk, walk_value, treated_texts, texts_in, redact_payload,
  redact_fields,
}

-- Only what redaction itself put there.
abbrev IsPlaceholder : String → Type 0
IsPlaceholder s = (s ≡ withheld) ⊎ (s ≡ "<PHONE_NUMBER>")

abbrev pub AllPlaceholders : List String → Type 0
AllPlaceholders [] = Unit
AllPlaceholders (t ∷ rest) = IsPlaceholder t × AllPlaceholders rest

all-append :
    (xs ys : List String) → AllPlaceholders xs → AllPlaceholders ys → AllPlaceholders (xs ++ ys)
all-append [] ys h k = k
all-append (x ∷ xs) ys h k = (h.0, all-append xs ys h.1 k)

abbrev blank_out : String → String
blank_out s = withheld

unless-AllPlaceholders :
    (b : Bool) (s : String) → IsPlaceholder s → AllPlaceholders (if b then [] else s ∷ [])
unless-AllPlaceholders true s h = tt
unless-AllPlaceholders false s h = (h, tt)

Treatment-cases : (t : Treatment) → (t ≡ kept) ⊎ (t ≡ replaced) ⊎ (t ≡ analysed)
Treatment-cases kept = inl refl
Treatment-cases replaced = inr (inl refl)
Treatment-cases analysed = inr (inr refl)

replacements-none : (ts : List String) → replacements none false ts ≡ some []
unfolding replacements detect
replacements-none [] = refl
replacements-none (t ∷ rest) = refl

nothing_known : (t : String) → replacement [] t ≡ blank_out t
unfolding replacement
nothing_known t = refl

module _ (u : Unicode) where
  text-AllPlaceholders : (s : String) → AllPlaceholders (texts_of u (deep u blank_out (text s)))
  unfolding texts_of deep deep_text
  text-AllPlaceholders s = elim (Bool-cases (is_blank u s || shaped_structural u s)) [
    | inl e ↦ rw (e, e) tt
    | inr e ↦ rw e (
        unless-AllPlaceholders (is_blank u withheld || shaped_structural u withheld) withheld
          (inl refl))
  ]

  int-AllPlaceholders :
      (negative : Bool) (n : ℕ) → AllPlaceholders (texts_of u (deep u blank_out (int negative n)))
  unfolding texts_of deep deep_int
  int-AllPlaceholders negative n = elim (Bool-cases (a_long_integer n)) [
    | inr e ↦ rw (e, e) tt
    | inl e ↦ rw e (elim (Bool-cases (str_eq withheld (written negative n))) [
      | inl q ↦ rw (q, e) (inl (sym ((eq_iff _ _).0 q)), tt)
      | inr q ↦ rw q (
          unless-AllPlaceholders (is_blank u withheld || shaped_structural u withheld) withheld
            (inl refl))
    ])
  ]

  mutual
    unfolding texts_of deep

    deep-AllPlaceholders : (v : Json) → AllPlaceholders (texts_of u (deep u blank_out v))
    deep-AllPlaceholders (text s) = text-AllPlaceholders s
    deep-AllPlaceholders (int negative n) = int-AllPlaceholders negative n
    deep-AllPlaceholders (arr xs) = items-AllPlaceholders xs
    deep-AllPlaceholders (obj d) = fields-AllPlaceholders d
    deep-AllPlaceholders _ = tt

    items-AllPlaceholders :
        (xs : Items) → AllPlaceholders (texts_of_items u (deep_items u blank_out xs))
    items-AllPlaceholders nil = tt
    items-AllPlaceholders (cons v rest) =
        all-append (texts_of u (deep u blank_out v))
          (texts_of_items u (deep_items u blank_out rest)) (deep-AllPlaceholders v)
          (items-AllPlaceholders rest)

    fields-AllPlaceholders :
        (d : Fields) → AllPlaceholders (texts_of_fields u (deep_fields u blank_out d))
    fields-AllPlaceholders end = tt
    fields-AllPlaceholders (field k v rest) =
        all-append (texts_of u (deep u blank_out v))
          (texts_of_fields u (deep_fields u blank_out rest)) (deep-AllPlaceholders v)
          (fields-AllPlaceholders rest)

  module _ (event_type : Option String) (entities : List String) where
    any-AllPlaceholders :
        (t : Treatment) (w : Json)
        → AllPlaceholders (texts_of u w)
        → AllPlaceholders (treated_texts u event_type [] t w)
    unfolding treated_texts
    any-AllPlaceholders kept w h = tt
    any-AllPlaceholders replaced w h = tt
    any-AllPlaceholders analysed w h = h

    phone-AllPlaceholders :
        (k : String) (v : Json)
        → treatment u event_type [] k v ≡ replaced
        → let w = if contains phone entities then text "<PHONE_NUMBER>" else v in
          AllPlaceholders (treated_texts u event_type [] (treatment u event_type [] k w) w)
    unfolding treated_texts texts_of
    phone-AllPlaceholders k v e = elim (Bool-cases (contains phone entities)) [
      | inl q ↦ rw q (
          any-AllPlaceholders (treatment u event_type [] k (text "<PHONE_NUMBER>"))
            (text "<PHONE_NUMBER>") (unless-AllPlaceholders _ "<PHONE_NUMBER>" (inr refl)))
      | inr q ↦ rw (q, e) tt
    ]

    -- A field that is treated again, after it was.
    field-AllPlaceholders :
        (k : String) (v : Json)
        → let w = walk_value u (treatment u event_type [] k v) entities blank_out v in
          AllPlaceholders (treated_texts u event_type [] (treatment u event_type [] k w) w)
    unfolding walk_value treated_texts
    field-AllPlaceholders k v = elim (Treatment-cases (treatment u event_type [] k v)) [
      | inl e ↦ rw (e, e) tt
      | inr (inl e) ↦ rw e (phone-AllPlaceholders k v e)
      | inr (inr e) ↦ rw e (any-AllPlaceholders _ (deep u blank_out v) (deep-AllPlaceholders v))
    ]

    fields_out-AllPlaceholders :
        (payload : Fields)
        → AllPlaceholders
            (texts_in u event_type [] (walk u event_type [] entities blank_out payload))
    unfolding walk texts_in
    fields_out-AllPlaceholders end = tt
    fields_out-AllPlaceholders (field k v rest) =
        all-append _ _ (field-AllPlaceholders k v) (fields_out-AllPlaceholders rest)

    -- When the engine withholds, a payload leaves as `redact_fields` makes it, with no text left in it but
    -- the placeholders.
    pub fails_closed :
        (payload : Fields)
        → (redact_payload u event_type [] none false entities payload
            ≡ some (redact_fields u event_type entities payload))
          × AllPlaceholders (texts_in u event_type [] (redact_fields u event_type entities payload))
    unfolding redact_payload redact_fields
    fails_closed payload = (
      rw (replacements-none (texts_in u event_type [] payload)) (
          ap (λ (f : String → String). some (walk u event_type [] entities f payload))
            (fun_ext nothing_known)),
      fields_out-AllPlaceholders payload,
    )
