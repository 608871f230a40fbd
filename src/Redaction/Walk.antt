-- ===== src/Redaction/Walk.antt =====
-- A walk depends on what redacts only at the texts that are collected from it.
use turncall.Prelude.{
  ℕ, String, Bool, ◌||◌, ◌≡◌, refl, ap, ap₂, List, [], ◌∷◌, ◌++◌, Option, Bool-cases, inl, inr,
}
use turncall.Json.{Json, Items, Fields, int, text, arr, obj, nil, cons, end, field}
use turncall.Redaction.{
  deep, deep_items, deep_fields, deep_text, deep_int, texts_of, texts_of_items, texts_of_fields,
  treatment, Treatment, kept, replaced, analysed,
}
use turncall.Redaction.Shapes.{Unicode, is_blank, shaped_structural, a_long_integer}
use turncall.Redaction.Payload.{walk, walk_value, treated_texts, texts_in}

-- The two agree on every text of the list.
abbrev pub AgreeOn : (String → String) → (String → String) → List String → Type 0
AgreeOn f g [] = Unit
AgreeOn f g (t ∷ rest) = (f t ≡ g t) × AgreeOn f g rest

agree_left : (f g : String → String) (xs ys : List String) → AgreeOn f g (xs ++ ys) → AgreeOn f g xs
agree_left f g [] ys h = tt
agree_left f g (x ∷ xs) ys h = (h.0, agree_left f g xs ys h.1)

agree_right :
    (f g : String → String) (xs ys : List String) → AgreeOn f g (xs ++ ys) → AgreeOn f g ys
agree_right f g [] ys h = h
agree_right f g (x ∷ xs) ys h = agree_right f g xs ys h.1

module _ (u : Unicode) (f g : String → String) where
  text-ext :
      (s : String) → AgreeOn f g (texts_of u (text s)) → deep u f (text s) ≡ deep u g (text s)
  unfolding deep deep_text texts_of
  text-ext s h = elim (Bool-cases (is_blank u s || shaped_structural u s)) [
    | inl e ↦ rw e
    | inr e ↦ rw e (ap text (rw e at h).0)
  ]

  int-ext :
      (negative : Bool) (n : ℕ)
      → AgreeOn f g (texts_of u (int negative n))
      → deep u f (int negative n) ≡ deep u g (int negative n)
  unfolding deep deep_int texts_of
  int-ext negative n h = elim (Bool-cases (a_long_integer n)) [
    | inl e ↦ rw (e, (rw e at h).0)
    | inr e ↦ rw e
  ]

  mutual
    unfolding deep texts_of

    pub deep-ext : (v : Json) → AgreeOn f g (texts_of u v) → deep u f v ≡ deep u g v
    deep-ext (text s) h = text-ext s h
    deep-ext (int negative n) h = int-ext negative n h
    deep-ext (arr xs) h = ap arr (deep_items-ext xs h)
    deep-ext (obj d) h = ap obj (deep_fields-ext d h)
    deep-ext _ h = refl

    deep_items-ext :
        (xs : Items) → AgreeOn f g (texts_of_items u xs) → deep_items u f xs ≡ deep_items u g xs
    deep_items-ext nil h = refl
    deep_items-ext (cons v rest) h =
        ap₂ cons (deep-ext v (agree_left f g (texts_of u v) (texts_of_items u rest) h))
          (deep_items-ext rest (agree_right f g (texts_of u v) (texts_of_items u rest) h))

    deep_fields-ext :
        (d : Fields) → AgreeOn f g (texts_of_fields u d) → deep_fields u f d ≡ deep_fields u g d
    deep_fields-ext end h = refl
    deep_fields-ext (field k v rest) h =
        ap₂ (field k) (deep-ext v (agree_left f g (texts_of u v) (texts_of_fields u rest) h))
          (deep_fields-ext rest (agree_right f g (texts_of u v) (texts_of_fields u rest) h))

  module _ (event_type : Option String) (keep entities : List String) where
    value-ext :
        (t : Treatment) (v : Json)
        → AgreeOn f g (treated_texts u event_type keep t v)
        → walk_value u t entities f v ≡ walk_value u t entities g v
    unfolding walk_value treated_texts
    value-ext kept v h = refl
    value-ext replaced v h = refl
    value-ext analysed v h = deep-ext v h

    pub walk-ext :
        (d : Fields)
        → AgreeOn f g (texts_in u event_type keep d)
        → walk u event_type keep entities f d ≡ walk u event_type keep entities g d
    unfolding walk texts_in
    walk-ext end h = refl
    walk-ext (field k v rest) h =
        let t : Treatment = treatment u event_type keep k v in
        let here : List String = treated_texts u event_type keep t v in
        let later : List String = texts_in u event_type keep rest in
        ap₂ (field k) (value-ext t v (agree_left f g here later h))
          (walk-ext rest (agree_right f g here later h))
