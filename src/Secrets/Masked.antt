-- ===== src/Secrets/Masked.antt =====
-- A sanitized config hides what `map_secrets` reaches: the two lists of paths agree.
use turncall.Prelude.{
  String, [], ◌∷◌, ◌≡◌, refl, sym, ◌∙◌, Option, none, some, arith, str_eq, Bool-cases, Option-cases,
  inl, inr, eq_iff,
}
use turncall.Json.{
  Json, Items, Fields, text, arr, obj, nil, cons, end, field, ◌>>=◌, map_fields, map_items,
  try_fields, try_items, try_dict, try_list, at, on_dict, on_list,
}
use turncall.Secrets.{
  mask_value, mask_llm, mask_llm_field, mask_failover, mask_entry, mask_all, mask_mcp_server,
}
use turncall.Secrets.Mapped.{
  map_value, map_keys, map_llm, map_llm_field, map_failover, map_entry, map_mcp_server,
}

bind2-eq-some {ℓ κ μ} :
    {A : Type ℓ} {B : Type κ} {C : Type μ} (c : A → B → C) (v : Option A) (o : Option B) (b : C)
    → (v >>= λ w. o >>= λ r. some (c w r)) ≡ some b
    → (w : A) × (r : B) × (v ≡ some w) × (o ≡ some r) × (b ≡ c w r)
bind2-eq-some c none o b e = cc
bind2-eq-some c (some w) none b e = cc
bind2-eq-some c (some w) (some r) b e = (w, r, refl, refl, cc)

pub bind-eq-some {ℓ κ} :
    {A : Type ℓ} {B : Type κ} (c : A → B) (o : Option A) (b : B)
    → (o >>= λ a. some (c a)) ≡ some b
    → (a : A) × (o ≡ some a) × (b ≡ c a)
bind-eq-some c none b e = cc
bind-eq-some c (some a) b e = (a, refl, cc)

pub some_path {ℓ} : {A : Type ℓ} {a b : A} → some a ≡ some b → a ≡ b
some_path e = cc

-- What `m` shows of a value before and after `f` differs only as `a` says.
abbrev pub Shows {ℓ} : {A : Type ℓ} → (A → Option A) → (A → Option A) → (A → A) → Type ℓ
Shows {A} f a m = (v w : A) → f v ≡ some w → a (m v) ≡ some (m w)

-- Nothing is shown of what `f` does.
abbrev pub Hidden {ℓ} : {A : Type ℓ} → (A → Option A) → (A → A) → Type ℓ
Hidden {A} f m = (v w : A) → f v ≡ some w → m v ≡ m w

pub fields-Shows :
    (f a : String → Json → Option Json) (m : String → Json → Json)
    → ((k : String) → Shows (f k) (a k) (m k))
    → Shows (try_fields f) (try_fields a) (map_fields m)
unfolding try_fields map_fields
fields-Shows f a m h end w e = ground arith
fields-Shows f a m h (field k v rest) w e =
    let (v', r, ev, er, ew) = bind2-eq-some (field k) (f k v) (try_fields f rest) w e in
    rw (ew, h k v v' ev, fields-Shows f a m h rest r er)

pub fields-Hidden :
    (f : String → Json → Option Json) (m : String → Json → Json)
    → ((k : String) → Hidden (f k) (m k))
    → Hidden (try_fields f) (map_fields m)
unfolding try_fields map_fields
fields-Hidden f m h end w e = ground arith
fields-Hidden f m h (field k v rest) w e =
    let (v', r, ev, er, ew) = bind2-eq-some (field k) (f k v) (try_fields f rest) w e in
    rw (ew, h k v v' ev, fields-Hidden f m h rest r er)

items-Hidden :
    (f : Json → Option Json) (m : Json → Json) → Hidden f m → Hidden (try_items f) (map_items m)
unfolding try_items map_items
items-Hidden f m h nil w e = ground arith
items-Hidden f m h (cons v rest) w e =
    let (v', r, ev, er, ew) = bind2-eq-some cons (f v) (try_items f rest) w e in
    rw (ew, h v v' ev, items-Hidden f m h rest r er)

pub dict-Hidden :
    (f : Fields → Option Fields) (m : Fields → Fields)
    → Hidden f m
    → Hidden (try_dict f) (on_dict m)
dict-Hidden f m h (obj d) w e = let (d', ed, ew) = bind-eq-some obj (f d) w e in rw (ew, h d d' ed)
dict-Hidden f m h _ w e = ground arith

pub list-Hidden :
    (f : Json → Option Json) (m : Json → Json) → Hidden f m → Hidden (try_list f) (on_list m)
list-Hidden f m h (arr xs) w e =
    let (xs', ex, ew) = bind-eq-some arr (try_items f xs) w e in
    rw (ew, items-Hidden f m h xs xs' ex)
list-Hidden f m h _ w e = ground arith

pub map_fields_twice :
    (f g : String → Json → Json) (d : Fields)
    → map_fields g (map_fields f d) ≡ map_fields (λ k v. g k (f k v)) d
unfolding map_fields
map_fields_twice f g end = refl
map_fields_twice f g (field k v rest) = rw (map_fields_twice f g rest)

module _ (f : String → Option String) where
  -- A text is mapped to a text.
  pub value_text :
      (s : String) (w : Json) → map_value f (text s) ≡ some w → (t : String) × (w ≡ text t)
  unfolding map_value
  value_text s w e = elim (Bool-cases (str_eq s "")) [
    | inl q ↦ (s, ground arith)
    | inr q ↦ elim (Option-cases (f s)) [
      | inl p ↦ absurd (ground arith)
      | inr (t, p) ↦ (t, ground arith)
    ]
  ]

  pub value-Hidden : Hidden (map_value f) mask_value
  unfolding map_value mask_value
  value-Hidden (text s) w e = let (t, q) = value_text s w e in rw q
  value-Hidden _ w e = ground arith

  mutual
    unfolding map_llm mask_llm map_value

    pub llm-Hidden : (d d' : Fields) → map_llm f d ≡ some d' → mask_llm d ≡ mask_llm d'
    llm-Hidden end w e = ground arith
    llm-Hidden (field k v rest) w e =
        let (v', r, ev, er, ew) =
          bind2-eq-some (field k) (map_llm_field f v k) (map_llm f rest) w e in
        rw (ew, llm_field-Hidden v k v' ev, llm-Hidden rest r er)

    llm_field-Hidden :
        (v : Json) (k : String) (w : Json)
        → map_llm_field f v k ≡ some w
        → mask_llm_field v k ≡ mask_llm_field w k
    llm_field-Hidden (arr xs) k w e = elim (Bool-cases (str_eq k "failover")) [
      | inl q ↦
          let (ys, ey, ew) = bind-eq-some arr (map_failover f xs) w (rw q at e) in
          rw (ew, failover-Hidden xs ys ey, q)
      | inr q ↦ rw (← some_path (rw q at e))
    ]
    llm_field-Hidden (text s) k w e = elim (Bool-cases (str_eq k "api_key")) [
      | inl q ↦ let (t, p) = value_text s w (rw q at e) in rw (p, q)
      | inr q ↦ rw (← some_path (rw q at e))
    ]
    llm_field-Hidden _ k w e = ground arith

    failover-Hidden :
        (xs ys : Items) → map_failover f xs ≡ some ys → mask_failover xs ≡ mask_failover ys
    failover-Hidden nil w e = ground arith
    failover-Hidden (cons v rest) w e =
        let (v', r, ev, er, ew) = bind2-eq-some cons (map_entry f v) (map_failover f rest) w e in
        rw (ew, entry-Hidden v v' ev, failover-Hidden rest r er)

    entry-Hidden : (v w : Json) → map_entry f v ≡ some w → mask_entry v ≡ mask_entry w
    entry-Hidden (obj d) w e =
        let (d', ed, ew) = bind-eq-some obj (map_llm f d) w e in rw (ew, llm-Hidden d d' ed)
    entry-Hidden _ w e = ground arith

  -- A block with one secret.
  pub key-Hidden : (key : String) → Hidden (map_keys f (key ∷ [])) (map_fields (at key mask_value))
  unfolding map_keys
  key-Hidden key = fields-Hidden _ _ (λ k v w e. ground (arith, value-Hidden v w))

  all-Hidden : Hidden (try_dict (try_fields (λ _ w. map_value f w))) (on_dict mask_all)
  unfolding mask_all
  all-Hidden = dict-Hidden _ _ (fields-Hidden _ _ (λ k v w e. refl))

  pub mcp_server-Hidden : Hidden (map_mcp_server f) mask_mcp_server
  unfolding map_mcp_server mask_mcp_server
  mcp_server-Hidden d d' e =
      map_fields_twice _ _ d
      ∙ fields-Hidden _ _
          (λ k v w q. ground (arith, all-Hidden v w, eq_iff k "headers", eq_iff k "env")) d d' e
      ∙ sym (map_fields_twice _ _ d')
