-- ===== src/Json/Passes.antt =====
-- Passes over a dict or a list: two in a row are one, and a pass that succeeds more gives the same.
use turncall.Prelude.{
  inl, inr, Bool-cases, str_eq, none, ◌≢◌, String, ◌≡◌, refl, Option, some, arith,
}
use turncall.Json.{
  Json, Fields, nil, cons, end, field, obj, arr, ◌>>=◌, try_fields, try_items, try_dict, try_list,
  try_at,
}

-- Two steps that may raise, in a row.
abbrev pub and_then {ℓ} : {A : Type ℓ} → (A → Option A) → (A → Option A) → A → Option A
and_then f g a = f a >>= g

-- Whatever `f` gives, `g` gives.
abbrev pub Refines {ℓ} : {A : Type ℓ} → (A → Option A) → (A → Option A) → Type ℓ
Refines {A} f g = (a b : A) → f a ≡ some b → g a ≡ some b

-- One after the other, `f` and `g` are `h`.
abbrev pub Fuses {ℓ} : {A : Type ℓ} (f g h : A → Option A) → Type ℓ
Fuses {A} f g h = (a : A) → and_then f g a ≡ h a

pub try_fields-Fuses :
    (f g h : String → Json → Option Json)
    → ((k : String) → Fuses (f k) (g k) (h k))
    → Fuses (try_fields f) (try_fields g) (try_fields h)
unfolding try_fields
try_fields-Fuses f g h p end = refl
try_fields-Fuses f g h p (field k v rest) = ground (arith, p k v, try_fields-Fuses f g h p rest)

pub try_items-Fuses :
    (f g h : Json → Option Json) → Fuses f g h → Fuses (try_items f) (try_items g) (try_items h)
unfolding try_items
try_items-Fuses f g h p nil = refl
try_items-Fuses f g h p (cons v rest) = ground (arith, p v, try_items-Fuses f g h p rest)

pub try_dict-Fuses :
    (f g h : Fields → Option Fields) → Fuses f g h → Fuses (try_dict f) (try_dict g) (try_dict h)
try_dict-Fuses f g h p (obj d) = ground (arith, p d)
try_dict-Fuses f g h p _ = refl

pub try_list-Fuses :
    (f g h : Json → Option Json) → Fuses f g h → Fuses (try_list f) (try_list g) (try_list h)
try_list-Fuses f g h p (arr xs) = ground (arith, try_items-Fuses f g h p xs)
try_list-Fuses f g h p _ = refl

pub try_fields-Refines :
    (f g : String → Json → Option Json)
    → ((k : String) → Refines (f k) (g k))
    → Refines (try_fields f) (try_fields g)
unfolding try_fields
try_fields-Refines f g h end b e = e
try_fields-Refines f g h (field k v rest) b e = grind (arith, h, try_fields-Refines f g h rest)

pub try_items-Refines :
    (f g : Json → Option Json) → Refines f g → Refines (try_items f) (try_items g)
unfolding try_items
try_items-Refines f g h nil b e = e
try_items-Refines f g h (cons v rest) b e = grind (arith, h, try_items-Refines f g h rest)

pub try_dict-Refines :
    (f g : Fields → Option Fields) → Refines f g → Refines (try_dict f) (try_dict g)
try_dict-Refines f g h (obj d) b e = grind (arith, h)
try_dict-Refines f g h _ b e = e

pub try_list-Refines : (f g : Json → Option Json) → Refines f g → Refines (try_list f) (try_list g)
try_list-Refines f g h (arr xs) b e = grind (arith, try_items-Refines f g h)
try_list-Refines f g h _ b e = e

pub try_at-Fuses :
    (key : String) (f g h : Json → Option Json)
    → Fuses f g h
    → (k : String) → Fuses (try_at key f k) (try_at key g k) (try_at key h k)
try_at-Fuses key f g h p k v = elim (Bool-cases (str_eq k key)) [
  | inl e ↦ rw (e, try_at) (p v)
  | inr e ↦ rw (e, try_at)
]

pub try_at-Refines :
    (key : String) (f g : Json → Option Json)
    → Refines f g
    → (k : String) → Refines (try_at key f k) (try_at key g k)
try_at-Refines key f g h k v = elim (Bool-cases (str_eq k key)) [
  | inl e ↦ rw e (h v)
  | inr e ↦ rw e (λ b q. q)
]

-- A step that raises for nothing.
abbrev pub Total {ℓ} : {A : Type ℓ} → (A → Option A) → Type ℓ
Total {A} f = (a : A) → f a ≢ none

pub try_fields-Total :
    (f : String → Json → Option Json) → ((k : String) → Total (f k)) → Total (try_fields f)
unfolding try_fields
try_fields-Total f t end = ground arith
try_fields-Total f t (field k v rest) = ground (arith, t k v, try_fields-Total f t rest)

pub try_items-Total : (f : Json → Option Json) → Total f → Total (try_items f)
unfolding try_items
try_items-Total f t nil = ground arith
try_items-Total f t (cons v rest) = ground (arith, t v, try_items-Total f t rest)

pub try_dict-Total : (f : Fields → Option Fields) → Total f → Total (try_dict f)
try_dict-Total f t (obj d) = ground (arith, t d)
try_dict-Total f t _ = ground arith

pub try_list-Total : (f : Json → Option Json) → Total f → Total (try_list f)
try_list-Total f t (arr xs) = ground (arith, try_items-Total f t xs)
try_list-Total f t _ = ground arith

pub try_at-Total :
    (key : String) (f : Json → Option Json) → Total f → (k : String) → Total (try_at key f k)
try_at-Total key f t k v = ground (arith, t v)

-- A pass that takes each value as it is.
abbrev pub Same {ℓ} : {A : Type ℓ} → (A → Option A) → Type ℓ
Same {A} f = (a : A) → f a ≡ some a

pub try_fields-Same :
    (f : String → Json → Option Json) → ((k : String) → Same (f k)) → Same (try_fields f)
unfolding try_fields
try_fields-Same f s end = refl
try_fields-Same f s (field k v rest) = ground (arith, s k v, try_fields-Same f s rest)

pub try_items-Same : (f : Json → Option Json) → Same f → Same (try_items f)
unfolding try_items
try_items-Same f s nil = refl
try_items-Same f s (cons v rest) = ground (arith, s v, try_items-Same f s rest)

pub try_dict-Same : (f : Fields → Option Fields) → Same f → Same (try_dict f)
try_dict-Same f s (obj d) = ground (arith, s d)
try_dict-Same f s _ = refl

pub try_list-Same : (f : Json → Option Json) → Same f → Same (try_list f)
try_list-Same f s (arr xs) = ground (arith, try_items-Same f s xs)
try_list-Same f s _ = refl

pub try_at-Same :
    (key : String) (f : Json → Option Json) → Same f → (k : String) → Same (try_at key f k)
try_at-Same key f s k v = ground (arith, s v)
