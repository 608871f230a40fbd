-- ===== src/Json.antt =====
-- JSON as Python holds it: a dict is its items in insertion order, each key at most once. What a
-- pass over a dict or a list applies to each value may raise, which is `none`.
pub mod Passes
use Prim.Native.Char.{code}
use turncall.Prelude.{
  ℕ, String, Bool, true, false, List, [], ◌∷◌, Option, none, some, str_eq, ◌==◌, if◌then◌else◌,
}

-- `float` has the text that the number is written with: no code here computes with one. An integer
-- is its sign (true if negative) and its size.
mutual
  pub data Json : Type 0 where
    null : Json
    boolean : Bool → Json
    int : Bool → ℕ → Json
    float : String → Json
    text : String → Json
    arr : Items → Json
    obj : Fields → Json

  pub data Items : Type 0 where
    nil : Items
    cons : Json → Items → Items

  pub data Fields : Type 0 where
    end : Fields
    field : String → Json → Fields → Fields

infixl 5 ◌>>=◌
abbrev pub ◌>>=◌ {ℓ κ} : {A : Type ℓ} {B : Type κ} → Option A → (A → Option B) → Option B
none >>= f = none
some a >>= f = f a

-- `d.get(key)`, with `none` for a key that is not there.
unfoldable pub get : String → Fields → Option Json
get k end = none
get k (field j v rest) = if str_eq j k then some v else get k rest

-- `{**d, key: value}`
unfoldable pub put : String → Json → Fields → Fields
put k v end = field k v end
put k v (field j w rest) = if str_eq j k then field j v rest else field j w (put k v rest)

-- `{k: f(k, v) for k, v in d.items()}`
unfoldable pub map_fields : (String → Json → Json) → Fields → Fields
map_fields f end = end
map_fields f (field k v rest) = field k (f k v) (map_fields f rest)

-- `[f(v) for v in items]`
unfoldable pub map_items : (Json → Json) → Items → Items
map_items f nil = nil
map_items f (cons v rest) = cons (f v) (map_items f rest)

-- The same, where `f` may raise.
unfoldable pub try_fields : (String → Json → Option Json) → Fields → Option Fields
try_fields f end = some end
try_fields f (field k v rest) = do v' ← f k v; rest' ← try_fields f rest; some (field k v' rest')

unfoldable pub try_items : (Json → Option Json) → Items → Option Items
try_items f nil = some nil
try_items f (cons v rest) = do v' ← f v; rest' ← try_items f rest; some (cons v' rest')

-- A pass over what is a dict, or a list; any other value stays as it is.
abbrev pub try_dict : (Fields → Option Fields) → Json → Option Json
try_dict f (obj d) = f d >>= λ d'. some (obj d')
try_dict f v = some v

abbrev pub try_list : (Json → Option Json) → Json → Option Json
try_list f (arr xs) = try_items f xs >>= λ xs'. some (arr xs')
try_list f v = some v

abbrev pub on_dict : (Fields → Fields) → Json → Json
on_dict f (obj d) = obj (f d)
on_dict f v = v

abbrev pub on_list : (Json → Json) → Json → Json
on_list f (arr xs) = arr (map_items f xs)
on_list f v = v

-- What `f` makes of the value under one key.
abbrev pub at : String → (Json → Json) → String → Json → Json
at k f j v = if str_eq j k then f v else v

abbrev pub try_at : String → (Json → Option Json) → String → Json → Option Json
try_at k f j v = if str_eq j k then f v else some v

-- `s[len(prefix):]` if `s.startswith(prefix)`
unfoldable pub after : String → String → Option String
after String.[] s = some s
after (String.◌∷◌ c p) String.[] = none
after (String.◌∷◌ c p) (String.◌∷◌ d s) = if code c == code d then after p s else none
