-- ===== src/Redaction/Shapes.antt =====
-- The shapes of text that services/redaction.py tells apart: its regular expressions, matched whole
-- and without search, over the code points of a text.
use Prim.Native.Char.{code}
use Prim.Native.Nat.{◌/◌}
use turncall.Prelude.{
  ℕ, suc, zero, ◌%◌, String, Bool, true, false, not, ◌&&◌, ◌||◌, List, [], ◌∷◌, ◌++◌, Option, none,
  some, str_eq, str_append, ltb, leb, ◌==◌, if◌then◌else◌, length, filter,
}
use mathlib.Core.List.{reverse}

-- The tables of the Unicode database that `\d`, `\s` and `str.strip` read.
pub record Unicode : Type 0 where
  pub is_digit : ℕ → Bool
  pub is_space : ℕ → Bool

abbrev pub codes : String → List ℕ
codes String.[] = []
codes (String.◌∷◌ c s) = code c ∷ codes s

abbrev pub Class : Type 0
Class = ℕ → Bool

-- The classes in a row at the front, and what follows them.
unfoldable pub eat : List Class → List ℕ → Option (List ℕ)
eat [] s = some s
eat (p ∷ ps) [] = none
eat (p ∷ ps) (c ∷ s) = if p c then eat ps s else none

unfoldable pub skip : Class → List ℕ → List ℕ
skip p [] = []
skip p (c ∷ s) = if p c then skip p s else c ∷ s

unfoldable pub all : Class → List ℕ → Bool
all p [] = true
all p (c ∷ s) = p c && all p s

unfoldable pub is_empty : List ℕ → Bool
is_empty [] = true
is_empty (c ∷ s) = false

abbrev pub times : ℕ → Class → List Class
times zero p = []
times (suc n) p = p ∷ times n p

abbrev pub is : ℕ → Class
is c d = d == c

abbrev pub between : ℕ → ℕ → Class
between lo hi c = leb lo c && leb c hi

abbrev pub is_hex : Class
is_hex c = between b'0' b'9' c || between b'a' b'f' c || between b'A' b'F' c

unfoldable pub matches_all : Option (List ℕ) → Bool
unfolding is_empty
matches_all none = false
matches_all (some rest) = is_empty rest

-- _UUID
unfoldable pub is_uuid : List ℕ → Bool
unfolding eat matches_all
is_uuid s = matches_all (
    eat
      (times 8 is_hex
        ++ is b'-'
          ∷ (times 4 is_hex
              ++ is b'-'
                ∷ (times 4 is_hex ++ is b'-' ∷ (times 4 is_hex ++ is b'-' ∷ times 12 is_hex))))
      s)

-- What an optional part leaves: the part eaten where it is there.
unfoldable pub or_else : List ℕ → Option (List ℕ) → List ℕ
or_else s none = s
or_else s (some rest) = rest

module _ (u : Unicode) where
  abbrev two_digits : List Class
  two_digits = u.is_digit ∷ u.is_digit ∷ []

  -- `(\.\d+)?`: a point with no digit after it is left, and nothing later matches it.
  unfoldable pub after_fraction : List ℕ → List ℕ
  unfolding eat skip
  after_fraction s = elim (eat (is b'.' ∷ u.is_digit ∷ []) s) [
    | none ↦ s
    | some rest ↦ skip u.is_digit rest
  ]

  -- `(:\d{2}(\.\d+)?)?`
  unfoldable pub after_seconds : List ℕ → List ℕ
  unfolding eat after_fraction
  after_seconds s = elim (eat (is b':' ∷ two_digits) s) [
    | none ↦ s
    | some rest ↦ after_fraction rest
  ]

  -- `(Z|[+-]\d{2}:?\d{2})?` and the end
  unfoldable pub is_zone : List ℕ → Bool
  unfolding eat matches_all is_empty or_else
  is_zone s =
      is_empty s
      || matches_all (eat (is b'Z' ∷ []) s)
      || elim (eat ((λ c. c == b'+' || c == b'-') ∷ two_digits) s) [
        | none ↦ false
        | some rest ↦ matches_all (eat two_digits (or_else rest (eat (is b':' ∷ []) rest)))
      ]

  -- _ISO_TIMESTAMP
  unfoldable pub is_iso_timestamp : List ℕ → Bool
  unfolding eat after_seconds is_zone
  is_iso_timestamp s =
      elim (eat
        (times 4 u.is_digit
          ++ is b'-'
            ∷ (two_digits
                ++ is b'-'
                  ∷ (two_digits
                      ++ (λ c. c == b'T' || c == b' ') ∷ (two_digits ++ is b':' ∷ two_digits))))
        s) [ none ↦ false | some rest ↦ is_zone (after_seconds rest) ]

  unfoldable pub strip : List ℕ → List ℕ
  unfolding skip
  strip s = reverse (skip u.is_space (reverse (skip u.is_space s)))

  -- `not value.strip()`
  unfoldable pub is_blank : String → Bool
  unfolding all
  is_blank value = all u.is_space (codes value)

  unfoldable pub shaped_structural : String → Bool
  unfolding strip is_uuid is_iso_timestamp
  shaped_structural value = let s = strip (codes value) in is_uuid s || is_iso_timestamp s

  abbrev in_phone : Class
  in_phone c = u.is_digit c || u.is_space c || c == b'(' || c == b')' || c == b'.' || c == b'-'

  -- `(?:[a-z]+:)?`
  unfoldable pub after_scheme : List ℕ → List ℕ
  unfolding eat skip
  after_scheme s = elim (eat (between b'a' b'z' ∷ []) s) [
    | none ↦ s
    | some rest ↦ elim (eat (is b':' ∷ []) (skip (between b'a' b'z') rest)) [
      | none ↦ s
      | some body ↦ body
    ]
  ]

  -- _PHONE_SHAPED: the class takes spaces itself, so of blanks alone it takes the last.
  unfoldable pub phone_shaped : List ℕ → Bool
  unfolding skip after_scheme or_else eat all is_empty
  phone_shaped s =
      let front = skip u.is_space s in
      let scheme = after_scheme front in
      let body = or_else scheme (eat (is b'+' ∷ []) scheme) in
      if is_empty front then not (is_empty s) else not (is_empty body) && all in_phone body

  unfoldable pub a_number : String → Bool
  unfolding phone_shaped
  a_number value = phone_shaped (codes value) && leb 7 (length (filter u.is_digit (codes value)))

-- `str(n)`: its digits, the last one last.
unfoldable pub digit : ℕ → String
digit d =
    if d == 0
    then "0"
    else if d == 1
    then "1"
    else if d == 2
    then "2"
    else if d == 3
    then "3"
    else if d == 4
    then "4"
    else if d == 5
    then "5"
    else if d == 6
    then "6"
    else if d == 7
    then "7"
    else if d == 8
    then "8"
    else "9"

-- The digits of `n`, the last first. Each round takes a tenth, so `n` rounds are enough.
unfoldable pub digits_of : ℕ → ℕ → List ℕ
digits_of zero n = n ∷ []
digits_of (suc fuel) n =
    let rest = digits_of fuel (n / 10) in if ltb n 10 then n ∷ [] else n % 10 ∷ rest

unfoldable pub joined : List ℕ → String
unfolding digit
joined [] = ""
joined (d ∷ rest) = str_append (joined rest) (digit d)

unfoldable pub written : Bool → ℕ → String
unfolding digits_of joined
written negative n = let s = joined (digits_of n n) in if negative then str_append "-" s else s

-- An integer of seven digits or more; a bool is `boolean` here.
unfoldable pub a_long_integer : ℕ → Bool
unfolding digits_of
a_long_integer n = leb 7 (length (digits_of n n))

-- `key.endswith(suffix)`
unfoldable pub ends_with : String → String → Bool
ends_with suffix String.[] = str_eq suffix ""
ends_with suffix (String.◌∷◌ c s) = str_eq suffix (String.◌∷◌ c s) || ends_with suffix s
