-- ===== src/Secrets/Kept.antt =====
-- `keep_masked_tool_secrets` of domain/config_secrets.py: a masked secret that comes back means "unchanged".
pub mod Returned
use turncall.Prelude.{
  ℕ, suc, String, Bool, not, ◌&&◌, ◌+◌, List, [], ◌∷◌, map, Option, none, some, str_eq,
  if◌then◌else◌,
}
use turncall.Json.{Fields}
use turncall.Secrets.{mask}

-- A tool's dict: the two keys that the code reads, and the others. A secret of None and none at all
-- read alike.
pub record Tool : Type 0 where
  pub name : String
  pub webhook_secret : Option String
  pub others : Fields

-- The rule of `sanitize_tools` for one tool.
unfoldable pub mask_tool : Tool → Tool
mask_tool t = elim t.webhook_secret [ none ↦ t | some s ↦ record t { webhook_secret = some mask } ]

-- `known`, a dict: the last value set for a name is the one it has.
abbrev pub Known : Type 0
Known = List (String × String)

unfoldable pub known_get : String → Known → Option String
known_get n [] = none
known_get n ((m, s) ∷ rest) = if str_eq m n then some s else known_get n rest

-- `secret and secret != MASK`
unfoldable pub usable_secret : Option String → Option String
usable_secret none = none
usable_secret (some s) = if not (str_eq s "") && not (str_eq s mask) then some s else none

unfoldable pub learn : List Tool → Known → Known
unfolding usable_secret
learn [] known = known
learn (t ∷ rest) known =
    learn rest
      (elim (usable_secret t.webhook_secret) [ none ↦ known | some s ↦ (t.name, s) ∷ known ])

-- Over `reversed(earlier)`: the first list is learnt last, and wins.
unfoldable pub known_from : List (List Tool) → Known
unfolding learn
known_from [] = []
known_from (listed ∷ earlier) = learn listed (known_from earlier)

unfoldable pub is_masked : Option String → Bool
is_masked none = Bool.false
is_masked (some s) = str_eq s mask

unfoldable pub get_or_mask : Option String → String
get_or_mask none = mask
get_or_mask (some s) = s

unfoldable pub keep : Known → Tool → Tool
unfolding is_masked known_get get_or_mask
keep known t =
    if is_masked t.webhook_secret
    then record t { webhook_secret = some (get_or_mask (known_get t.name known)) }
    else t

-- The indexes, from `i`, of the tools that are still masked.
unfoldable pub unfilled_from : ℕ → List Tool → List ℕ
unfolding is_masked
unfilled_from i [] = []
unfilled_from i (t ∷ rest) =
    let later = unfilled_from (suc i) rest in
    if is_masked t.webhook_secret then i ∷ later else later

unfoldable pub keep_masked_tool_secrets : List Tool → List (List Tool) → List Tool × List ℕ
unfolding known_from keep unfilled_from
keep_masked_tool_secrets tools earlier =
    let kept = map (keep (known_from earlier)) tools in (kept, unfilled_from 0 kept)
