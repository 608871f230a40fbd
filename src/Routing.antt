-- ===== src/Routing.antt =====
-- services/weighted_routing.py: the agent variant that a caller reaches. SHA-256 is a parameter: the
-- number that the first eight hex digits of a caller's digest spell.
pub mod Shares
mod Examples
use turncall.Prelude.{ℕ, ◌+◌, ◌%◌, String, Option, none, some, List, [], ◌∷◌, ltb, if◌then◌else◌}

pub record Weighted : Type 0 where
  pub agent_id : ℕ
  pub weight : ℕ

-- `routing_weights[-1]`; `none` is the IndexError of an empty list.
unfoldable pub last_agent : List Weighted → Option ℕ
last_agent [] = none
last_agent (e ∷ []) = some e.agent_id
last_agent (e ∷ d ∷ rest) = last_agent (d ∷ rest)

-- The loop: the first entry whose running total passes the bucket, else `fallback`.
unfoldable pub pick_from : Option ℕ → ℕ → ℕ → List Weighted → Option ℕ
pick_from fallback bucket cumulative [] = fallback
pick_from fallback bucket cumulative (e ∷ rest) =
    let next = pick_from fallback bucket (cumulative + e.weight) rest in
    if ltb bucket (cumulative + e.weight) then some e.agent_id else next

unfoldable pub pick_agent_by_weight : (String → ℕ) → List Weighted → String → Option ℕ
unfolding pick_from last_agent
pick_agent_by_weight digest routing_weights caller_number =
    pick_from (last_agent routing_weights) (digest caller_number % 100) 0 routing_weights
