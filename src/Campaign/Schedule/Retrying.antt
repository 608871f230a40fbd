-- ===== src/Campaign/Schedule/Retrying.antt =====
-- `retry_at` allows a retry exactly under the rule for the outcome, no earlier than the rule's spacing and at
-- an instant that the window allows.
use turncall.Prelude.{
  ℕ, ◌+◌, ◌<◌, ◌≤◌, ◌≡◌, refl, String, Option, none, some, List, leb, arith, Bool-cases, inl, inr,
}
use turncall.Campaign.{CallingWindow, RetryRule}
use turncall.Campaign.Schedule.{Zone, next_open, rule_for, retry_by, retry_at, or_empty}
use turncall.Campaign.Schedule.Earliest.{AllowedAt, next_open-AllowedAt}

retry_by-lem :
    (o : Option RetryRule) (attempts now r : ℕ) (zone : Zone) (window : Option CallingWindow)
    → retry_by o attempts now zone window ≡ some (some r)
    → (rule : RetryRule) × (o ≡ some rule)
      × (attempts < rule.max_attempts)
      × (next_open zone (now + rule.spacing_seconds) window ≡ some r)
unfolding retry_by
retry_by-lem none attempts now r zone window e = ground arith
retry_by-lem (some rule) attempts now r zone window e =
    elim (Bool-cases (leb rule.max_attempts attempts)) [
      | inl spent ↦ ground arith
      | inr left ↦ (rule, refl, ground arith, ground arith)
    ]

-- A retry is given only under the rule that the policy has for the outcome, while fewer dials were
-- placed than the rule allows, and then at least the rule's spacing after now, in the window of an
-- allowed date or at the opening of a window that the zone's clocks skip. This holds in any zone.
pub retry_keeps_rule :
    (policy : List (String × RetryRule)) (ended_reason : Option String) (attempts now r : ℕ)
    (zone : Zone) (window : CallingWindow)
    → retry_at policy ended_reason attempts now zone (some window) ≡ some (some r)
    → (rule : RetryRule) × (rule_for policy (or_empty ended_reason) ≡ some rule)
      × (attempts < rule.max_attempts)
      × (now + rule.spacing_seconds ≤ r)
      × AllowedAt zone window r
unfolding retry_at
retry_keeps_rule policy ended_reason attempts now r zone window e =
    let (rule, found, left, opened) =
      retry_by-lem (rule_for policy (or_empty ended_reason)) attempts now r zone (some window) e in
    let within = next_open-AllowedAt zone window (now + rule.spacing_seconds) r opened in
    (rule, found, left, within.0, within.1)
