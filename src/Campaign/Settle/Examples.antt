-- ===== src/Campaign/Settle/Examples.antt =====
-- A busy call is settled for a retry.
use turncall.Prelude.{◌≡◌, refl, true, ◌&&◌, some, [], ◌∷◌, any, ◌==◌, is_some}
use turncall.Campaign.{calling, CampaignRow, TargetRow, Db}
use turncall.Campaign.Repo.{retry_target}
use turncall.Campaign.Examples.{target, campaign, utc, policy}
use turncall.Campaign.Settle.{Calls, calling_targets, reason_of, settle}
use turncall.Campaign.Settle.Left.{Left, settled_leaves}

abbrev calls : Calls
calls = record { is_there = λ _. true; ended_reason = λ _. some "customer_busy" }

abbrev retrying : CampaignRow
retrying = record campaign { retry_policy = policy }

abbrev on_call : TargetRow
on_call = record (target 1 calling) { call_id = some 5; attempts = 1 }

abbrev on_a_call : Db
on_a_call = record { campaigns = retrying ∷ []; targets = on_call ∷ [] }

abbrev settled : Db
settled = (retry_target 1 "customer_busy" 4600 1000 on_a_call).1

settles : settle (λ _. utc) retrying calls 1000 1000 on_a_call ≡ some settled
unfolding settle retry_target
settles = refl

one_has_ended :
    any (λ t. t.id == 1 && is_some (reason_of calls t.call_id)) (calling_targets 1 calls on_a_call)
    ≡ true
unfolding calling_targets
one_has_ended = refl

settled_leaves_example : Left 1 settled
settled_leaves_example =
    settled_leaves (λ _. utc) retrying calls 1000 1000 1 on_a_call settled settles one_has_ended
