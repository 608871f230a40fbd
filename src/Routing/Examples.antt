-- ===== src/Routing/Examples.antt =====
-- A split between two agents, at concrete weights.
use turncall.Prelude.{List, [], ◌∷◌, ◌≡◌, refl}
use turncall.Routing.{Weighted, pick_agent_by_weight}
use turncall.Routing.Shares.{count_range, is_agent, weight_of, share_of_buckets}

abbrev split : List Weighted
split = record { agent_id = 1; weight = 30 } ∷ record { agent_id = 2; weight = 70 } ∷ []

share_of_buckets_example :
    count_range (λ bucket. is_agent 2 (pick_agent_by_weight (λ _. bucket) split "+15550100")) 0 100
    ≡ weight_of 2 split
share_of_buckets_example = share_of_buckets 2 split "+15550100" refl
