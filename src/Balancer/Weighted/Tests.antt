-- ===== src/Balancer/Weighted/Tests.antt =====
-- Picks from a tier of two weights.
use xrouter.Common.{ℕ, ◌≡◌, ◌<◌, [], ◌∷◌, codes, false, arith, is_some, ltb, length, lookup}
use xrouter.Core.{ModelEntry, Tier, new_tier}
use xrouter.Core.Endpoint
use xrouter.Balancer.State.{new_balancer}
use xrouter.Balancer.Weighted.{pick_weighted, sum_weights}
use xrouter.Balancer.Weighted.Conserved.{IsBalanced, pick_weighted-IsBalanced}
use xrouter.Balancer.Health.{u32_mod}

abbrev entry : ℕ → ModelEntry
entry weight = record {
  provider = codes "p";
  model = weight ∷ [];
  is_default = false;
  weight = weight;
  endpoint_id = Endpoint.new (codes "p") (weight ∷ []);
}

abbrev weighted : Tier
weighted = new_tier (codes "w") (entry 3 ∷ entry 1 ∷ [])

weighted-small : sum_weights weighted.entries < u32_mod
unfolding sum_weights
weighted-small = omega arith

new_balancer-IsBalanced : IsBalanced new_balancer
unfolding lookup
new_balancer-IsBalanced key s h = cc

pick_weighted-IsBalanced_example :
    IsBalanced (pick_weighted new_balancer weighted 7).1
    × (is_some (pick_weighted new_balancer weighted 7).0 ≡ ltb 0 (length weighted.entries))
pick_weighted-IsBalanced_example =
    pick_weighted-IsBalanced new_balancer weighted 7 weighted-small new_balancer-IsBalanced
