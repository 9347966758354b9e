-- ===== src/Balancer/Candidates/Tests.antt =====
-- Runs of `candidates_ordered`, and its theorems at concrete inputs.
use xrouter.Common.{
  ℕ, ◌≡◌, refl, true, false, List, [], ◌∷◌, ◌++◌, some, Text, codes, arith, lookup, insert, text_eq,
  All, Perm,
}
use xrouter.Core.{ModelEntry, Tier, new_tier}
use xrouter.Core.Endpoint.{new}
use xrouter.Balancer.Health.{
  cooling, new_registry, from_secs, health_state, snapshot_from, is_provider_degraded,
}
use xrouter.Balancer.State.{Balancer, new_balancer}
use xrouter.Balancer.Candidates.{
  enumerate, group_of, preferred, split_groups, position, rotate_default, insert_desc, sort_desc,
  candidates_ordered,
}
use xrouter.Balancer.Candidates.Snapshot.{available_at}
use xrouter.Balancer.Candidates.Order.{
  candidates_ordered-perm, candidates_ordered-available_first, group_at,
}
use xrouter.Balancer.Candidates.Default.{candidates_ordered-default_first}

ops : Unit {0}
unfolding lookup insert text_eq new health_state snapshot_from is_provider_degraded enumerate
    group_of split_groups position rotate_default insert_desc sort_desc candidates_ordered
ops = tt

abbrev entry : Text → ℕ → ModelEntry
entry p w = record {
  provider = p;
  model = codes "m";
  is_default = false;
  weight = w;
  endpoint_id = p ++ codes ":m";
}

abbrev fast : Tier
fast =
    record (new_tier (codes "fast")
      (entry (codes "a") 1 ∷ entry (codes "b") 3 ∷ entry (codes "c") 3 ∷ [])) { default_entry = 2 }

-- The endpoint of `a` cools until second 9.
abbrev a_down : Balancer
a_down = record new_balancer {
  health = record new_registry {
    health =
        (
          codes "a:m",
          record {
            state = cooling (from_secs 9) 3;
            consecutive_failures = 3;
            last_failure = some 0;
          },
        )
        ∷ [];
  };
}

fast_order :
    (candidates_ordered a_down fast 5).0
    ≡ entry (codes "c") 3 ∷ entry (codes "b") 3 ∷ entry (codes "a") 1 ∷ []
unfolding ops
fast_order = refl

candidates_ordered-perm_example : Perm (candidates_ordered a_down fast 5).0 fast.entries
candidates_ordered-perm_example = candidates_ordered-perm a_down fast 5

candidates_ordered-available_first_example :
    (front back : List ModelEntry) × ((candidates_ordered a_down fast 5).0 ≡ front ++ back)
    × All (λ (e : ModelEntry). available_at a_down.health 5 e.endpoint_id ≡ true) front
    × All (λ (e : ModelEntry). available_at a_down.health 5 e.endpoint_id ≡ false) back
candidates_ordered-available_first_example = candidates_ordered-available_first a_down fast 5

default_preferred : group_at a_down fast 5 (entry (codes "c") 3) ≡ preferred
unfolding ops
default_preferred = refl

candidates_ordered-default_first_example :
    (rest : List ModelEntry) × ((candidates_ordered a_down fast 5).0 ≡ entry (codes "c") 3 ∷ rest)
candidates_ordered-default_first_example =
    candidates_ordered-default_first a_down fast 5 (entry (codes "c") 3) refl default_preferred
      (omega arith)
