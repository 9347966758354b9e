-- ===== src/Balancer/Weighted.antt =====
-- crates/xrouter-balancer/src/lib.rs: `Balancer::pick_weighted`, the smooth weighted round robin. The
-- weights stay far from the ends of `i64`; `total` is a `u32` and wraps.
pub mod Conserved
mod Tests
use xrouter.Common.{
  ℕ, suc, ◌+◌, ◌%◌, Bool, true, Option, none, some, List, [], ◌∷◌, Text, lookup, insert, length,
  get_elem?, all, ltb, ◌==◌, if◌then◌else◌, option_or,
}
use xrouter.Core.{EndpointId, ModelEntry, Tier}
use xrouter.Balancer.Health.{u32_mod}
use xrouter.Balancer.State.{Balancer, Weight, WrrState}
use xrouter.Balancer.Candidates.{candidates_ordered}

abbrev pub Weights : Type 0
Weights = List (EndpointId × Weight)

abbrev pub zero_weight : Weight
zero_weight = record { credit = 0; debit = 0 }

-- `candidates.iter().map(|c| c.weight).sum()`, before it wraps.
unfoldable pub sum_weights : List ModelEntry → ℕ
sum_weights [] = 0
sum_weights (e ∷ es) = e.weight + sum_weights es

-- `*entry(id).or_insert(0) += weight`
abbrev pub raised : ModelEntry → Weights → Weight
raised e m =
    let cur = option_or (lookup e.endpoint_id m) zero_weight in
    record cur { credit = cur.credit + e.weight }

-- `cur > best_val`, where none is `i64::MIN`.
abbrev pub exceeds : Weight → Option Weight → Bool
exceeds cur none = true
exceeds cur (some b) = ltb (b.credit + cur.debit) (cur.credit + b.debit)

-- The loop from index `i`: every candidate is raised, the first of the highest ones is the best.
unfoldable pub select : ℕ → List ModelEntry → Weights → ℕ → Option Weight → ℕ × Weights
select i [] m best best_val = (best, m)
select i (e ∷ es) m best best_val =
    let cur = raised e m in
    let m' = insert e.endpoint_id cur m in
    select (suc i) es m' (if exceeds cur best_val then i else best)
      (if exceeds cur best_val then some cur else best_val)

-- `*cur -= total`
unfoldable pub charge : EndpointId → ℕ → Weights → Weights
charge id total m = elim (lookup id m) [
  | none ↦ m
  | some cur ↦ insert id (record cur { debit = cur.debit + total }) m
]

-- A state for another number of candidates starts again.
unfoldable pub wrr_weights : Option WrrState → ℕ → Weights
wrr_weights none n = []
wrr_weights (some s) n = if s.len == n then s.weights else []

-- An index out of range would panic.
unfoldable pub pick_from : Balancer → Text → List ModelEntry → Option ModelEntry × Balancer
unfolding sum_weights select charge wrr_weights
pick_from b key candidates =
    let start = wrr_weights (lookup key b.wrr) (length candidates) in
    let (best, m) = select 0 candidates start 0 none in
    elim (get_elem? candidates best) [
      | none ↦ (none, b)
      | some e ↦
          let weights = charge e.endpoint_id (sum_weights candidates % u32_mod) m in
          let state : WrrState = record { len = length candidates; weights = weights } in
          (some e, record b { wrr = insert key state b.wrr })
    ]

unfoldable pub pick_ordered : Balancer → Text → List ModelEntry → Option ModelEntry × Balancer
unfolding pick_from
pick_ordered b key [] = (none, b)
pick_ordered b key (e ∷ es) =
    if all (λ (c : ModelEntry). c.weight == 1) (e ∷ es)
    then (some e, b)
    else pick_from b key (e ∷ es)

unfoldable pub pick_weighted : Balancer → Tier → ℕ → Option ModelEntry × Balancer
unfolding pick_ordered
pick_weighted b tier now =
    let (candidates, b') = candidates_ordered b tier now in pick_ordered b' tier.name candidates
