-- ===== src/Balancer/Candidates.antt =====
-- crates/xrouter-balancer/src/lib.rs: `Balancer::candidates_ordered`, the order in which the entries
-- of a tier are tried. `sort_by` of the standard library is stable, as an insertion sort is.
pub mod Splitting
pub mod Snapshot
pub mod Sorting
pub mod Order
pub mod Default
mod Tests
use xrouter.Common.{
  ℕ, zero, suc, ◌+◌, Bool, true, false, not, ◌&&◌, Option, none, some, List, [], ◌∷◌, ◌++◌, map,
  Text, lookup, take, drop, leb, ◌==◌, if◌then◌else◌, option_or,
}
use mathlib.Core.Option
use xrouter.Core.{EndpointId, ModelEntry, Tier}
use xrouter.Balancer.Health.{
  HealthRegistry, HealthState, healthy, is_available, snapshot_states, is_provider_degraded,
}
use xrouter.Balancer.State.{Balancer}

abbrev pub Indexed : Type 0
Indexed = ℕ × ModelEntry

pub data Group : Type 0 where
  preferred degraded unhealthy : Group

pub record Groups : Type 0 where
  pub healthy_entries : List Indexed
  pub degraded_entries : List Indexed
  pub unhealthy_entries : List Indexed

-- `entries.iter().enumerate()`
unfoldable pub enumerate : ℕ → List ModelEntry → List Indexed
enumerate i [] = []
enumerate i (e ∷ es) = (i, e) ∷ enumerate (i + 1) es

-- The tests of the loop on one entry: its snapshot state, and its provider if the tier is strict.
unfoldable pub group_of :
    HealthRegistry → List (EndpointId × HealthState) → Bool → ModelEntry → Group
group_of r states strict e =
    let up = is_available (option_or (lookup e.endpoint_id states) healthy) in
    let low = strict && is_provider_degraded r e.provider in
    if up && not low then preferred else if up && low then degraded else unhealthy

-- An entry is put in front of those that the loop pushes after it.
abbrev push_entry : Group → Indexed → Groups → Groups
push_entry preferred x g = record g { healthy_entries = x ∷ g.healthy_entries }
push_entry degraded x g = record g { degraded_entries = x ∷ g.degraded_entries }
push_entry unhealthy x g = record g { unhealthy_entries = x ∷ g.unhealthy_entries }

unfoldable pub split_groups : (ModelEntry → Group) → List Indexed → Groups
split_groups group [] = record {
  healthy_entries = [];
  degraded_entries = [];
  unhealthy_entries = [];
}
split_groups group ((i, e) ∷ xs) = push_entry (group e) (i, e) (split_groups group xs)

-- `iter().position(|(i, _)| *i == tier.default_entry)`
unfoldable pub position : ℕ → List Indexed → Option ℕ
position d [] = none
position d ((i, e) ∷ xs) = if i == d then some 0 else Option.map suc (position d xs)

-- `rotate_left(pos)` at the default entry, if it is in the group.
unfoldable pub rotate_default : ℕ → List Indexed → List Indexed
rotate_default d xs = elim (position d xs) [ none ↦ xs | some pos ↦ drop pos xs ++ take pos xs ]

abbrev pub weight_of : Indexed → ℕ
weight_of x = x.1.weight

unfoldable pub insert_desc : Indexed → List Indexed → List Indexed
insert_desc x [] = x ∷ []
insert_desc x (y ∷ ys) =
    if leb (weight_of y) (weight_of x) then x ∷ y ∷ ys else y ∷ insert_desc x ys

-- `sort_by(|a, b| b.1.weight.cmp(&a.1.weight))`
unfoldable pub sort_desc : List Indexed → List Indexed
sort_desc [] = []
sort_desc (x ∷ xs) = insert_desc x (sort_desc xs)

abbrev pub entries_of : List Indexed → List ModelEntry
entries_of = map (λ (x : Indexed). x.1)

abbrev pub ids_of : List ModelEntry → List EndpointId
ids_of = map (λ (e : ModelEntry). e.endpoint_id)

-- Each group in the order in which it is tried.
unfoldable pub arrange : ℕ → Groups → Groups
arrange d g = record {
  healthy_entries = sort_desc (rotate_default d g.healthy_entries);
  degraded_entries = sort_desc (rotate_default d g.degraded_entries);
  unhealthy_entries = g.unhealthy_entries;
}

-- The groups of a tier after the health of its endpoints was read once.
unfoldable pub arranged : HealthRegistry → List (EndpointId × HealthState) → Tier → Groups
unfolding arrange
arranged r states tier =
    arrange tier.default_entry
      (split_groups (group_of r states tier.strict) (enumerate 0 tier.entries))

unfoldable pub candidates_ordered : Balancer → Tier → ℕ → List ModelEntry × Balancer
unfolding arranged
candidates_ordered b tier now =
    let (states, r) = snapshot_states b.health (ids_of tier.entries) now in
    let g = arranged r states tier in
    (
      entries_of g.healthy_entries
          ++ (entries_of g.degraded_entries ++ entries_of g.unhealthy_entries),
      record b { health = r },
    )
