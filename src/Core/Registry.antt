-- ===== src/Core/Registry.antt =====
-- crates/xrouter-core/src/tier.rs: `TierRegistry`, the tiers by name.
pub mod Laws
mod Tests
use xrouter.Common.{
  ◌≡◌, refl, Bool, Option, none, some, List, [], ◌∷◌, ◌++◌, map, Text, text_eq, if◌then◌else◌,
}
use xrouter.Core.{Tier, RouterError, unknown_tier}

pub record TierRegistry : Type 0 where
  pub tiers : List Tier

-- `self.tiers.iter().find(|t| t.name == name)`
unfoldable pub find_tier : List Tier → Text → Option Tier
find_tier [] name = none
find_tier (t ∷ ts) name = if text_eq t.name name then some t else find_tier ts name

unfoldable pub get : TierRegistry → Text → Option Tier
get r name = find_tier r.tiers name

abbrev pub names : TierRegistry → List Text
names r = map (λ (t : Tier). t.name) r.tiers

pub data Resolved : Type 0 where
  ok : Tier → Resolved
  err : RouterError → Resolved

unfoldable pub resolve : TierRegistry → Text → Resolved
resolve r alias = elim (get r alias) [ some t ↦ ok t | none ↦ err (unknown_tier alias (names r)) ]

-- `tiers[pos] = tier` at the first tier of that name, or `push`.
unfoldable pub replace_tier : List Tier → Tier → List Tier
replace_tier [] tier = tier ∷ []
replace_tier (t ∷ ts) tier =
    if text_eq t.name tier.name then tier ∷ ts else t ∷ replace_tier ts tier

unfoldable pub add_or_replace : TierRegistry → Tier → TierRegistry
add_or_replace r tier = record r { tiers = replace_tier r.tiers tier }

-- The first tier of a name goes.
unfoldable pub remove_tier : List Tier → Text → List Tier
remove_tier [] name = []
remove_tier (t ∷ ts) name = if text_eq t.name name then ts else t ∷ remove_tier ts name

unfoldable pub remove : TierRegistry → Text → Option Tier × TierRegistry
remove r name = (find_tier r.tiers name, record r { tiers = remove_tier r.tiers name })
