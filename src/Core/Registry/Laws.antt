-- ===== src/Core/Registry/Laws.antt =====
-- Laws of `TierRegistry`: what `resolve` answers after a tier was added, replaced or removed.
use xrouter.Common.{
  ◌≡◌, refl, none, some, List, [], ◌∷◌, Text, text_eq, text_eq_iff, if◌then◌else◌, arith,
}
use xrouter.Core.{Tier}
use xrouter.Core.Registry.{TierRegistry, find_tier, get, replace_tier, add_or_replace, remove_tier}

pub find_tier-replace_tier :
    (ts : List Tier) (tier : Tier) (name : Text)
    → find_tier (replace_tier ts tier) name
      ≡ (if text_eq tier.name name then some tier else find_tier ts name)
unfolding find_tier replace_tier
find_tier-replace_tier [] tier name = refl
find_tier-replace_tier (t ∷ ts) tier name = ground (
  arith,
  text_eq_iff t.name tier.name,
  text_eq_iff t.name name,
  text_eq_iff tier.name name,
  find_tier-replace_tier ts tier name,
)

-- After `add_or_replace` the tier's name resolves to the tier, and any other name as before.
pub get-add_or_replace :
    (r : TierRegistry) (tier : Tier) (name : Text)
    → get (add_or_replace r tier) name ≡ (if text_eq tier.name name then some tier else get r name)
unfolding get add_or_replace
get-add_or_replace r tier name = find_tier-replace_tier r.tiers tier name

-- No two tiers of a list share a name.
abbrev pub HasDistinctNames : List Tier → Type 0
HasDistinctNames [] = Unit
HasDistinctNames (t ∷ ts) = (find_tier ts t.name ≡ none) × HasDistinctNames ts

replace_tier-HasDistinctNames :
    (ts : List Tier) (tier : Tier) → HasDistinctNames ts → HasDistinctNames (replace_tier ts tier)
unfolding find_tier replace_tier
replace_tier-HasDistinctNames [] tier h = (refl, tt)
replace_tier-HasDistinctNames (t ∷ ts) tier h = ground (
  arith,
  text_eq_iff t.name tier.name,
  text_eq_iff tier.name t.name,
  find_tier-replace_tier ts tier t.name,
  replace_tier-HasDistinctNames ts tier h.1,
)

find_tier-remove_tier :
    (ts : List Tier) (name j : Text)
    → HasDistinctNames ts
    → find_tier (remove_tier ts name) j ≡ (if text_eq name j then none else find_tier ts j)
unfolding find_tier remove_tier
find_tier-remove_tier [] name j h = ground arith
find_tier-remove_tier (t ∷ ts) name j h = ground (
  arith,
  text_eq_iff t.name name,
  text_eq_iff t.name j,
  text_eq_iff name j,
  find_tier-remove_tier ts name j h.1,
)
