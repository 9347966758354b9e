-- ===== src/Core/Registry/Tests.antt =====
-- Runs of the tier registry, and its theorems at concrete inputs.
use xrouter.Common.{◌≡◌, refl, [], ◌∷◌, codes, text_eq}
use xrouter.Core.{Tier, new_tier, unknown_tier}
use xrouter.Core.Registry.{TierRegistry, find_tier, get, resolve, err, ok}

abbrev fast : Tier
fast = new_tier (codes "fast") []

abbrev one_tier : TierRegistry
one_tier = record { tiers = fast ∷ [] }

resolve_runs :
    (resolve one_tier (codes "fast") ≡ ok fast)
    × (resolve one_tier (codes "Fast") ≡ err (unknown_tier (codes "Fast") (codes "fast" ∷ [])))
unfolding resolve get find_tier text_eq
resolve_runs = (refl, refl)
