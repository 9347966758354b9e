-- ===== src/Server/Resolve/Tests.antt =====
-- Runs of the resolution, as in the tests of resolve.rs, and its theorems at concrete inputs.
use xrouter.Common.{
  ◌≡◌, refl, ◌↔◌, ◌⊎◌, true, false, none, some, List, [], ◌∷◌, codes, trim, text_eq, ends_with,
}
use xrouter.Core.{Tier, new_tier}
use xrouter.Core.Free.{is_free}
use xrouter.Core.Registry.{find_tier}
use xrouter.Config.{Config, ProviderConfig}
use xrouter.Providers.Cache.{ModelCache, get, get_or_stale, insert_models, get-insert_models}
use xrouter.Server.Resolve.{
  Candidate, ok, err, tier, direct, ambiguous, not_found, resolve_model, direct_entry,
  strip_free_suffix, is_empty, resolve_ops,
}
use xrouter.Server.Resolve.Laws.{IsUnmatched, IsOnlyMatch, IsChoice, IsAddress}
use xrouter.Server.Resolve.Sound.{
  resolve_model-tier_iff, resolve_model-direct, resolve_model-ambiguous, resolve_model-not_found,
}

abbrev provider_config : ProviderConfig
provider_config = record {
  kind = codes "openai-compat";
  base_url = codes "u";
  enabled = true;
  keys = [];
  quota_ban_secs = 300;
}

abbrev config : List Tier → Config
config tiers = record {
  settings = record { default_tier = none; api_token = none };
  providers = (codes "zen", provider_config) ∷ (codes "or", provider_config) ∷ [];
  tiers = tiers;
}

abbrev mimo_tier : Tier
mimo_tier = new_tier (codes "fast") (direct_entry (codes "zen") (codes "mimo") ∷ [])

abbrev mimo_twice : Config
mimo_twice =
    config
      (mimo_tier ∷ new_tier (codes "slow") (direct_entry (codes "or") (codes "mimo") ∷ []) ∷ [])

mimo_options : List Candidate
mimo_options = (codes "or", codes "mimo") ∷ (codes "zen", codes "mimo") ∷ []

tier_run : resolve_model mimo_twice (codes " fast ") none ≡ ok (tier mimo_tier)
unfolding resolve_ops
tier_run = refl

resolve_model-tier_iff_example :
    (resolve_model mimo_twice (codes " fast ") none ≡ ok (tier mimo_tier)) ↔ (
      (is_empty (trim (codes " fast ")) ≡ false)
      × (find_tier mimo_twice.tiers (trim (codes " fast ")) ≡ some mimo_tier))
resolve_model-tier_iff_example = resolve_model-tier_iff mimo_twice (codes " fast ") none mimo_tier

ambiguous_run : resolve_model mimo_twice (codes "mimo") none ≡ err (ambiguous mimo_options)
unfolding resolve_ops mimo_options
ambiguous_run = refl

resolve_model-ambiguous_example :
    (find_tier mimo_twice.tiers (trim (codes "mimo")) ≡ none)
    × (IsChoice mimo_twice none (trim (codes "mimo")) mimo_options
        ⊎ (IsUnmatched mimo_twice none (trim (codes "mimo"))
            × IsChoice mimo_twice none (strip_free_suffix (trim (codes "mimo"))) mimo_options))
resolve_model-ambiguous_example =
    resolve_model-ambiguous mimo_twice (codes "mimo") none mimo_options ambiguous_run

-- The marker is cut before the second search.
free_run :
    resolve_model (config (mimo_tier ∷ [])) (codes "mimo:free") none
    ≡ ok (direct (direct_entry (codes "zen") (codes "mimo")))
unfolding resolve_ops
free_run = refl

resolve_model-direct_example :
    (find_tier (mimo_tier ∷ []) (trim (codes "mimo:free")) ≡ none)
    × (IsAddress
          (config (mimo_tier ∷ []))
          none
          (trim (codes "mimo:free"))
          (direct_entry (codes "zen") (codes "mimo"))
        ⊎ (IsOnlyMatch
              (config (mimo_tier ∷ []))
              none
              (trim (codes "mimo:free"))
              (direct_entry (codes "zen") (codes "mimo"))
            ⊎ (IsUnmatched (config (mimo_tier ∷ [])) none (trim (codes "mimo:free"))
                × IsOnlyMatch
                    (config (mimo_tier ∷ []))
                    none
                    (strip_free_suffix (trim (codes "mimo:free")))
                    (direct_entry (codes "zen") (codes "mimo")))))
resolve_model-direct_example =
    resolve_model-direct (config (mimo_tier ∷ [])) (codes "mimo:free") none
      (direct_entry (codes "zen") (codes "mimo")) free_run

abbrev cache : ModelCache
cache =
    insert_models (record { models = [] }) (codes "or")
      (record { id = codes "co/ds"; name = none } ∷ []) 0

cache_run :
    resolve_model (config []) (codes "co/ds") (some cache)
    ≡ ok (direct (direct_entry (codes "or") (codes "co/ds")))
unfolding resolve_ops
cache_run = refl

missing_run : resolve_model (config []) (codes "nope") (some cache) ≡ err not_found
unfolding resolve_ops
missing_run = refl

resolve_model-not_found_example :
    (is_empty (trim (codes "nope")) ≡ true)
    ⊎ ((find_tier [] (trim (codes "nope")) ≡ none)
        × IsUnmatched (config []) (some cache) (trim (codes "nope"))
        × IsUnmatched (config []) (some cache) (strip_free_suffix (trim (codes "nope"))))
resolve_model-not_found_example =
    resolve_model-not_found (config []) (codes "nope") (some cache) missing_run

-- The marker that is left keeps the id free, and an id that is not free loses its middle.
still_free : is_free (strip_free_suffix (codes "a:free:free")) ≡ true
unfolding resolve_ops is_free ends_with
still_free = refl

freedom :
    (is_free (codes "a-freedom") ≡ false) × (strip_free_suffix (codes "a-freedom") ≡ codes "adom")
unfolding resolve_ops is_free ends_with
freedom = (refl, refl)

get-insert_models_example :
    (get cache (codes "or") 5 ≡ some (record { id = codes "co/ds"; name = none } ∷ []))
    × (get_or_stale cache (codes "or") ≡ some (record { id = codes "co/ds"; name = none } ∷ []))
unfolding text_eq
get-insert_models_example =
    get-insert_models (record { models = [] }) (codes "or") (codes "or")
      (record { id = codes "co/ds"; name = none } ∷ []) 0 5
