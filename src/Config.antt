-- ===== src/Config.antt =====
-- crates/xrouter-config/src/lib.rs: the configuration in memory. Its reading and writing as TOML is
-- the file system's and serde's.
use xrouter.Common.{
  ℕ, Bool, true, Option, some, none, List, [], ◌∷◌, map, Text, codes, text_eq, if◌then◌else◌,
}
use xrouter.Core.{Tier, ModelEntry, Protocol, anthropic, openai_compat}
use xrouter.Core.Endpoint
use xrouter.Core.Registry.{TierRegistry}

pub record Settings : Type 0 where
  pub default_tier : Option Text
  pub api_token : Option Text

-- `accounts`, the accounts of a device login, has no part in what is modelled.
pub record ProviderConfig : Type 0 where
  pub kind : Text
  pub base_url : Text
  pub enabled : Bool
  pub keys : List Text
  pub quota_ban_secs : ℕ

unfoldable protocol : ProviderConfig → Protocol
protocol p = if text_eq p.kind (codes "anthropic") then anthropic else openai_compat

pub record Config : Type 0 where
  pub settings : Settings
  pub providers : List (Text × ProviderConfig)
  pub tiers : List Tier

abbrev pub finalize_entry : ModelEntry → ModelEntry
finalize_entry e = record e { endpoint_id = Endpoint.new e.provider e.model }

abbrev pub finalize_tier : Tier → Tier
finalize_tier t = record t { entries = map finalize_entry t.entries }

-- Every entry gets the id of its provider and model.
unfoldable pub finalize : Config → Config
finalize c = record c { tiers = map finalize_tier c.tiers }

abbrev tier_registry : Config → TierRegistry
tier_registry c = record { tiers = c.tiers }

-- A provider that is built in: enabled, without keys, and with the default ban of 300 seconds.
abbrev builtin_provider : Text → ProviderConfig
builtin_provider base_url = record {
  kind = codes "openai-compat";
  base_url = base_url;
  enabled = true;
  keys = [];
  quota_ban_secs = 300;
}

-- A tier that is built in, of one entry.
abbrev builtin_tier : Text → Text → Text → Tier
builtin_tier name provider model = record {
  name = name;
  strict = true;
  default_entry = 0;
  entries =
      record {
        provider = provider;
        model = model;
        is_default = true;
        weight = 1;
        endpoint_id = Endpoint.new provider model;
      }
      ∷ [];
}

unfoldable default_with_builtins : Config
unfolding finalize
default_with_builtins = finalize (record {
  settings = record { default_tier = some (codes "big-pickle"); api_token = none };
  providers =
      (codes "opencode-zen", builtin_provider (codes "https://opencode.ai/zen/v1"))
      ∷ (codes "openrouter", builtin_provider (codes "https://openrouter.ai/api/v1"))
      ∷ (codes "together-image", builtin_provider (codes "https://api.together.ai/v1"))
      ∷ [];
  tiers =
      builtin_tier (codes "big-pickle") (codes "opencode-zen") (codes "big-pickle")
      ∷ builtin_tier (codes "images") (codes "together-image")
          (codes "black-forest-labs/FLUX.1-schnell")
      ∷ [];
})
