-- ===== src/Core.antt =====
-- crates/xrouter-core/src/lib.rs and tier.rs: the identifiers, model entries and tiers that every
-- other part shares. `ProviderId`, `ApiKey` and `EndpointId` are newtypes of `String`, here `Text`.
pub mod Endpoint
pub mod Registry
pub mod Free
pub mod Bodies
use xrouter.Common.{
  ℕ, ◌-◌, Bool, true, false, List, ◌++◌, Text, codes, length, leb, drop, if◌then◌else◌, Option,
}

abbrev pub ApiKey : Type 0
ApiKey = Text

abbrev pub EndpointId : Type 0
EndpointId = Text

-- `ApiKey::masked`, at texts of one byte for each character.
masked : ApiKey → Text
masked k = if leb (length k) 4 then codes "****" else codes "sk-…" ++ drop (length k - 4) k

pub data Protocol : Type 0 where
  openai_compat anthropic : Protocol

pub data RouterError : Type 0 where
  unknown_tier : Text → List Text → RouterError
  tier_exhausted : Text → RouterError
  no_valid_keys : RouterError
  upstream_error : ℕ → Text → RouterError
  timeout : RouterError
  config : Text → RouterError

pub record ModelEntry : Type 0 where
  pub provider : Text
  pub model : Text
  pub is_default : Bool
  pub weight : ℕ
  pub endpoint_id : EndpointId

pub record Tier : Type 0 where
  pub name : Text
  pub strict : Bool
  pub default_entry : ℕ
  pub entries : List ModelEntry

-- `Tier::new`
abbrev pub new_tier : Text → List ModelEntry → Tier
new_tier name entries = record { name = name; strict = true; default_entry = 0; entries = entries }
