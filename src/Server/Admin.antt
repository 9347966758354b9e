-- ===== src/Server/Admin.antt =====
-- crates/xrouter-server/src/lib.rs: `handle_admin_create_tier`, on a body that was read as
-- `TierCreateInput`. Writing the configuration file is a parameter.
pub mod Tiers
pub mod Models
pub mod Listing
mod Tests
use xrouter.Common.{
  ℕ, max, Bool, true, false, ◌||◌, ◌&&◌, Option, none, some, List, [], ◌∷◌, ◌++◌, Text, codes,
  text_eq, all, leb, ◌==◌, if◌then◌else◌,
}
use xrouter.Json.{Value, string, obj}
use xrouter.Core.{ModelEntry, Tier, new_tier}
use xrouter.Core.Endpoint
use xrouter.Core.Registry.{replace_tier}
use xrouter.Config.{Config, finalize}
use xrouter.Server.Failover.{check_auth}
use xrouter.Server.Failover.Route.{error_fields}

pub record TierEntryInput : Type 0 where
  pub provider : Text
  pub model : Text
  pub weight : ℕ

pub record TierCreateInput : Type 0 where
  pub name : Text
  pub entries : List TierEntryInput

pub record Reply : Type 0 where
  pub status : ℕ
  pub body : Value

abbrev within : ℕ → ℕ → ℕ → Bool
within low high c = leb low c && leb c high

abbrev is_ascii_alphanumeric : ℕ → Bool
is_ascii_alphanumeric c = within b'0' b'9' c || (within b'A' b'Z' c || within b'a' b'z' c)

unfoldable pub is_valid_tier_name : Text → Bool
is_valid_tier_name [] = false
is_valid_tier_name (c ∷ cs) =
    all (λ (d : ℕ). is_ascii_alphanumeric d || (d == b'_' || d == b'-')) (c ∷ cs)

-- `seen.contains(key)`
unfoldable pub is_seen : Text → List Text → Bool
is_seen key [] = false
is_seen key (k ∷ ks) = text_eq k key || is_seen key ks

-- `format!("{}:{}", e.provider, e.model)`
abbrev pub input_key : TierEntryInput → Text
input_key e = e.provider ++ (codes ":" ++ e.model)

abbrev pub entry_of : Bool → TierEntryInput → ModelEntry
entry_of is_default e = record {
  provider = e.provider;
  model = e.model;
  is_default = is_default;
  weight = max e.weight 1;
  endpoint_id = Endpoint.new e.provider e.model;
}

-- What the loop pushes, while no entry was pushed (`true`) or after the first one.
unfoldable pub push_entries : Bool → List Text → List TierEntryInput → List ModelEntry
unfolding is_seen
push_entries is_empty seen [] = []
push_entries is_empty seen (e ∷ es) = elim (is_seen (input_key e) seen) [
  | true ↦ push_entries is_empty seen es
  | false ↦ entry_of is_empty e ∷ push_entries false (input_key e ∷ seen) es
]

abbrev pub model_entries : List TierEntryInput → List ModelEntry
model_entries es = push_entries true [] es

-- `cfg.tiers[pos] = tier` or `push`, then `finalize`.
unfoldable pub with_tier : Config → Tier → Config
with_tier cfg tier = finalize (record cfg { tiers = replace_tier cfg.tiers tier })

abbrev error_reply : ℕ → Text → Reply
error_reply status msg = record { status = status; body = obj ((codes "error", string msg) ∷ []) }

-- `save` gives the error of a configuration that could not be written. Answers the reply, and the
-- configuration that is live after it.
unfoldable pub handle_admin_create_tier :
    (Config → Option Text) → Config → Text → TierCreateInput → Reply × Config
unfolding with_tier is_valid_tier_name push_entries
handle_admin_create_tier save cfg authorization body =
    if check_auth cfg authorization
    then if is_valid_tier_name body.name
      then elim body.entries [
        | [] ↦ (error_reply 400 (codes "tier must have at least one entry"), cfg)
        | e ∷ es ↦
            let cfg' = with_tier cfg (new_tier body.name (model_entries (e ∷ es))) in
            elim (save cfg') [
              | some msg ↦ (error_reply 500 msg, cfg)
              | none ↦ (
                record {
                  status = 200;
                  body = obj (
                      (codes "status", string (codes "created"))
                      ∷ (codes "tier", string body.name)
                      ∷ []);
                },
                cfg',
              )
            ]
      ]
      else (error_reply 400 (codes "invalid tier name; use [A-Za-z0-9_-]+"), cfg)
    else (
      record {
        status = 401;
        body = error_fields false (codes "authentication_error") (codes "invalid token") [];
      },
      cfg,
    )
