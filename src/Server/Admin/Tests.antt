-- ===== src/Server/Admin/Tests.antt =====
-- Tiers created by requests.
use xrouter.Common.{
  Text, List, some, ℕ, ◌≡◌, refl, true, false, none, [], ◌∷◌, codes, text_eq, if◌then◌else◌,
  find_text, strip_prefix,
}
use xrouter.Core.{new_tier}
use xrouter.Core.Endpoint
use xrouter.Core.Free.{to_lowercase}
use xrouter.Config.{Config}
use xrouter.Server.Failover.{check_auth}
use xrouter.Server.Admin.{
  TierEntryInput, TierCreateInput, handle_admin_create_tier, entry_of, input_key, model_entries,
  push_entries, is_valid_tier_name, is_seen,
}
use xrouter.Server.Admin.Tiers.{
  model_entries-first, handle_admin_create_tier-IsAnswered, IsAnswered, with_id, first_entry,
}
use xrouter.Server.Admin.Models.{all_rows, is_image_model}
use xrouter.Server.Admin.Listing.{kept, image_row, text_row, all_rows-types, typed}
use xrouter.Providers.Cache.{ModelCache}

abbrev input : ℕ → TierEntryInput
input weight = record { provider = codes "p"; model = codes "m"; weight = weight }

abbrev other : TierEntryInput
other = record { provider = codes "q"; model = codes "m"; weight = 0 }

abbrev config : Config
config = record {
  settings = record { default_tier = none; api_token = none };
  providers = [];
  tiers = new_tier (codes "fast") [] ∷ [];
}

abbrev body : TierCreateInput
body = record { name = codes "my-tier_1"; entries = input 3 ∷ other ∷ input 5 ∷ [] }

body_valid : is_valid_tier_name body.name ≡ true
unfolding is_valid_tier_name
body_valid = refl

space_invalid : is_valid_tier_name (codes "a b") ≡ false
unfolding is_valid_tier_name
space_invalid = refl

body_entries : model_entries body.entries ≡ entry_of true (input 3) ∷ entry_of false other ∷ []
unfolding push_entries is_seen Endpoint.new text_eq
body_entries = refl

body_created : (handle_admin_create_tier (λ c. none) config (codes "") body).0.status ≡ 200
unfolding handle_admin_create_tier check_auth is_valid_tier_name
body_created = refl

model_entries-first_example :
    with_id (codes "q:m") (model_entries (input 3 ∷ other ∷ input 5 ∷ [])) ≡ (
      if text_eq (input_key (input 3)) (codes "q:m")
      then entry_of true (input 3) ∷ []
      else first_entry (codes "q:m") (other ∷ input 5 ∷ []))
model_entries-first_example = model_entries-first (input 3) (other ∷ input 5 ∷ []) (codes "q:m")

handle_admin_create_tier-IsAnswered_example :
    IsAnswered (λ c. none) config (codes "") body (codes "fast")
handle_admin_create_tier-IsAnswered_example =
    handle_admin_create_tier-IsAnswered (λ c. none) config (codes "") body (codes "fast")

abbrev keyed_config : Config
keyed_config = record config {
  providers =
      (
        codes "p",
        record {
          kind = codes "openai-compat";
          base_url = [];
          enabled = true;
          keys = codes "k" ∷ [];
          quota_ban_secs = 300;
        },
      )
      ∷ [];
}

abbrev cache : ModelCache
cache = record {
  models =
      (
        codes "p",
        (
          record { id = codes "FLUX.1"; name = none }
              ∷ record { id = codes "glm-4"; name = none }
              ∷ [],
          0,
        ),
      )
      ∷ [];
}

flux_image : is_image_model (codes "FLUX.1") ≡ true
unfolding is_image_model find_text strip_prefix to_lowercase
flux_image = refl

glm_text : is_image_model (codes "glm-4") ≡ false
unfolding is_image_model find_text strip_prefix to_lowercase
glm_text = refl

all_rows-types_example :
    let ps : List Text = codes "p" ∷ [] in
    (all_rows keyed_config cache 5 (typed none none (some (codes "images"))) ps
      ≡ kept image_row (all_rows keyed_config cache 5 (typed none none none) ps))
    × (all_rows keyed_config cache 5 (typed none none (some (codes "text"))) ps
        ≡ kept text_row (all_rows keyed_config cache 5 (typed none none none) ps))
all_rows-types_example = all_rows-types keyed_config cache 5 none none (codes "p" ∷ [])
