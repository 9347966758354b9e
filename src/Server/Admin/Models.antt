-- ===== src/Server/Admin/Models.antt =====
-- crates/xrouter-server/src/lib.rs: `is_image_model` and `handle_admin_models`, on a query that was
-- read as `ModelsQuery`. The order of the providers is that of the configuration's list.
use xrouter.Common.{
  ℕ, Bool, false, not, ◌&&◌, ◌||◌, Option, none, some, List, [], ◌∷◌, ◌++◌, map, Text, codes,
  text_eq, lookup, contains, option_or, if◌then◌else◌,
}
use xrouter.Json.{Value, string, bool, obj, arr}
use xrouter.Core.Free.{is_free, to_lowercase}
use xrouter.Config.{Config, ProviderConfig}
use xrouter.Providers.{RawModel}
use xrouter.Providers.Cache as Cache
use xrouter.Providers.Cache.{ModelCache}
use xrouter.Server.Failover.{check_auth}
use xrouter.Server.Failover.Route.{error_fields}
use xrouter.Server.Admin.{Reply}

pub record ModelsQuery : Type 0 where
  pub provider : Option Text
  pub free : Option Bool
  pub type_ : Option Text

abbrev contains_any : Text → List Text → Bool
contains_any n [] = false
contains_any n (w ∷ ws) = contains w n || contains_any n ws

unfoldable pub is_image_model : Text → Bool
is_image_model id = contains_any (to_lowercase id) (
    codes "flux"
    ∷ codes "sdxl"
    ∷ codes "dall-e"
    ∷ codes "dall_e"
    ∷ codes "stable-diffusion"
    ∷ codes "stable_diffusion"
    ∷ codes "imagen"
    ∷ codes "ideogram"
    ∷ codes "image"
    ∷ [])

-- `q.type_.as_deref() == Some(name)`
abbrev wants : Option Text → Text → Bool
wants none name = false
wants (some t) name = text_eq t name

-- Whether no `continue` leaves the model out.
abbrev pub is_listed : ModelsQuery → RawModel → Bool
is_listed q m =
    not (option_or q.free false && not (is_free m.id))
    && (not (wants q.type_ (codes "images") && not (is_image_model m.id))
        && not (wants q.type_ (codes "text") && is_image_model m.id))

abbrev row : Text → RawModel → Value
row prov m = obj (
    (codes "provider", string prov)
    ∷ (codes "id", string m.id)
    ∷ (codes "free", bool (is_free m.id))
    ∷ (codes "image", bool (is_image_model m.id))
    ∷ [])

unfoldable pub rows : ModelsQuery → Text → List RawModel → List Value
rows q prov [] = []
rows q prov (m ∷ ms) =
    let rest = rows q prov ms in if is_listed q m then row prov m ∷ rest else rest

-- The cached models of a provider: none where it is unknown or has no key.
unfoldable pub provider_models : Config → ModelCache → ℕ → Text → List RawModel
provider_models cfg cache now prov = elim (lookup prov cfg.providers) [
  | none ↦ []
  | some pcfg ↦ elim pcfg.keys [ [] ↦ [] | k ∷ ks ↦ option_or (Cache.get cache prov now) [] ]
]

unfoldable pub all_rows : Config → ModelCache → ℕ → ModelsQuery → List Text → List Value
unfolding rows provider_models
all_rows cfg cache now q [] = []
all_rows cfg cache now q (p ∷ ps) =
    rows q p (provider_models cfg cache now p) ++ all_rows cfg cache now q ps

abbrev pub providers_to_query : Config → ModelsQuery → List Text
providers_to_query cfg q = elim q.provider [
  | some p ↦ p ∷ []
  | none ↦ map (λ (p : Text × ProviderConfig). p.0) cfg.providers
]

unfoldable pub handle_admin_models : Config → ModelCache → ℕ → Text → ModelsQuery → Reply
unfolding all_rows
handle_admin_models cfg cache now authorization q =
    if check_auth cfg authorization
    then record {
      status = 200;
      body = obj ((codes "data", arr (all_rows cfg cache now q (providers_to_query cfg q))) ∷ []);
    }
    else record {
      status = 401;
      body = error_fields false (codes "authentication_error") (codes "invalid token") [];
    }
