-- ===== src/Providers/Models/Tests.antt =====
-- Model lists as the providers send them.
use xrouter.Common.{◌≡◌, refl, none, some, [], ◌∷◌, codes, text_eq}
use xrouter.Json.{Value, string, number, obj, arr, find_field}
use xrouter.Providers.Models.{parse_kiro_models, parse_antigravity_models}

abbrev with_name : Value
with_name =
    obj ((codes "modelId", string (codes "a")) ∷ (codes "modelName", string (codes "A")) ∷ [])

abbrev without_id : Value
without_id = obj ((codes "name", string (codes "b")) ∷ [])

kiro_list :
    parse_kiro_models (obj ((codes "models", arr (with_name ∷ without_id ∷ [])) ∷ []))
    ≡ record { id = codes "a"; name = some (codes "A") } ∷ []
unfolding parse_kiro_models find_field text_eq
kiro_list = refl

antigravity_array :
    parse_antigravity_models (arr (with_name ∷ without_id ∷ number 1 ∷ []))
    ≡ record { id = codes "a"; name = none }
      ∷ record { id = codes "b"; name = some (codes "b") }
      ∷ []
unfolding parse_antigravity_models find_field text_eq
antigravity_array = refl
