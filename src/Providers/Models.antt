-- ===== src/Providers/Models.antt =====
-- crates/xrouter-providers/src/lib.rs: the reading of the model lists that the device providers send.
mod Tests
use xrouter.Common.{Option, none, some, List, [], ◌∷◌, ◌++◌, Text, codes, option_or, map}
use xrouter.Json.{Value, get, get_in, as_str, as_array}
use xrouter.Providers.{RawModel}

-- The models that a reader finds in a list of items, in its order.
unfoldable pub filter_models : (Value → Option RawModel) → List Value → List RawModel
filter_models read [] = []
filter_models read (item ∷ items) =
    let rest = filter_models read items in elim (read item) [ none ↦ rest | some m ↦ m ∷ rest ]

abbrev pub or_else : Option Text → Option Text → Option Text
or_else none b = b
or_else (some a) b = some a

abbrev named : Option Text → Option Text → Option RawModel
named none name = none
named (some id) name = some (record { id = id; name = name })

abbrev pub kiro_model : Value → Option RawModel
kiro_model item =
    named (as_str (get item (codes "modelId"))) (as_str (get item (codes "modelName")))

unfoldable pub parse_kiro_models : Value → List RawModel
unfolding filter_models
parse_kiro_models v = filter_models kiro_model (option_or (as_array (get v (codes "models"))) [])

abbrev pub antigravity_model : Value → Option RawModel
antigravity_model item =
    named
      (or_else (as_str (get item (codes "modelId")))
        (or_else (as_str (get item (codes "id"))) (as_str (get item (codes "name")))))
      (as_str (get item (codes "name")))

-- The items of `models`, of `availableModels`, and of the answer itself where it is an array.
abbrev pub antigravity_items : Value → List Value
antigravity_items v =
    option_or (as_array (get v (codes "models"))) []
    ++ (option_or (as_array (get v (codes "availableModels"))) []
        ++ option_or (as_array (some v)) [])

unfoldable pub parse_antigravity_models : Value → List RawModel
unfolding filter_models
parse_antigravity_models v = filter_models antigravity_model (antigravity_items v)
