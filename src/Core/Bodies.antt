-- ===== src/Core/Bodies.antt =====
-- crates/xrouter-core/src/lib.rs: the JSON bodies of the router's errors.
use xrouter.Common.{List, [], ◌∷◌, ◌++◌, map, Text, codes}
use xrouter.Json.{Value, string, obj, arr}

abbrev pub tier_exhausted_body : Text → Value
tier_exhausted_body tier = obj (
    (
      codes "error",
      obj (
          (codes "type", string (codes "tier_exhausted"))
          ∷ (codes "tier", string tier)
          ∷ (
            codes "message",
            string (codes "all models/providers for tier '" ++ (tier ++ codes "' failed")),
          )
          ∷ []),
    )
    ∷ [])

abbrev unknown_tier_body : Text → List Text → Value
unknown_tier_body tier available = obj (
    (
      codes "error",
      obj (
          (codes "type", string (codes "unknown_tier"))
          ∷ (codes "tier", string tier)
          ∷ (codes "available", arr (map string available))
          ∷ (codes "message", string (codes "unknown tier '" ++ (tier ++ codes "'")))
          ∷ []),
    )
    ∷ [])
