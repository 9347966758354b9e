-- ===== src/Server/Requests.antt =====
-- crates/xrouter-server/src/translate.rs: the translation of whole requests. The children hold one
-- direction each. `print` is `Value::to_string`.
pub mod Anthropic
pub mod Openai
pub mod Responses
pub mod Roundtrip
mod Tests
use xrouter.Common.{Option, none, some, List, [], ◌∷◌, ◌++◌, Text, codes, option_or}
use xrouter.Json.{Value, string, object, end, obj, get, as_str, as_array, put}

-- `json!({})`
abbrev pub empty_object : Value
empty_object = object end

-- `if let Some(v) = body.get(key) { out[target] = v.clone(); }`
abbrev pub copy_field : Value → Text → Text → Value → Value
copy_field body key target out = elim (get body key) [ none ↦ out | some v ↦ put out target v ]

-- `v.get(key).and_then(|x| x.as_str()).unwrap_or(default)`
abbrev pub str_or : Value → Text → Text → Text
str_or v key default = option_or (as_str (get v key)) default

abbrev pub list_of : Option Value → List Value
list_of v = option_or (as_array v) []

abbrev pub text_part : Text → Value
text_part s = obj ((codes "type", string (codes "text")) ∷ (codes "text", string s) ∷ [])

abbrev pub role_message : Text → Value → Value
role_message role content = obj ((codes "role", string role) ∷ (codes "content", content) ∷ [])

-- `parts.join("\n")`
unfoldable pub join_lines : List Text → Text
join_lines [] = []
join_lines (s ∷ []) = s
join_lines (s ∷ t ∷ ts) = s ++ (10 ∷ join_lines (t ∷ ts))

abbrev pub object_schema : Value
object_schema = obj ((codes "type", string (codes "object")) ∷ [])
