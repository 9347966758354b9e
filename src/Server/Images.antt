-- ===== src/Server/Images.antt =====
-- crates/xrouter-server/src/translate.rs: the translation of images between the protocols, and
-- `is_streaming`.
pub mod Roundtrip
mod Tests
use xrouter.Common.{
  ℕ, Bool, true, false, ◌||◌, Option, none, some, List, [], ◌∷◌, ◌++◌, Text, codes, text_eq,
  if◌then◌else◌, option_or, ◌==◌, strip_prefix, split_once, starts_with,
}
use xrouter.Json.{Value, string, obj, get, as_str, as_bool}

-- `split(';').next()`: the text before the first ';', or all of it.
unfoldable pub before_semicolon : Text → Text
before_semicolon [] = []
before_semicolon (c ∷ s) = if c == b';' then [] else c ∷ before_semicolon s

abbrev pub image : Value → Value
image source = obj ((codes "type", string (codes "image")) ∷ (codes "source", source) ∷ [])

abbrev pub base64_source : Text → Text → Value
base64_source media_type body = obj (
    (codes "type", string (codes "base64"))
    ∷ (codes "media_type", string media_type)
    ∷ (codes "data", string body)
    ∷ [])

abbrev pub url_source : Text → Value
url_source url = obj ((codes "type", string (codes "url")) ∷ (codes "url", string url) ∷ [])

-- The parts of a `data:` URL before and after its ','.
abbrev pub parts_image : Option (Text × Text) → Option Value
parts_image none = none
parts_image (some (meta, body)) = some (
    image (
      base64_source (before_semicolon meta) (option_or (strip_prefix (codes "base64,") body) body)))

-- A `data:` URL, without that prefix.
unfoldable pub data_image : Text → Option Value
data_image rest = parts_image (split_once b',' rest)

unfoldable pub openai_image_url_to_anthropic : Text → Option Value
unfolding data_image
openai_image_url_to_anthropic url = elim (strip_prefix (codes "data:") url) [
  | some rest ↦ data_image rest
  | none ↦
      if starts_with (codes "http://") url || starts_with (codes "https://") url
      then some (image (url_source url))
      else none
]

abbrev pub data_url : Text → Text → Text
data_url media_type body = codes "data:" ++ (media_type ++ (codes ";base64," ++ body))

abbrev pub base64_url : Value → Option Text → Option Text
base64_url source none = none
base64_url source (some body) =
    some (data_url (option_or (as_str (get source (codes "media_type"))) (codes "image/png")) body)

abbrev pub source_url : Value → Option Text → Option Text
source_url source none = none
source_url source (some kind) =
    if text_eq kind (codes "base64")
    then base64_url source (as_str (get source (codes "data")))
    else if text_eq kind (codes "url")
    then as_str (get source (codes "url"))
    else none

unfoldable pub anthropic_image_to_openai_url : Value → Option Text
anthropic_image_to_openai_url block = elim (get block (codes "source")) [
  | none ↦ none
  | some source ↦ source_url source (as_str (get source (codes "type")))
]

-- `is_streaming`
unfoldable pub is_streaming : Value → Bool
is_streaming body = option_or (as_bool (get body (codes "stream"))) false
