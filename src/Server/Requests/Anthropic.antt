-- ===== src/Server/Requests/Anthropic.antt =====
-- crates/xrouter-server/src/translate.rs: `openai_to_anthropic`.
use xrouter.Common.{
  Option, none, some, List, [], ◌∷◌, ◌++◌, map, Text, codes, text_eq, option_or, if◌then◌else◌,
}
use xrouter.Json.{Value, number, string, obj, arr, get, get_in, as_str, as_array, put}
use xrouter.Server.Images.{openai_image_url_to_anthropic}
use xrouter.Server.Requests.{copy_field, str_or, list_of, text_part, join_lines, object_schema}

-- The text of one part of a system message.
abbrev part_text : Value → List Text
part_text part = elim (as_str (get part (codes "text"))) [
  | some t ↦ t ∷ []
  | none ↦ elim (as_str (some part)) [ some s ↦ s ∷ [] | none ↦ [] ]
]

unfoldable parts_texts : List Value → List Text
parts_texts [] = []
parts_texts (p ∷ ps) = part_text p ++ parts_texts ps

unfoldable pub system_texts : Option Value → List Text
unfolding parts_texts
system_texts none = []
system_texts (some content) = elim (as_str (some content)) [
  | some s ↦ s ∷ []
  | none ↦ parts_texts (list_of (some content))
]

-- An image URL that cannot be translated is kept.
abbrev image_part : Value → Value
image_part p = elim (as_str (get_in (get p (codes "image_url")) (codes "url"))) [
  | some url ↦ option_or (openai_image_url_to_anthropic url) p
  | none ↦ p
]

unfoldable pub content_part : Value → Value
content_part p = elim (as_str (get p (codes "text"))) [
  | some t ↦ text_part t
  | none ↦ elim (as_str (some p)) [
    | some s ↦ text_part s
    | none ↦ if text_eq (str_or p (codes "type") []) (codes "image_url") then image_part p else p
  ]
]

-- Only a list of parts is changed.
abbrev pub content_of : Value → Value
content_of v = elim (as_array (some v)) [ some ps ↦ arr (map content_part ps) | none ↦ v ]

unfoldable pub message_of : Text → Value → Value
unfolding content_part
message_of role m =
    let start = obj ((codes "role", string role) ∷ []) in
    copy_field m (codes "tool_calls") (codes "tool_calls") (elim (get m (codes "content")) [
      | none ↦ start
      | some content ↦ put start (codes "content") (content_of content)
    ])

-- The loop over the messages: the system texts and the others.
unfoldable pub split_messages : List Value → List Text × List Value
unfolding system_texts message_of
split_messages [] = ([], [])
split_messages (m ∷ ms) =
    let role = str_or m (codes "role") (codes "user") in
    let (systems, messages) = split_messages ms in
    if text_eq role (codes "system")
    then (system_texts (get m (codes "content")) ++ systems, messages)
    else (systems, message_of role m ∷ messages)

abbrev tool_of : Value → Value
tool_of f = obj (
    (codes "name", string (str_or f (codes "name") []))
    ∷ (codes "description", string (str_or f (codes "description") []))
    ∷ (codes "input_schema", option_or (get f (codes "parameters")) object_schema)
    ∷ [])

-- A tool without a `function` is dropped.
unfoldable pub tools_of : List Value → List Value
tools_of [] = []
tools_of (t ∷ ts) = elim (get t (codes "function")) [
  | some f ↦ tool_of f ∷ tools_of ts
  | none ↦ tools_of ts
]

abbrev put_system : List Text → Value → Value
put_system [] out = out
put_system (s ∷ ss) out = put out (codes "system") (string (join_lines (s ∷ ss)))

-- `max_tokens`, or `max_completion_tokens`, or 1024.
abbrev put_max_tokens : Value → Value → Value
put_max_tokens body out = put out (codes "max_tokens") (
    option_or (get body (codes "max_tokens"))
      (option_or (get body (codes "max_completion_tokens")) (number 1024)))

abbrev put_tools : Option (List Value) → Value → Value
put_tools none out = out
put_tools (some ts) out = put out (codes "tools") (arr (tools_of ts))

unfoldable pub openai_to_anthropic : Value → Text → Value
unfolding split_messages tools_of
openai_to_anthropic body target_model =
    let (systems, messages) = split_messages (list_of (get body (codes "messages"))) in
    let start = obj ((codes "model", string target_model) ∷ []) in
    let out1 = put (put_system systems start) (codes "messages") (arr messages) in
    let out2 = put_max_tokens body out1 in
    let out3 = copy_field body (codes "temperature") (codes "temperature") out2 in
    let out4 = copy_field body (codes "top_p") (codes "top_p") out3 in
    let out5 = copy_field body (codes "stop") (codes "stop_sequences") out4 in
    let out6 = copy_field body (codes "stream") (codes "stream") out5 in
    put_tools (as_array (get body (codes "tools"))) out6
