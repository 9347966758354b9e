-- ===== src/Server/Requests/Openai.antt =====
-- crates/xrouter-server/src/translate.rs: `anthropic_to_openai`.
use xrouter.Common.{
  Bool, true, false, Option, none, some, List, [], ◌∷◌, ◌++◌, map, Text, codes, text_eq, option_or,
  if◌then◌else◌,
}
use xrouter.Json.{Value, null, string, obj, arr, get, as_str, as_array, put}
use xrouter.Server.Images.{anthropic_image_to_openai_url}
use xrouter.Server.Requests.{
  empty_object, copy_field, str_or, list_of, text_part, role_message, join_lines, object_schema,
}

-- The texts of the parts that have one.
unfoldable field_texts : List Value → List Text
field_texts [] = []
field_texts (v ∷ vs) = elim (as_str (get v (codes "text"))) [
  | some t ↦ t ∷ field_texts vs
  | none ↦ field_texts vs
]

module _ (print : Value → Text) where
  unfoldable pub system_text : Value → Text
  unfolding field_texts join_lines
  system_text sys = elim (as_str (some sys)) [
    | some s ↦ s
    | none ↦ elim (as_array (some sys)) [ some vs ↦ join_lines (field_texts vs) | none ↦ print sys ]
  ]

  abbrev system_messages_of : Text → List Value
  system_messages_of [] = []
  system_messages_of (c ∷ s) = role_message (codes "system") (string (c ∷ s)) ∷ []

  -- An empty system prompt is left out.
  abbrev pub system_messages : Option Value → List Value
  system_messages none = []
  system_messages (some sys) = system_messages_of (system_text sys)

  -- What the loop over the blocks of a message collects: text and image parts, tool calls, and the
  -- messages of tool results.
  pub record Blocks : Type 0 where
    pub parts : List Value
    pub calls : List Value
    pub results : List Value

  abbrev tool_call : Value → Value
  tool_call block = obj (
      (codes "id", string (str_or block (codes "id") []))
      ∷ (codes "type", string (codes "function"))
      ∷ (
        codes "function",
        obj (
            (codes "name", string (str_or block (codes "name") []))
            ∷ (
              codes "arguments",
              string (print (option_or (get block (codes "input")) empty_object)),
            )
            ∷ []),
      )
      ∷ [])

  abbrev tool_result : Value → Value
  tool_result block = obj (
      (codes "role", string (codes "tool"))
      ∷ (codes "tool_call_id", string (str_or block (codes "tool_use_id") []))
      ∷ (codes "content", string (str_or block (codes "content") []))
      ∷ [])

  abbrev image_url_part : Text → Value
  image_url_part url = obj (
      (codes "type", string (codes "image_url"))
      ∷ (codes "image_url", obj ((codes "url", string url) ∷ []))
      ∷ [])

  -- One block, in front of what the later ones give.
  unfoldable pub add_block : Value → Blocks → Blocks
  add_block block bs =
      let kind = str_or block (codes "type") [] in
      if text_eq kind (codes "text")
      then elim (as_str (get block (codes "text"))) [
        | some t ↦ record bs { parts = text_part t ∷ bs.parts }
        | none ↦ bs
      ]
      else if text_eq kind (codes "image")
      then elim (anthropic_image_to_openai_url block) [
        | some url ↦ record bs { parts = image_url_part url ∷ bs.parts }
        | none ↦ bs
      ]
      else if text_eq kind (codes "tool_use")
      then record bs { calls = tool_call block ∷ bs.calls }
      else if text_eq kind (codes "tool_result")
      then record bs { results = tool_result block ∷ bs.results }
      else bs

  unfoldable pub collect : List Value → Blocks
  unfolding add_block
  collect [] = record { parts = []; calls = []; results = [] }
  collect (b ∷ bs) = add_block b (collect bs)

  -- One text part becomes a plain string.
  abbrev parts_content : List Value → Value
  parts_content [] = null
  parts_content (p ∷ []) =
      if text_eq (str_or p (codes "type") []) (codes "text")
      then option_or (get p (codes "text")) null
      else arr (p ∷ [])
  parts_content (p ∷ q ∷ ps) = arr (p ∷ q ∷ ps)

  abbrev put_calls : List Value → Value → Value
  put_calls [] msg = msg
  put_calls (c ∷ cs) msg = put msg (codes "tool_calls") (arr (c ∷ cs))

  abbrev is_nil : List Value → Bool
  is_nil [] = true
  is_nil (v ∷ vs) = false

  -- The results come first, then the message, unless it would be empty.
  unfoldable pub block_messages : Text → Blocks → List Value
  block_messages role bs =
      let msg = put_calls bs.calls (role_message role (parts_content bs.parts)) in
      if is_nil bs.parts
      then (if is_nil bs.calls then bs.results else bs.results ++ msg ∷ [])
      else bs.results ++ msg ∷ []

  unfoldable pub messages_of : Value → List Value
  unfolding collect block_messages
  messages_of m =
      let role = str_or m (codes "role") (codes "user") in
      elim (as_str (get m (codes "content"))) [
        | some s ↦ role_message role (string s) ∷ []
        | none ↦ elim (as_array (get m (codes "content"))) [
          | some blocks ↦ block_messages role (collect blocks)
          | none ↦ []
        ]
      ]

  unfoldable pub all_messages : List Value → List Value
  unfolding messages_of
  all_messages [] = []
  all_messages (m ∷ ms) = messages_of m ++ all_messages ms

  abbrev pub tool_of : Value → Value
  tool_of t = obj (
      (codes "type", string (codes "function"))
      ∷ (
        codes "function",
        obj (
            (codes "name", string (str_or t (codes "name") []))
            ∷ (codes "description", string (str_or t (codes "description") []))
            ∷ (codes "parameters", option_or (get t (codes "input_schema")) object_schema)
            ∷ []),
      )
      ∷ [])

  abbrev put_tools : Option (List Value) → Value → Value
  put_tools none out = out
  put_tools (some ts) out = put out (codes "tools") (arr (map tool_of ts))

  unfoldable pub anthropic_to_openai : Value → Text → Value
  unfolding system_text all_messages
  anthropic_to_openai body target_model =
      let messages =
        system_messages (get body (codes "system"))
        ++ all_messages (list_of (get body (codes "messages"))) in
      let out =
        obj ((codes "model", string target_model) ∷ (codes "messages", arr messages) ∷ []) in
      let out1 = copy_field body (codes "max_tokens") (codes "max_tokens") out in
      let out2 = copy_field body (codes "temperature") (codes "temperature") out1 in
      let out3 = copy_field body (codes "stop_sequences") (codes "stop") out2 in
      let out4 = copy_field body (codes "stream") (codes "stream") out3 in
      put_tools (as_array (get body (codes "tools"))) out4
