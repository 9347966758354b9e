-- ===== src/Server/Requests/Responses.antt =====
-- crates/xrouter-server/src/translate.rs: `responses_to_chat`, `chat_to_responses`. lib.rs:
-- `translate_non_stream_response`, `chat_to_responses_bytes`. A number generator is behind the id of
-- a response, which is a parameter. `parse` is `serde_json::from_slice`, `print` is
-- `serde_json::to_vec`. Nothing in them panics.
use xrouter.Common.{
  ℕ, Bool, not, ◌&&◌, Option, none, some, List, [], ◌∷◌, ◌++◌, map, Text, codes, text_eq, option_or,
  if◌then◌else◌,
}
use xrouter.Json.{
  Value, number, string, array, obj, arr, get, get_in, as_str, as_u64, as_array, first, to_list,
  put,
}
use xrouter.Server.Requests.{empty_object, copy_field, str_or, text_part, role_message}
use xrouter.Server.Responses.{responses_object}

abbrev image_url_part : Text → Value
image_url_part url = obj (
    (codes "type", string (codes "image_url"))
    ∷ (codes "image_url", obj ((codes "url", string url) ∷ []))
    ∷ [])

abbrev text_parts : Option Text → List Value
text_parts none = []
text_parts (some t) = text_part t ∷ []

abbrev image_parts : Option Text → List Value
image_parts none = []
image_parts (some url) = image_url_part url ∷ []

-- A part without a type, or of another type, is taken as a text if it has one.
unfoldable pub input_part : Value → List Value
input_part p =
    if text_eq (str_or p (codes "type") []) (codes "input_image")
    then image_parts (as_str (get p (codes "image_url")))
    else text_parts (as_str (get p (codes "text")))

unfoldable pub input_parts : List Value → List Value
unfolding input_part
input_parts [] = []
input_parts (p ∷ ps) = input_part p ++ input_parts ps

abbrev content_parts : Option Value → List Value
content_parts content = elim (as_str content) [
  | some s ↦ text_part s ∷ []
  | none ↦ input_parts (option_or (as_array content) [])
]

-- One text part becomes a plain string, and no part the empty one.
abbrev parts_content : List Value → Value
parts_content [] = string []
parts_content (p ∷ []) =
    if text_eq (str_or p (codes "type") []) (codes "text")
    then string (str_or p (codes "text") [])
    else arr (p ∷ [])
parts_content (p ∷ q ∷ ps) = arr (p ∷ q ∷ ps)

unfoldable pub item_message : Value → Value
unfolding input_parts
item_message item =
    role_message (str_or item (codes "role") (codes "user"))
      (parts_content (content_parts (get item (codes "content"))))

abbrev input_messages : Option Value → List Value
input_messages (some (string s)) = role_message (codes "user") (string s) ∷ []
input_messages (some (array vs)) = map item_message (to_list vs)
input_messages v = []

-- Empty instructions are left out.
abbrev instruction_messages : Option Text → List Value
instruction_messages (some (c ∷ s)) = role_message (codes "system") (string (c ∷ s)) ∷ []
instruction_messages v = []

abbrev put_model : Option Text → Value → Value
put_model none out = out
put_model (some m) out = put out (codes "model") (string m)

unfoldable pub responses_to_chat : Value → Value
unfolding item_message
responses_to_chat body =
    let messages =
      instruction_messages (as_str (get body (codes "instructions")))
      ++ input_messages (get body (codes "input")) in
    let start = put_model (as_str (get body (codes "model"))) empty_object in
    let out1 = put start (codes "messages") (arr messages) in
    let out2 = copy_field body (codes "max_output_tokens") (codes "max_tokens") out1 in
    let out3 = copy_field body (codes "stream") (codes "stream") out2 in
    let out4 = copy_field body (codes "temperature") (codes "temperature") out3 in
    let out5 = copy_field body (codes "top_p") (codes "top_p") out4 in
    copy_field body (codes "tools") (codes "tools") out5

-- The tokens of a usage object, under the name of either API.
abbrev pub tokens : Value → Text → Text → ℕ
tokens usage name other =
    option_or (as_u64 (get usage name)) (option_or (as_u64 (get usage other)) 0)

abbrev pub tokens_in : Value → ℕ
tokens_in usage = tokens usage (codes "prompt_tokens") (codes "input_tokens")

abbrev pub tokens_out : Value → ℕ
tokens_out usage = tokens usage (codes "completion_tokens") (codes "output_tokens")

-- `choices[0].<part>.content`
abbrev pub choice_content : Value → Text → Option Text
choice_content v part =
    as_str (get_in (get_in (first (as_array (get v (codes "choices")))) part) (codes "content"))

unfoldable pub chat_to_responses : Text → Value → Value
chat_to_responses id v =
    let usage = option_or (get v (codes "usage")) empty_object in
    responses_object id (str_or v (codes "model") (codes "unknown"))
      (option_or (choice_content v (codes "message")) []) (tokens_in usage) (tokens_out usage)
      (codes "completed")

-- The answer of an Anthropic upstream for a client of the OpenAI API: its first text.
unfoldable pub message_to_chat : Value → Value
message_to_chat v =
    let answer =
      option_or (as_str (get_in (first (as_array (get v (codes "content")))) (codes "text"))) [] in
    let message =
      obj ((codes "role", string (codes "assistant")) ∷ (codes "content", string answer) ∷ []) in
    let choice = obj (
      (codes "index", number 0)
      ∷ (codes "message", message)
      ∷ (codes "finish_reason", string (codes "stop"))
      ∷ []) in
    obj (
      (codes "id", string (str_or v (codes "id") (codes "chatcmpl-translated")))
      ∷ (codes "object", string (codes "chat.completion"))
      ∷ (codes "created", number 0)
      ∷ (codes "model", string (str_or v (codes "model") (codes "unknown")))
      ∷ (codes "choices", arr (choice ∷ []))
      ∷ (codes "usage", option_or (get v (codes "usage")) empty_object)
      ∷ [])

-- The answer of an OpenAI upstream for a client of the Anthropic API: the text of its first choice.
unfoldable pub chat_to_message : Value → Value
chat_to_message v =
    let answer =
      option_or (choice_content v (codes "message"))
        (option_or (choice_content v (codes "delta")) []) in
    obj (
      (codes "id", string (str_or v (codes "id") (codes "msg_translated")))
      ∷ (codes "type", string (codes "message"))
      ∷ (codes "role", string (codes "assistant"))
      ∷ (codes "model", string (str_or v (codes "model") (codes "unknown")))
      ∷ (codes "content", arr (text_part answer ∷ []))
      ∷ (codes "stop_reason", string (codes "end_turn"))
      ∷ (codes "usage", option_or (get v (codes "usage")) empty_object)
      ∷ [])

module _ (parse : Text → Option Value) (print : Value → Text) where
  unfoldable pub translate_non_stream_response : Text → Bool → Bool → Text
  unfolding message_to_chat chat_to_message
  translate_non_stream_response body ingress_is_anthropic upstream_is_anthropic =
      let v = option_or (parse body) empty_object in
      if not ingress_is_anthropic && upstream_is_anthropic
      then print (message_to_chat v)
      else if ingress_is_anthropic && not upstream_is_anthropic
      then print (chat_to_message v)
      else body

  unfoldable pub chat_to_responses_bytes : Text → Text → Text
  unfolding chat_to_responses
  chat_to_responses_bytes id body =
      print (chat_to_responses id (option_or (parse body) empty_object))
