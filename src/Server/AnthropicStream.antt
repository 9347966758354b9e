-- ===== src/Server/AnthropicStream.antt =====
-- crates/xrouter-server/src/translate.rs: `AnthToOaStreamState` and
-- `translate_sse_anthropic_to_openai_chunk_st`, one event of an Anthropic stream to at most one chunk
-- of an OpenAI one. `parse` is `serde_json::from_str`, `none` where it fails.
pub mod Once
pub mod Tools
pub mod Arguments
mod Tests
use xrouter.Common.{
  ℕ, ◌+◌, Bool, true, false, Option, none, some, List, [], ◌∷◌, ◌++◌, Text, codes, text_eq,
  if◌then◌else◌, option_or, ◌==◌,
}
use xrouter.Json.{Value, null, number, string, obj, arr, get, get_in, as_str, as_u64}
use xrouter.Server.Sse.{Frame, payload, done}

pub record AnthToOaStreamState : Type 0 where
  pub tool_blocks : List (ℕ × (ℕ × Text × Text))
  pub next_tool_index : ℕ
  pub finished : Bool

-- `AnthToOaStreamState::default()`
abbrev pub new_state : AnthToOaStreamState
new_state = record { tool_blocks = []; next_tool_index = 0; finished = false }

unfoldable pub find_tool : ℕ → List (ℕ × (ℕ × Text × Text)) → Option (ℕ × Text × Text)
find_tool i [] = none
find_tool i ((j, t) ∷ ts) = if j == i then some t else find_tool i ts

unfoldable pub set_tool :
    ℕ → ℕ × Text × Text → List (ℕ × (ℕ × Text × Text)) → List (ℕ × (ℕ × Text × Text))
set_tool i t [] = (i, t) ∷ []
set_tool i t ((j, u) ∷ ts) = if j == i then (i, t) ∷ ts else (j, u) ∷ set_tool i t ts

-- A chunk object with one choice, and its fields before and after `choices`.
abbrev pub chunk_object : List (Text × Value) → Value → Value → List (Text × Value) → Value
chunk_object before delta finish after = obj (
    before
    ++ ((
      codes "choices",
      arr (
          obj (
            (codes "index", number 0)
            ∷ (codes "delta", delta)
            ∷ (codes "finish_reason", finish)
            ∷ [])
          ∷ []),
    )
        ∷ after))

abbrev pub chunk_head : Text → List (Text × Value)
chunk_head id =
    (codes "id", string id) ∷ (codes "object", string (codes "chat.completion.chunk")) ∷ []

abbrev pub translated : Value → Value
translated delta = chunk_object (chunk_head (codes "chatcmpl-translated")) delta null []

abbrev pub message_started : Value → Frame
message_started v =
    let message = get v (codes "message") in
    payload (
      chunk_object
        (chunk_head (option_or (as_str (get_in message (codes "id"))) (codes "chatcmpl-translated"))
          ++ ((codes "model", string (option_or (as_str (get_in message (codes "model"))) []))
              ∷ []))
        (obj (
          (
            codes "role",
            string (option_or (as_str (get_in message (codes "role"))) (codes "assistant")),
          )
          ∷ []))
        null [])

abbrev pub tool_call : ℕ → List (Text × Value) → Value
tool_call i fields =
    translated
      (obj ((codes "tool_calls", arr (obj ((codes "index", number i) ∷ fields) ∷ [])) ∷ []))

-- A tool block takes the next index of a tool call.
unfoldable pub block_started : Value → AnthToOaStreamState → Option Frame × AnthToOaStreamState
unfolding set_tool
block_started v st =
    let block = get v (codes "content_block") in
    let index = option_or (as_u64 (get v (codes "index"))) 0 in
    let id = option_or (as_str (get_in block (codes "id"))) [] in
    let name = option_or (as_str (get_in block (codes "name"))) [] in
    if text_eq (option_or (as_str (get_in block (codes "type"))) []) (codes "tool_use")
    then (
      some (
          payload (
            tool_call st.next_tool_index (
              (codes "id", string id)
              ∷ (codes "type", string (codes "function"))
              ∷ (
                codes "function",
                obj ((codes "name", string name) ∷ (codes "arguments", string []) ∷ []),
              )
              ∷ []))),
      record st {
        next_tool_index = st.next_tool_index + 1;
        tool_blocks = set_tool index (st.next_tool_index, id, name) st.tool_blocks;
      },
    )
    else (none, st)

-- The arguments of a tool whose block was not started are dropped.
abbrev pub arguments_delta : Option (ℕ × Text × Text) → Text → Option Frame
arguments_delta none args = none
arguments_delta (some (i, id, name)) args =
    some
      (payload (tool_call i ((codes "function", obj ((codes "arguments", string args) ∷ [])) ∷ [])))

unfoldable pub block_delta : Value → AnthToOaStreamState → Option Frame
unfolding find_tool
block_delta v st =
    let delta = get v (codes "delta") in
    let index = option_or (as_u64 (get v (codes "index"))) 0 in
    elim (as_str (get_in delta (codes "text"))) [
      | some s ↦ some (payload (translated (obj ((codes "content", string s) ∷ []))))
      | none ↦ elim (as_str (get_in delta (codes "partial_json"))) [
        | some args ↦ arguments_delta (find_tool index st.tool_blocks) args
        | none ↦ none
      ]
    ]

abbrev pub finish_reason : Text → Text
finish_reason stop =
    if text_eq stop (codes "tool_use")
    then codes "tool_calls"
    else if text_eq stop (codes "max_tokens")
    then codes "length"
    else codes "stop"

abbrev pub message_delta : Value → Frame
message_delta v =
    let stop =
      option_or (as_str (get_in (get v (codes "delta")) (codes "stop_reason"))) (codes "stop") in
    payload (
      chunk_object (chunk_head (codes "chatcmpl-translated")) (obj []) (string (finish_reason stop))
        ((codes "usage", option_or (get v (codes "usage")) (obj [])) ∷ []))

unfoldable pub value_event : Text → Value → AnthToOaStreamState → Option Frame × AnthToOaStreamState
unfolding block_started block_delta
value_event name v st =
    if text_eq name (codes "message_start")
    then (some (message_started v), st)
    else if text_eq name (codes "content_block_start")
    then block_started v st
    else if text_eq name (codes "content_block_delta")
    then (block_delta v st, st)
    else if text_eq name (codes "message_delta")
    then (some (message_delta v), st)
    else (none, st)

-- The end is sent once; it alone does not read the data.
unfoldable pub translate :
    (Text → Option Value) → Text → Text → AnthToOaStreamState → Option Frame × AnthToOaStreamState
unfolding value_event
translate parse name body st =
    if text_eq name (codes "message_stop")
    then if st.finished then (none, st) else (some done, record st { finished = true })
    else elim (parse body) [ none ↦ (none, st) | some v ↦ value_event name v st ]

abbrev pub pushed : Option Frame → List Frame
pushed none = []
pushed (some f) = f ∷ []

-- The events of a stream, each with its name and its data, one after the other.
unfoldable pub run_events :
    (Text → Option Value)
    → List (Text × Text)
    → AnthToOaStreamState
    → List Frame × AnthToOaStreamState
unfolding translate
run_events parse [] st = ([], st)
run_events parse ((name, body) ∷ es) st =
    let (f, st') = translate parse name body st in
    let (rest, st'') = run_events parse es st' in (pushed f ++ rest, st'')
