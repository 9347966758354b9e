-- ===== src/Server/OpenaiStream.antt =====
-- crates/xrouter-server/src/translate.rs: `OaToAnthStreamState` and
-- `translate_sse_openai_to_anthropic_chunk_st`, one `data:` payload of an OpenAI stream to the events
-- of an Anthropic one. `parse` is `serde_json::from_str`, `none` where it fails. The tool blocks are
-- closed in the order in which they came; the source's `HashMap` leaves the order open.
pub mod Balance
pub mod Closing
pub mod Content
pub mod Once
mod Tests
use xrouter.Common.{
  ℕ, suc, ◌+◌, Bool, true, false, not, ◌&&◌, ◌||◌, Option, none, some, List, [], ◌∷◌, ◌++◌, Text,
  codes, text_eq, if◌then◌else◌, option_or, ◌==◌, trim, Bool-cases, Option-cases, inl, inr,
}
use xrouter.Json.{
  Value, null, number, string, obj, arr, find_field, get, get_in, as_str, as_u64, as_array, first,
}
use xrouter.Server.Sse.{Frame, event, message_stop}

pub record ToolBlock : Type 0 where
  pub block_index : ℕ
  pub id : Text
  pub name : Text
  pub started : Bool

pub record OaToAnthStreamState : Type 0 where
  pub message_started : Bool
  pub text_block_started : Bool
  pub text_block_index : ℕ
  pub tool_blocks : List (ℕ × ToolBlock)
  pub next_block_index : ℕ
  pub finished : Bool

-- `OaToAnthStreamState::default()`
abbrev pub new_state : OaToAnthStreamState
new_state = record {
  message_started = false;
  text_block_started = false;
  text_block_index = 0;
  tool_blocks = [];
  next_block_index = 0;
  finished = false;
}

abbrev pub is_empty : Text → Bool
is_empty [] = true
is_empty (c ∷ s) = false

unfoldable pub find_block : ℕ → List (ℕ × ToolBlock) → Option ToolBlock
find_block i [] = none
find_block i ((j, tb) ∷ bs) = if j == i then some tb else find_block i bs

unfoldable pub set_block : ℕ → ToolBlock → List (ℕ × ToolBlock) → List (ℕ × ToolBlock)
set_block i tb [] = (i, tb) ∷ []
set_block i tb ((j, tc) ∷ bs) = if j == i then (i, tb) ∷ bs else (j, tc) ∷ set_block i tb bs

abbrev pub block_stop : ℕ → Frame
block_stop i =
    event (codes "content_block_stop")
      (obj ((codes "type", string (codes "content_block_stop")) ∷ (codes "index", number i) ∷ []))

abbrev pub block_start : ℕ → Value → Frame
block_start i block = event (codes "content_block_start") (
    obj (
      (codes "type", string (codes "content_block_start"))
      ∷ (codes "index", number i)
      ∷ (codes "content_block", block)
      ∷ []))

abbrev pub block_delta : ℕ → Value → Frame
block_delta i delta = event (codes "content_block_delta") (
    obj (
      (codes "type", string (codes "content_block_delta"))
      ∷ (codes "index", number i)
      ∷ (codes "delta", delta)
      ∷ []))

abbrev pub text_block : Value
text_block = obj ((codes "type", string (codes "text")) ∷ (codes "text", string []) ∷ [])

abbrev pub text_delta : Text → Value
text_delta s = obj ((codes "type", string (codes "text_delta")) ∷ (codes "text", string s) ∷ [])

abbrev pub tool_use_block : Text → Text → Value
tool_use_block id name = obj (
    (codes "type", string (codes "tool_use"))
    ∷ (codes "id", string id)
    ∷ (codes "name", string name)
    ∷ [])

abbrev pub input_json_delta : Text → Value
input_json_delta args =
    obj
      ((codes "type", string (codes "input_json_delta")) ∷ (codes "partial_json", string args) ∷ [])

-- `if state.text_block_started { out.push(stop); state.text_block_started = false; }`
unfoldable pub close_text : OaToAnthStreamState → List Frame × OaToAnthStreamState
close_text st =
    if st.text_block_started
    then (block_stop st.text_block_index ∷ [], record st { text_block_started = false })
    else ([], st)

-- The stops of the tool blocks that were started.
unfoldable pub close_tools : List (ℕ × ToolBlock) → List Frame
close_tools [] = []
close_tools ((i, tb) ∷ bs) =
    if tb.started then block_stop tb.block_index ∷ close_tools bs else close_tools bs

-- The branch of the end marker.
unfoldable pub done_chunk : OaToAnthStreamState → List Frame × OaToAnthStreamState
unfolding close_text close_tools
done_chunk st =
    let (out, st') = close_text st in
    if st.finished
    then ([], st)
    else (out ++ (close_tools st'.tool_blocks ++ message_stop ∷ []), record st' { finished = true })

-- Part 1: `message_start` on the first chunk.
abbrev pub start_frame : Value → Option Value → Frame
start_frame val delta = event (codes "message_start") (
    obj (
      (codes "type", string (codes "message_start"))
      ∷ (
        codes "message",
        obj (
            (
              codes "id",
              string (option_or (as_str (get val (codes "id"))) (codes "msg_translated")),
            )
            ∷ (codes "type", string (codes "message"))
            ∷ (
              codes "role",
              string (option_or (as_str (get_in delta (codes "role"))) (codes "assistant")),
            )
            ∷ (codes "model", string (option_or (as_str (get val (codes "model"))) []))
            ∷ (codes "content", arr [])
            ∷ (codes "stop_reason", null)
            ∷ (codes "stop_sequence", null)
            ∷ (
              codes "usage",
              obj ((codes "input_tokens", number 0) ∷ (codes "output_tokens", number 0) ∷ []),
            )
            ∷ []),
      )
      ∷ []))

unfoldable pub start_message :
    Value → Option Value → OaToAnthStreamState → List Frame × OaToAnthStreamState
start_message val delta st =
    if st.message_started
    then ([], st)
    else (start_frame val delta ∷ [], record st { message_started = true })

-- Part 2: `content`, or else `reasoning_content`.
unfoldable pub text_of : Option Value → Text
text_of delta =
    option_or (as_str (get_in delta (codes "content")))
      (option_or (as_str (get_in delta (codes "reasoning_content"))) [])

-- A text block is opened unless one is open.
unfoldable pub open_text : OaToAnthStreamState → List Frame × OaToAnthStreamState
open_text st = if st.text_block_started then ([], st) else (
  block_start st.next_block_index text_block ∷ [],
  record st {
    text_block_index = st.next_block_index;
    next_block_index = st.next_block_index + 1;
    text_block_started = true;
  },
)

unfoldable pub push_text : Text → OaToAnthStreamState → List Frame × OaToAnthStreamState
unfolding open_text
push_text content st =
    let (out, st') = open_text st in
    if is_empty content
    then ([], st)
    else (out ++ block_delta st'.text_block_index (text_delta content) ∷ [], st')

-- Part 3: one tool call. `entry(idx).or_insert_with(…)` takes the next block index.
unfoldable pub claim_block : ℕ → OaToAnthStreamState → ToolBlock × OaToAnthStreamState
claim_block idx st = elim (find_block idx st.tool_blocks) [
  | some tb ↦ (tb, st)
  | none ↦ (
    record { block_index = st.next_block_index; id = []; name = []; started = false },
    record st { next_block_index = st.next_block_index + 1 },
  )
]

-- A text that is there and not empty replaces the old one.
abbrev pub replace_text : Option Text → Text → Text
replace_text none old = old
replace_text (some []) old = old
replace_text (some (c ∷ s)) old = c ∷ s

abbrev pub name_block : Value → ToolBlock → ToolBlock
name_block tc tb = record tb {
  id = replace_text (as_str (get tc (codes "id"))) tb.id;
  name = replace_text (as_str (get_in (get tc (codes "function")) (codes "name"))) tb.name;
}

-- The start of a block is sent once, when its id or its name is known.
unfoldable pub start_block : ToolBlock → List Frame × ToolBlock
start_block tb =
    if not tb.started && (not (is_empty tb.id) || not (is_empty tb.name))
    then (
      block_start tb.block_index (tool_use_block tb.id tb.name) ∷ [],
      record tb { started = true },
    )
    else ([], tb)

unfoldable pub push_args : Value → ToolBlock → List Frame
push_args tc tb =
    let args = option_or (as_str (get_in (get tc (codes "function")) (codes "arguments"))) [] in
    if is_empty args then [] else block_delta tb.block_index (input_json_delta args) ∷ []

unfoldable pub push_tool : Value → OaToAnthStreamState → List Frame × OaToAnthStreamState
unfolding claim_block start_block push_args
push_tool tc st =
    let idx = option_or (as_u64 (get tc (codes "index"))) 0 in
    let (tb, st') = claim_block idx st in
    let (out, tb') = start_block (name_block tc tb) in
    (out ++ push_args tc tb', record st' { tool_blocks = set_block idx tb' st'.tool_blocks })

unfoldable pub push_tools : List Value → OaToAnthStreamState → List Frame × OaToAnthStreamState
push_tools [] st = ([], st)
push_tools (tc ∷ tcs) st =
    let (out, st') = push_tool tc st in let (rest, st'') = push_tools tcs st' in (out ++ rest, st'')

-- A list of tool calls closes the text block first, also an empty list.
unfoldable pub tool_part :
    Option (List Value) → OaToAnthStreamState → List Frame × OaToAnthStreamState
unfolding close_text push_tools
tool_part none st = ([], st)
tool_part (some tcs) st =
    let (out, st') = close_text st in let (rest, st'') = push_tools tcs st' in (out ++ rest, st'')

-- Part 4: the finish reason.
abbrev pub stop_reason : Text → Text
stop_reason finish =
    if text_eq finish (codes "tool_calls")
    then codes "tool_use"
    else if text_eq finish (codes "length")
    then codes "max_tokens"
    else codes "end_turn"

abbrev pub message_delta : Value → Text → Frame
message_delta val finish = event (codes "message_delta") (
    obj (
      (codes "type", string (codes "message_delta"))
      ∷ (
        codes "delta",
        obj (
            (codes "stop_reason", string (stop_reason finish))
            ∷ (codes "stop_sequence", null)
            ∷ []),
      )
      ∷ (codes "usage", option_or (get val (codes "usage")) (obj []))
      ∷ []))

unfoldable pub finish_part :
    Value → Option Text → OaToAnthStreamState → List Frame × OaToAnthStreamState
unfolding close_text close_tools
finish_part val none st = ([], st)
finish_part val (some finish) st =
    let (out, st') = close_text st in
    if not (is_empty finish) && not (text_eq finish (codes "null")) && not st.finished
    then (
      out ++ (close_tools st'.tool_blocks ++ message_delta val finish ∷ message_stop ∷ []),
      record st' { finished = true },
    )
    else ([], st)

-- The four parts, on the first choice of a chunk.
unfoldable pub choice_chunk : Value → Value → OaToAnthStreamState → List Frame × OaToAnthStreamState
choice_chunk val choice st =
    let delta = get choice (codes "delta") in
    let (out1, st1) = start_message val delta st in
    let (out2, st2) = push_text (text_of delta) st1 in
    let (out3, st3) = tool_part (as_array (get_in delta (codes "tool_calls"))) st2 in
    let (out4, st4) = finish_part val (as_str (get choice (codes "finish_reason"))) st3 in
    (out1 ++ (out2 ++ (out3 ++ out4)), st4)

unfoldable pub value_chunk : Value → OaToAnthStreamState → List Frame × OaToAnthStreamState
value_chunk val st = elim (first (as_array (get val (codes "choices")))) [
  | none ↦ ([], st)
  | some choice ↦ choice_chunk val choice st
]

unfoldable pub chunk :
    (Text → Option Value) → Text → OaToAnthStreamState → List Frame × OaToAnthStreamState
chunk parse payload st =
    if text_eq (trim payload) (codes "[DONE]")
    then done_chunk st
    else elim (parse payload) [ none ↦ ([], st) | some val ↦ value_chunk val st ]

-- A payload has no effect, is the end marker, or is a chunk with a choice.
pub chunk_cases {ℓ} :
    (P : List Frame × OaToAnthStreamState → Type ℓ) (parse : Text → Option Value) (line : Text)
    (st : OaToAnthStreamState)
    → P ([], st)
    → P (done_chunk st)
    → ((val choice : Value) → P (choice_chunk val choice st))
    → P (chunk parse line st)
unfolding chunk value_chunk
chunk_cases P parse line st nothing ending choices =
    elim (Bool-cases (text_eq (trim line) (codes "[DONE]"))) [
      | inl e ↦ rw (e, chunk) ending
      | inr e ↦ elim (Option-cases (parse line)) [
        | inl n ↦ rw (e, chunk, n) nothing
        | inr (val, v) ↦ elim (Option-cases (first (as_array (get val (codes "choices"))))) [
          | inl n ↦ rw (e, chunk, v) (rw (n, value_chunk) nothing)
          | inr (choice, c) ↦ rw (e, chunk, v) (rw (c, value_chunk) (choices val choice))
        ]
      ]
    ]

-- The payloads of a stream, one after the other.
unfoldable pub run_chunks :
    (Text → Option Value) → List Text → OaToAnthStreamState → List Frame × OaToAnthStreamState
run_chunks parse [] st = ([], st)
run_chunks parse (line ∷ lines) st =
    let (out, st') = chunk parse line st in
    let (rest, st'') = run_chunks parse lines st' in (out ++ rest, st'')

-- The operations of a run, for runs at concrete payloads.
unfoldable pub chunk_ops : Unit {0}
unfolding run_chunks chunk value_chunk choice_chunk finish_part tool_part push_tools push_tool
    push_args start_block claim_block push_text open_text text_of start_message done_chunk
    close_tools close_text set_block find_block find_field text_eq trim
chunk_ops = tt
