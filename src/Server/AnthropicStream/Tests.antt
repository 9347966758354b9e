-- ===== src/Server/AnthropicStream/Tests.antt =====
-- Runs of the Anthropic-to-OpenAI translator, and its theorems at concrete inputs.
use xrouter.Common.{
  ℕ, ◌+◌, ◌≡◌, refl, false, Option, none, some, List, [], ◌∷◌, ◌++◌, Text, codes, text_eq, to_count,
  if◌then◌else◌,
}
use xrouter.Json.{Value, string, number, obj, find_field}
use xrouter.Server.AnthropicStream.{
  new_state, find_tool, set_tool, block_started, block_delta, value_event, translate, run_events,
}
use xrouter.Server.AnthropicStream.Once.{dones, run_events-IsEnded}
use xrouter.Server.AnthropicStream.Arguments.{
  run_events-distinct_tools, call_index, delta_chunk, block_of,
}

ops : Unit {0}
unfolding find_tool set_tool block_started block_delta value_event translate run_events dones
    call_index find_field text_eq
ops = tt

abbrev tool_start : ℕ → Value
tool_start index = obj (
    (codes "index", number index)
    ∷ (codes "content_block", obj ((codes "type", string (codes "tool_use")) ∷ []))
    ∷ [])

abbrev arguments : Value
arguments = obj (
    (codes "index", number 2)
    ∷ (codes "delta", obj ((codes "partial_json", string (codes "{}")) ∷ []))
    ∷ [])

-- A parser that knows the starts of two blocks.
abbrev parse : Text → Option Value
parse s =
    if text_eq s (codes "one")
    then some (tool_start 1)
    else if text_eq s (codes "two")
    then some (tool_start 2)
    else if text_eq s (codes "args")
    then some arguments
    else none

abbrev events : List (Text × Text)
events =
    (codes "content_block_start", codes "one")
    ∷ (codes "content_block_start", codes "two")
    ∷ (codes "message_stop", [])
    ∷ (codes "message_stop", [])
    ∷ []

one_end : dones (run_events parse events new_state).0 ≡ 1
unfolding ops
one_end = refl

run_events-IsEnded_example :
    to_count false + dones (run_events parse events new_state).0
    ≡ to_count (run_events parse events new_state).1.finished
run_events-IsEnded_example = run_events-IsEnded parse events new_state

args_parse : parse (codes "args") ≡ some arguments
unfolding text_eq
args_parse = refl

second_arguments : call_index (delta_chunk parse events (codes "args")) ≡ some 1
unfolding ops
second_arguments = refl

later_arguments : call_index (delta_chunk parse (events ++ events) (codes "args")) ≡ some 3
unfolding ops
later_arguments = refl

kept_arguments :
    call_index (delta_chunk parse (events ++ (codes "ping", []) ∷ []) (codes "args")) ≡ some 1
unfolding ops
kept_arguments = refl

run_events-distinct_tools_example : block_of arguments ≡ block_of arguments
run_events-distinct_tools_example =
    run_events-distinct_tools parse events ((codes "ping", []) ∷ []) (codes "args") (codes "args")
      arguments arguments 1 args_parse args_parse second_arguments kept_arguments
