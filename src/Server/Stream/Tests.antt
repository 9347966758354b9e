-- ===== src/Server/Stream/Tests.antt =====
-- Runs of the stream translator, and its theorems at concrete inputs.
use xrouter.Common.{
  ◌≤◌, ◌≡◌, refl, true, false, Option, none, some, [], ◌∷◌, ◌++◌, Text, codes, text_eq, trim,
  strip_prefix, if◌then◌else◌,
}
use xrouter.Json.{Value, string, obj, arr}
use xrouter.Server.OpenaiStream.{chunk_ops}
use xrouter.Server.OpenaiStream.Balance.{events_named}
use xrouter.Server.OpenaiStream.Once.{message_stops}
use xrouter.Server.AnthropicStream.{translate}
use xrouter.Server.Stream.{
  new, trim_matches, break_lines, push_chunk, process_done, process_data, process_event,
  process_line, process_lines, push, push_all, flush_line, close_openai, close_anthropic, flush,
}
use xrouter.Server.Stream.Chunks.{push_all-cuts}
use xrouter.Server.Stream.Terminal.{flush-sends_stop}

ops : Unit {0}
unfolding chunk_ops trim_matches break_lines push_chunk process_done process_data process_event
    process_line process_lines push push_all flush_line close_openai close_anthropic flush
    events_named translate text_eq trim strip_prefix
ops = tt

-- A parser that knows one payload, the last chunk of an answer.
abbrev parse : Text → Option Value
parse line =
    if text_eq line (codes "end")
    then some (
        obj (
          (
            codes "choices",
            arr (
                obj ((codes "delta", obj []) ∷ (codes "finish_reason", string (codes "stop")) ∷ [])
                ∷ []),
          )
          ∷ []))
    else none

abbrev end_line : Text
end_line = codes "data: end" ++ 13 ∷ 10 ∷ 10 ∷ []

abbrev done_line : Text
done_line = codes "data: [DONE]" ++ 10 ∷ 10 ∷ []

-- A finish reason and the end marker after it give two `message_stop`.
stops_twice : message_stops (push_all parse (end_line ∷ done_line ∷ []) (new true true)).0 ≡ 2
unfolding ops
stops_twice = refl

-- An Anthropic upstream that stops early leaves an OpenAI client without the end marker.
no_done : flush parse (new false false) ≡ ([], new false false)
unfolding ops
no_done = refl

push_all-cuts_example :
    push_all parse
      ((codes "data: e") ∷ (codes "nd" ++ 13 ∷ []) ∷ (10 ∷ 10 ∷ []) ∷ [])
      (new true true)
    ≡ push_all parse (end_line ∷ []) (new true true)
push_all-cuts_example =
    push_all-cuts parse true true
      ((codes "data: e") ∷ (codes "nd" ++ 13 ∷ []) ∷ (10 ∷ 10 ∷ []) ∷ []) (end_line ∷ []) refl

flush-sends_stop_example :
    1
    ≤ message_stops (
        (push_all parse (codes "data: e" ∷ []) (new true true)).0
        ++ (flush parse (push_all parse (codes "data: e" ∷ []) (new true true)).1).0)
flush-sends_stop_example = flush-sends_stop parse (codes "data: e" ∷ [])
