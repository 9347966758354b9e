-- ===== src/Server/OpenaiStream/Tests.antt =====
-- Runs of the OpenAI-to-Anthropic translator, and its theorems at concrete inputs.
use xrouter.Common.{
  ◌+◌, ◌≡◌, refl, true, false, Option, none, some, List, [], ◌∷◌, ◌++◌, Text, codes, text_eq,
  to_count, if◌then◌else◌,
}
use xrouter.Json.{Value, string, number, obj, arr}
use xrouter.Server.OpenaiStream.{new_state, run_chunks, chunk, chunk_ops}
use xrouter.Server.OpenaiStream.Balance.{events_named, starts, stops}
use xrouter.Server.OpenaiStream.Closing.{run_chunks-closed}
use xrouter.Server.OpenaiStream.Once.{message_starts, message_stops, run_chunks-IsMarked}
use xrouter.Server.OpenaiStream.Content.{texts, choice_text, payload_texts, run_chunks-texts}

abbrev choices : Value → Value
choices choice = obj ((codes "choices", arr (choice ∷ [])) ∷ [])

-- A chunk with content.
abbrev content_value : Text → Value
content_value s = choices (obj ((codes "delta", obj ((codes "content", string s) ∷ [])) ∷ []))

-- A chunk with the first piece of a tool call.
abbrev tool_value : Value
tool_value = choices (
    obj (
      (
        codes "delta",
        obj (
            (
              codes "tool_calls",
              arr (
                  obj (
                    (codes "index", number 0)
                    ∷ (codes "id", string (codes "call_1"))
                    ∷ (
                      codes "function",
                      obj (
                          (codes "name", string (codes "ls"))
                          ∷ (codes "arguments", string (codes "{}"))
                          ∷ []),
                    )
                    ∷ [])
                  ∷ []),
            )
            ∷ []),
      )
      ∷ []))

abbrev finish_value : Value
finish_value =
    choices
      (obj ((codes "delta", obj []) ∷ (codes "finish_reason", string (codes "tool_calls")) ∷ []))

-- A parser that knows four payloads.
abbrev parse : Text → Option Value
parse line =
    if text_eq line (codes "hel")
    then some (content_value (codes "hel"))
    else if text_eq line (codes "lo")
    then some (content_value (codes "lo"))
    else if text_eq line (codes "tool")
    then some tool_value
    else if text_eq line (codes "end")
    then some finish_value
    else none

abbrev lines : List Text
lines = codes "hel" ∷ codes "lo" ∷ codes "tool" ∷ []

lines_going : (run_chunks parse lines new_state).1.finished ≡ false
unfolding chunk_ops
lines_going = refl

lines_end : (chunk parse (codes "end") (run_chunks parse lines new_state).1).1.finished ≡ true
unfolding chunk_ops
lines_end = refl

two_blocks :
    events_named (codes "content_block_start") (
      (run_chunks parse lines new_state).0
      ++ (chunk parse (codes "end") (run_chunks parse lines new_state).1).0)
    ≡ 2
unfolding chunk_ops events_named
two_blocks = refl

run_chunks-closed_example :
    starts 1 (
      (run_chunks parse lines new_state).0
      ++ (chunk parse (codes "end") (run_chunks parse lines new_state).1).0)
    ≡ stops 1 (
        (run_chunks parse lines new_state).0
        ++ (chunk parse (codes "end") (run_chunks parse lines new_state).1).0)
run_chunks-closed_example = run_chunks-closed 1 parse lines (codes "end") lines_going lines_end

run_chunks-IsMarked_example :
    (to_count false + message_starts (run_chunks parse lines new_state).0
      ≡ to_count (run_chunks parse lines new_state).1.message_started)
    × (to_count false + message_stops (run_chunks parse lines new_state).0
        ≡ to_count (run_chunks parse lines new_state).1.finished)
run_chunks-IsMarked_example = run_chunks-IsMarked parse lines new_state

lines_text : payload_texts parse lines ≡ codes "hello"
unfolding chunk_ops payload_texts choice_text
lines_text = refl

run_chunks-texts_example : texts (run_chunks parse lines new_state).0 ≡ payload_texts parse lines
run_chunks-texts_example = run_chunks-texts parse lines new_state
