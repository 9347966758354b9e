-- ===== src/Server/Stream.antt =====
-- crates/xrouter-server/src/lib.rs: `SseLineBuffer` and `StreamTranslator`, a stream of chunks cut
-- into lines and translated line by line. A chunk is the text that `from_utf8_lossy` makes of its
-- bytes, and `parse` is `serde_json::from_str`.
pub mod Chunks
pub mod Terminal
mod Tests
use xrouter.Common.{
  ℕ, ◌+◌, suc, zero, Bool, true, false, not, ◌&&◌, Option, none, some, List, [], ◌∷◌, ◌++◌, Text,
  codes, text_eq, if◌then◌else◌, option_or, ◌==◌, trim, starts_with, strip_prefix, length, reverse,
}
use xrouter.Json.{Value}
use xrouter.Server.Sse.{Frame, text, done, message_stop}
use xrouter.Server.OpenaiStream
use xrouter.Server.OpenaiStream.{OaToAnthStreamState, chunk}
use xrouter.Server.AnthropicStream
use xrouter.Server.AnthropicStream.{AnthToOaStreamState, translate, pushed}

-- `trim_start_matches(p)`: the prefix goes as often as it is there. Each time the text is shorter, so
-- its length is fuel enough.
unfoldable pub trim_matches : ℕ → Text → Text → Text
trim_matches zero p s = s
trim_matches (suc fuel) p s = elim (strip_prefix p s) [ none ↦ s | some r ↦ trim_matches fuel p r ]

abbrev pub trim_start_matches : Text → Text → Text
trim_start_matches p s = trim_matches (length s) p s

-- `if line.ends_with('\r') { line.pop(); }`, on the reversed line.
abbrev pub pop_return : Text → Text
pop_return [] = []
pop_return (c ∷ s) = if c == 13 then s else c ∷ s

abbrev pub chomp : Text → Text
chomp line = reverse (pop_return (reverse line))

-- The lines that end in a text, and what is left of it; `line` is the part of a line before it.
unfoldable pub break_lines : Text → Text → List Text × Text
break_lines line [] = ([], line)
break_lines line (c ∷ s) = elim (c == 10) [
  | true ↦ let (lines, rest) = break_lines [] s in (chomp line ∷ lines, rest)
  | false ↦ break_lines (line ++ c ∷ []) s
]

-- `SseLineBuffer::push`
unfoldable pub push_chunk : Text → Text → List Text × Text
push_chunk buf s = break_lines [] (buf ++ s)

pub record StreamTranslator : Type 0 where
  pub upstream_is_openai : Bool
  pub ingress_is_anthropic : Bool
  pub pending_event : Option Text
  pub line_buf : Text
  pub oa_state : OaToAnthStreamState
  pub anth_state : AnthToOaStreamState

abbrev pub new : Bool → Bool → StreamTranslator
new upstream_is_openai ingress_is_anthropic = record {
  upstream_is_openai = upstream_is_openai;
  ingress_is_anthropic = ingress_is_anthropic;
  pending_event = none;
  line_buf = [];
  oa_state = OpenaiStream.new_state;
  anth_state = AnthropicStream.new_state;
}

-- The end marker of an OpenAI stream.
unfoldable pub process_done : StreamTranslator → List Frame × StreamTranslator
process_done tr =
    if tr.ingress_is_anthropic
    then (
      message_stop ∷ [],
      record tr { oa_state = record tr.oa_state { finished = true }; pending_event = none },
    )
    else (
      done ∷ [],
      record tr { anth_state = record tr.anth_state { finished = true }; pending_event = none },
    )

-- Every event of the translator, with the empty line that is pushed after it.
abbrev pub spaced : List Frame → List Frame
spaced [] = []
spaced (f ∷ fs) = f ∷ text (10 ∷ 10 ∷ []) ∷ spaced fs

unfoldable pub process_data :
    (Text → Option Value) → Text → Text → StreamTranslator → List Frame × StreamTranslator
process_data parse line body tr =
    let (out, oa) = chunk parse body tr.oa_state in
    let (f, anth) =
      translate parse (option_or tr.pending_event (codes "content_block_delta")) body
        tr.anth_state in
    if tr.upstream_is_openai && tr.ingress_is_anthropic
    then (spaced out, record tr { oa_state = oa })
    else if not tr.upstream_is_openai && not tr.ingress_is_anthropic
    then (pushed f, record tr { pending_event = none; anth_state = anth })
    else (text (line ++ 10 ∷ 10 ∷ []) ∷ [], tr)

unfoldable pub process_event : Text → StreamTranslator → List Frame × StreamTranslator
process_event line tr =
    if not tr.upstream_is_openai && not tr.ingress_is_anthropic
    then ([], record tr { pending_event = some (trim (trim_start_matches (codes "event:") line)) })
    else if tr.ingress_is_anthropic && tr.upstream_is_openai
    then ([], tr)
    else (text (line ++ 10 ∷ []) ∷ [], tr)

unfoldable pub process_line :
    (Text → Option Value) → Text → StreamTranslator → List Frame × StreamTranslator
unfolding process_done process_data process_event
process_line parse line tr =
    let body = trim (trim_start_matches (codes "data: ") line) in
    if starts_with (codes "data: ") line
    then if text_eq body (codes "[DONE]") then process_done tr else process_data parse line body tr
    else if starts_with (codes "event:") line
    then process_event line tr
    else if starts_with (codes ":") line
    then (text (line ++ 10 ∷ []) ∷ [], tr)
    else ([], tr)

unfoldable pub process_lines :
    (Text → Option Value) → List Text → StreamTranslator → List Frame × StreamTranslator
unfolding process_line
process_lines parse [] tr = ([], tr)
process_lines parse (line ∷ lines) tr =
    let (out, tr') = process_line parse line tr in
    let (rest, tr'') = process_lines parse lines tr' in (out ++ rest, tr'')

-- `StreamTranslator::push`
unfoldable pub push :
    (Text → Option Value) → Text → StreamTranslator → List Frame × StreamTranslator
unfolding push_chunk process_lines
push parse s tr =
    let (lines, rest) = push_chunk tr.line_buf s in
    process_lines parse lines (record tr { line_buf = rest })

-- `SseLineBuffer::flush`, and the line that it gives.
unfoldable pub flush_line : (Text → Option Value) → StreamTranslator → List Frame × StreamTranslator
unfolding process_line
flush_line parse tr = elim tr.line_buf [
  | [] ↦ ([], tr)
  | c ∷ s ↦ process_line parse (c ∷ s) (record tr { line_buf = [] })
]

-- The end that an upstream did not send. The second one is for an Anthropic upstream too.
unfoldable pub close_openai : StreamTranslator → List Frame × StreamTranslator
close_openai tr =
    if tr.upstream_is_openai && tr.ingress_is_anthropic && not tr.oa_state.finished
    then (message_stop ∷ [], record tr { oa_state = record tr.oa_state { finished = true } })
    else ([], tr)

unfoldable pub close_anthropic : StreamTranslator → List Frame × StreamTranslator
close_anthropic tr =
    if not tr.upstream_is_openai && tr.ingress_is_anthropic && not tr.anth_state.finished
    then (done ∷ [], record tr { anth_state = record tr.anth_state { finished = true } })
    else ([], tr)

-- `StreamTranslator::flush`
unfoldable pub flush : (Text → Option Value) → StreamTranslator → List Frame × StreamTranslator
unfolding flush_line close_openai close_anthropic
flush parse tr =
    let (out, tr1) = flush_line parse tr in
    let (out2, tr2) = close_openai tr1 in
    let (out3, tr3) = close_anthropic tr2 in (out ++ (out2 ++ out3), tr3)

-- The chunks of a stream, one after the other.
unfoldable pub push_all :
    (Text → Option Value) → List Text → StreamTranslator → List Frame × StreamTranslator
unfolding push
push_all parse [] tr = ([], tr)
push_all parse (s ∷ ss) tr =
    let (out, tr') = push parse s tr in
    let (rest, tr'') = push_all parse ss tr' in (out ++ rest, tr'')
