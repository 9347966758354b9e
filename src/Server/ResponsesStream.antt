-- ===== src/Server/ResponsesStream.antt =====
-- crates/xrouter-server/src/lib.rs: `ResponsesStreamTranslator` and `responses_stream_map`, which turn
-- a stream of Chat Completions into one of the Responses API. `parse` is `serde_json::from_str`. The
-- chunks arrive without an error.
pub mod Texts
pub mod Extended
pub mod Shape
mod Tests
use xrouter.Common.{
  ℕ, Bool, true, false, not, Option, none, some, List, [], ◌∷◌, ◌++◌, Text, codes, text_eq, ltb,
  option_or, if◌then◌else◌, starts_with, trim,
}
use xrouter.Json.{Value, string, obj, get, get_in, as_str, as_array, first}
use xrouter.Server.Sse.{Frame, event}
use xrouter.Server.Stream.{push_chunk, trim_start_matches}
use xrouter.Server.Responses.{responses_object}
use xrouter.Server.Requests.Responses.{tokens_in, tokens_out, choice_content}

pub record ResponsesStreamTranslator : Type 0 where
  pub started : Bool
  pub finished : Bool
  pub response_id : Text
  pub model : Text
  pub answer : Text
  pub usage_in : ℕ
  pub usage_out : ℕ
  pub line_buf : Text

abbrev pub new : Text → Text → ResponsesStreamTranslator
new response_id model = record {
  started = false;
  finished = false;
  response_id = response_id;
  model = model;
  answer = [];
  usage_in = 0;
  usage_out = 0;
  line_buf = [];
}

abbrev pub response_event : Text → Value → Frame
response_event name response =
    event name (obj ((codes "type", string name) ∷ (codes "response", response) ∷ []))

abbrev pub created : Text → Text → Frame
created id model =
    response_event (codes "response.created")
      (responses_object id model [] 0 0 (codes "in_progress"))

abbrev pub delta_event : Text → Frame
delta_event content = event (codes "response.output_text.delta") (
    obj (
      (codes "type", string (codes "response.output_text.delta"))
      ∷ (codes "delta", string content)
      ∷ []))

abbrev pub completed : Text → Text → Text → ℕ → ℕ → Frame
completed id model answer usage_in usage_out =
    response_event (codes "response.completed")
      (responses_object id model answer usage_in usage_out (codes "completed"))

-- An empty text sends nothing.
unfoldable pub push_content :
    Option Text → ResponsesStreamTranslator → List Frame × ResponsesStreamTranslator
push_content none tr = ([], tr)
push_content (some []) tr = ([], tr)
push_content (some (c ∷ s)) tr =
    (delta_event (c ∷ s) ∷ [], record tr { answer = tr.answer ++ (c ∷ s) })

-- A count of 0 is not taken over.
abbrev newer : ℕ → ℕ → ℕ
newer n old = if ltb 0 n then n else old

unfoldable pub take_usage : Option Value → ResponsesStreamTranslator → ResponsesStreamTranslator
take_usage none tr = tr
take_usage (some usage) tr = record tr {
  usage_in = newer (tokens_in usage) tr.usage_in;
  usage_out = newer (tokens_out usage) tr.usage_out;
}

abbrev data_of : Text → Text
data_of line = trim (trim_start_matches (codes "data: ") line)

-- The value in a line, none in a line without data, at the end mark and in text that is no JSON.
unfoldable pub line_value : (Text → Option Value) → Text → Option Value
line_value parse line =
    if starts_with (codes "data: ") line
    then (if text_eq (data_of line) (codes "[DONE]") then none else parse (data_of line))
    else none

unfoldable pub process_value :
    Option Value → ResponsesStreamTranslator → List Frame × ResponsesStreamTranslator
unfolding push_content take_usage
process_value none tr = ([], tr)
process_value (some v) tr =
    let (frames, tr') = push_content (choice_content v (codes "delta")) tr in
    (frames, take_usage (get v (codes "usage")) tr')

module _ (parse : Text → Option Value) where
  unfoldable pub process_lines :
      List Text → ResponsesStreamTranslator → List Frame × ResponsesStreamTranslator
  unfolding process_value line_value
  process_lines [] tr = ([], tr)
  process_lines (line ∷ lines) tr =
      let (frames, tr1) = process_value (line_value parse line) tr in
      let (more, tr2) = process_lines lines tr1 in (frames ++ more, tr2)

  abbrev pub begin : ResponsesStreamTranslator → List Frame
  begin tr = if tr.started then [] else created tr.response_id tr.model ∷ []

  unfoldable pub push : Text → ResponsesStreamTranslator → List Frame × ResponsesStreamTranslator
  unfolding process_lines
  push chunk tr =
      let (lines, rest) = push_chunk tr.line_buf chunk in
      let (frames, tr') = process_lines lines (record tr { started = true; line_buf = rest }) in
      (begin tr ++ frames, tr')

  abbrev pub flush_value : Option Value → ResponsesStreamTranslator → ResponsesStreamTranslator
  flush_value none tr = tr
  flush_value (some v) tr = take_usage (get v (codes "usage")) tr

  -- Of the line that is left, only the usage is read.
  abbrev pub flush_buf : Text → ResponsesStreamTranslator → ResponsesStreamTranslator
  flush_buf [] tr = tr
  flush_buf (c ∷ s) tr = flush_value (line_value parse (c ∷ s)) (record tr { line_buf = [] })

  unfoldable pub flush : ResponsesStreamTranslator → List Frame × ResponsesStreamTranslator
  unfolding take_usage line_value
  flush tr =
      let tr' = flush_buf tr.line_buf tr in
      if tr'.finished then ([], tr') else (
        completed tr'.response_id tr'.model tr'.answer tr'.usage_in tr'.usage_out ∷ [],
        record tr' { finished = true },
      )

  unfoldable pub push_all :
      List Text → ResponsesStreamTranslator → List Frame × ResponsesStreamTranslator
  unfolding push
  push_all [] tr = ([], tr)
  push_all (c ∷ cs) tr =
      let (frames, tr1) = push c tr in let (more, tr2) = push_all cs tr1 in (frames ++ more, tr2)

  -- The stream that the caller gets: every chunk, and the flush at the end.
  unfoldable pub responses_stream_map : Text → Text → List Text → List Frame
  unfolding push_all flush
  responses_stream_map response_id model chunks =
      let (frames, tr) = push_all chunks (new response_id model) in frames ++ (flush tr).0
