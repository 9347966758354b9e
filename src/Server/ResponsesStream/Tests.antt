-- ===== src/Server/ResponsesStream/Tests.antt =====
-- A stream for a client of the Responses API.
use xrouter.Common.{
  ◌≡◌, refl, ℕ, List, Option, none, some, [], ◌∷◌, ◌++◌, map, Text, codes, text_eq, All,
  if◌then◌else◌, strip_prefix, trim,
}
use xrouter.Json.{Value, string, obj, arr, find_field}
use xrouter.Server.Stream.{break_lines, trim_matches}
use xrouter.Server.ResponsesStream.{created, delta_event, completed, responses_stream_map}
use xrouter.Server.ResponsesStream.Texts.{joined, lines_texts, IsFilled}
use xrouter.Server.ResponsesStream.Shape.{responses_stream_map-shape}

abbrev delta_chunk : Value
delta_chunk = obj (
    (
      codes "choices",
      arr (obj ((codes "delta", obj ((codes "content", string (codes "hi")) ∷ [])) ∷ []) ∷ []),
    )
    ∷ [])

abbrev parse : Text → Option Value
parse s = if text_eq s (codes "{}") then some delta_chunk else none

abbrev chunks : List Text
chunks = (codes "data: {}" ++ 10 ∷ []) ∷ codes "data: [DO" ∷ (codes "NE]" ++ 10 ∷ []) ∷ []

sent_texts :
    lines_texts parse (break_lines [] (joined (codes "data: {}" ∷ (10 ∷ []) ∷ chunks))).0
    ≡ codes "hi" ∷ codes "hi" ∷ []
unfolding lines_texts break_lines joined find_field text_eq strip_prefix trim trim_matches
sent_texts = refl

responses_stream_map-shape_example :
    let texts =
      lines_texts parse (break_lines [] (joined (codes "data: {}" ∷ (10 ∷ []) ∷ chunks))).0 in
    (usage_in usage_out : ℕ) × All IsFilled texts
    × (responses_stream_map parse
          (codes "resp_1")
          (codes "m")
          (codes "data: {}" ∷ (10 ∷ []) ∷ chunks)
        ≡ created (codes "resp_1") (codes "m")
          ∷ (map delta_event texts
              ++ completed (codes "resp_1") (codes "m") (joined texts) usage_in usage_out ∷ []))
responses_stream_map-shape_example =
    responses_stream_map-shape parse (codes "resp_1") (codes "m") (codes "data: {}")
      ((10 ∷ []) ∷ chunks)
