-- ===== src/Server/Stream/Terminal.antt =====
-- crates/xrouter-server/src/lib.rs: the terminal event of `StreamTranslator::flush`.
use xrouter.Common.{
  ◌+◌, ◌≤◌, ◌≡◌, refl, ◌∙◌, Bool, true, false, not, ◌&&◌, Option, List, [], ◌∷◌, ◌++◌, Text, codes,
  text_eq, to_count, arith, if◌then◌else◌, starts_with, trim,
}
use xrouter.Json.{Value}
use xrouter.Server.Sse.{Frame, event, payload, done, text}
use xrouter.Server.OpenaiStream.{chunk}
use xrouter.Server.OpenaiStream.Balance.{events_named, events_named-append}
use xrouter.Server.OpenaiStream.Once.{message_stops, chunk-IsMarked}
use xrouter.Server.Stream.{
  StreamTranslator, new, process_done, process_data, process_event, process_line, process_lines,
  push, push_chunk, push_all, flush_line, close_openai, close_anthropic, flush, trim_start_matches,
  spaced,
}

-- A step keeps the two directions, and sends `message_stop` where it finishes the stream.
abbrev IsEnding : StreamTranslator → List Frame × StreamTranslator → Type 0
IsEnding tr r =
    (r.1.upstream_is_openai ≡ tr.upstream_is_openai)
    × (r.1.ingress_is_anthropic ≡ tr.ingress_is_anthropic)
    × (to_count r.1.oa_state.finished ≤ to_count tr.oa_state.finished + message_stops r.0)

spaced-stops : (fs : List Frame) → message_stops (spaced fs) ≡ message_stops fs
unfolding events_named
spaced-stops [] = refl
spaced-stops (event n v ∷ fs) = omega (arith, spaced-stops fs)
spaced-stops (payload v ∷ fs) = spaced-stops fs
spaced-stops (done ∷ fs) = spaced-stops fs
spaced-stops (text s ∷ fs) = spaced-stops fs

if_IsEnding :
    (tr : StreamTranslator) (b : Bool) (x y : List Frame × StreamTranslator)
    → IsEnding tr x
    → IsEnding tr y
    → IsEnding tr (if b then x else y)
if_IsEnding tr true x y h k = h
if_IsEnding tr false x y h k = k

then-IsEnding :
    (tr tr' tr'' : StreamTranslator) (xs ys : List Frame)
    → IsEnding tr (xs, tr')
    → IsEnding tr' (ys, tr'')
    → IsEnding tr (xs ++ ys, tr'')
then-IsEnding tr tr' tr'' xs ys h k =
    (k.0 ∙ h.0, k.1 ∙ h.1, omega (arith, events_named-append (codes "message_stop") xs ys))

process_done-IsEnding : (tr : StreamTranslator) → IsEnding tr (process_done tr)
unfolding process_done events_named text_eq
process_done-IsEnding tr =
    if_IsEnding tr tr.ingress_is_anthropic _ _ (refl, refl, omega arith) (refl, refl, omega arith)

process_data-IsEnding :
    (parse : Text → Option Value) (line body : Text) (tr : StreamTranslator)
    → IsEnding tr (process_data parse line body tr)
unfolding process_data events_named
process_data-IsEnding parse line body tr =
    if_IsEnding tr (tr.upstream_is_openai && tr.ingress_is_anthropic) _ _
      (
        refl,
        refl,
        ground (
          arith,
          spaced-stops (chunk parse body tr.oa_state).0,
          chunk-IsMarked parse body tr.oa_state,
        ),
      )
      (if_IsEnding tr (not tr.upstream_is_openai && not tr.ingress_is_anthropic) _ _
        (refl, refl, omega arith) (refl, refl, omega arith))

process_event-IsEnding : (line : Text) (tr : StreamTranslator) → IsEnding tr (process_event line tr)
unfolding process_event events_named
process_event-IsEnding line tr =
    if_IsEnding tr (not tr.upstream_is_openai && not tr.ingress_is_anthropic) _ _
      (refl, refl, omega arith)
      (if_IsEnding tr (tr.ingress_is_anthropic && tr.upstream_is_openai) _ _
        (refl, refl, omega arith) (refl, refl, omega arith))

process_line-IsEnding :
    (parse : Text → Option Value) (line : Text) (tr : StreamTranslator)
    → IsEnding tr (process_line parse line tr)
unfolding process_line events_named
process_line-IsEnding parse line tr =
    let body = trim (trim_start_matches (codes "data: ") line) in
    if_IsEnding tr (starts_with (codes "data: ") line) _ _
      (if_IsEnding tr (text_eq body (codes "[DONE]")) _ _ (process_done-IsEnding tr)
        (process_data-IsEnding parse line body tr))
      (if_IsEnding tr (starts_with (codes "event:") line) _ _ (process_event-IsEnding line tr) (
        if_IsEnding tr (starts_with (codes ":") line) _ _ (refl, refl, omega arith)
          (refl, refl, omega arith)))

process_lines-IsEnding :
    (parse : Text → Option Value) (lines : List Text) (tr : StreamTranslator)
    → IsEnding tr (process_lines parse lines tr)
unfolding process_lines events_named
process_lines-IsEnding parse [] tr = (refl, refl, omega arith)
process_lines-IsEnding parse (line ∷ lines) tr =
    let (out, tr') = process_line parse line tr in
    then-IsEnding tr tr' (process_lines parse lines tr').1 out (process_lines parse lines tr').0
      (process_line-IsEnding parse line tr) (process_lines-IsEnding parse lines tr')

push_all-IsEnding :
    (parse : Text → Option Value) (ss : List Text) (tr : StreamTranslator)
    → IsEnding tr (push_all parse ss tr)
unfolding push_all push push_chunk events_named
push_all-IsEnding parse [] tr = (refl, refl, omega arith)
push_all-IsEnding parse (s ∷ ss) tr =
    let (lines, rest) = push_chunk tr.line_buf s in
    let (out, tr') = push parse s tr in
    then-IsEnding tr tr' (push_all parse ss tr').1 out (push_all parse ss tr').0
      (process_lines-IsEnding parse lines (record tr { line_buf = rest }))
      (push_all-IsEnding parse ss tr')

flush_buf-IsEnding :
    (parse : Text → Option Value) (tr : StreamTranslator) (buf : Text)
    → tr.line_buf ≡ buf
    → IsEnding tr (flush_line parse tr)
unfolding flush_line events_named
flush_buf-IsEnding parse tr [] e = rw (flush_line, e) (refl, refl, omega arith)
flush_buf-IsEnding parse tr (c ∷ s) e =
    rw (flush_line, e) (process_line-IsEnding parse (c ∷ s) (record tr { line_buf = [] }))

close_openai-stops :
    (tr : StreamTranslator)
    → tr.upstream_is_openai ≡ true
    → tr.ingress_is_anthropic ≡ true
    → 1 ≤ to_count tr.oa_state.finished + message_stops (close_openai tr).0
unfolding close_openai events_named text_eq
close_openai-stops tr h k = ground arith

-- However the chunks of an OpenAI stream cut it, and wherever it stops, the frames that a new
-- translator sends an Anthropic client until it is flushed have a `message_stop`.
pub flush-sends_stop :
    (parse : Text → Option Value) (ss : List Text)
    → 1
      ≤ message_stops (
          (push_all parse ss (new true true)).0
          ++ (flush parse (push_all parse ss (new true true)).1).0)
unfolding flush
flush-sends_stop parse ss =
    let (out, tr) = push_all parse ss (new true true) in
    let (line, tr1) = flush_line parse tr in
    let (stop, tr2) = close_openai tr1 in
    let before : IsEnding (new true true) (out, tr) = push_all-IsEnding parse ss (new true true) in
    let last : IsEnding tr (line, tr1) = flush_buf-IsEnding parse tr tr.line_buf refl in
    let both = then-IsEnding (new true true) tr tr1 out line before last in
    let stops = close_openai-stops tr1 both.0 both.1 in
    omega (
      arith,
      both.2,
      stops,
      events_named-append (codes "message_stop") out line,
      events_named-append (codes "message_stop") out (line ++ (stop ++ (close_anthropic tr2).0)),
      events_named-append (codes "message_stop") line (stop ++ (close_anthropic tr2).0),
      events_named-append (codes "message_stop") stop (close_anthropic tr2).0,
    )
