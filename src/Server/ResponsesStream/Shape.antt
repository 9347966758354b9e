-- ===== src/Server/ResponsesStream/Shape.antt =====
-- The events that `responses_stream_map` sends.
use xrouter.Common.{
  ℕ, ◌≡◌, refl, sym, ap, ◌∙◌, true, false, Option, none, some, List, [], ◌∷◌, ◌++◌, map, Text, All,
  codes, subst,
}
use xrouter.Json.{Value, get}
use xrouter.Server.Stream.{push_chunk, break_lines}
use xrouter.Server.Stream.Chunks.{
  HasNoBreak, break_lines-append, break_lines-skip, break_lines-HasNoBreak,
}
use xrouter.Server.ResponsesStream.{
  ResponsesStreamTranslator, new, created, delta_event, completed, take_usage, process_value,
  process_lines, line_value, push, flush, flush_value, flush_buf, push_all, responses_stream_map,
}
use xrouter.Server.ResponsesStream.Texts.{
  joined, IsFilled, line_texts, lines_texts, lines_texts-append, line_texts-line_value,
}
use xrouter.Server.ResponsesStream.Extended.{
  IsExtended, IsExtended-refl, IsExtended-trans, process_value-IsExtended,
}

-- What the end of the stream keeps.
record IsKept (a b : ResponsesStreamTranslator) : Type 0 where
  response_id : b.response_id ≡ a.response_id
  model : b.model ≡ a.model
  answer : b.answer ≡ a.answer
  finished : b.finished ≡ a.finished

take_usage-IsKept :
    (usage : Option Value) (tr : ResponsesStreamTranslator) → IsKept tr (take_usage usage tr)
unfolding take_usage
take_usage-IsKept none tr = record {
  response_id = refl;
  model = refl;
  answer = refl;
  finished = refl;
}
take_usage-IsKept (some v) tr = record {
  response_id = refl;
  model = refl;
  answer = refl;
  finished = refl;
}

module _ (parse : Text → Option Value) where
  flush_value-IsKept :
      (v : Option Value) (tr : ResponsesStreamTranslator)
      → IsKept tr (flush_value parse v (record tr { line_buf = [] }))
  flush_value-IsKept none tr = record {
    response_id = refl;
    model = refl;
    answer = refl;
    finished = refl;
  }
  flush_value-IsKept (some v) tr =
      let k = take_usage-IsKept (get v (codes "usage")) (record tr { line_buf = [] }) in
      record {
        response_id = k.response_id;
        model = k.model;
        answer = k.answer;
        finished = k.finished;
      }

  flush_buf-IsKept :
      (buf : Text) (tr : ResponsesStreamTranslator) → IsKept tr (flush_buf parse buf tr)
  flush_buf-IsKept [] tr = record {
    response_id = refl;
    model = refl;
    answer = refl;
    finished = refl;
  }
  flush_buf-IsKept (c ∷ s) tr = flush_value-IsKept (line_value parse (c ∷ s)) tr

  process_line-IsExtended :
      (line : Text) (tr : ResponsesStreamTranslator)
      → IsExtended
          (line_texts parse line)
          tr.line_buf
          tr
          (process_value (line_value parse line) tr).0
          (process_value (line_value parse line) tr).1
  process_line-IsExtended line tr =
      subst
        (λ ts.
          IsExtended ts tr.line_buf tr (process_value (line_value parse line) tr).0
            (process_value (line_value parse line) tr).1)
        (line_texts-line_value parse line) (process_value-IsExtended (line_value parse line) tr)

  process_lines-IsExtended :
      (lines : List Text) (tr : ResponsesStreamTranslator)
      → IsExtended
          (lines_texts parse lines)
          tr.line_buf
          tr
          (process_lines parse lines tr).0
          (process_lines parse lines tr).1
  unfolding process_lines lines_texts
  process_lines-IsExtended [] tr = IsExtended-refl tr
  process_lines-IsExtended (line ∷ lines) tr =
      let s = process_line-IsExtended line tr in
      let tr1 = (process_value (line_value parse line) tr).1 in
      let t = process_lines-IsExtended lines tr1 in
      subst
        (λ b.
          IsExtended (line_texts parse line ++ lines_texts parse lines) b tr
            (process_lines parse (line ∷ lines) tr).0 (process_lines parse (line ∷ lines) tr).1)
        s.buffer (IsExtended-trans s t)

  -- A later chunk sends deltas only.
  push-IsExtended :
      (chunk : Text) (tr : ResponsesStreamTranslator)
      → tr.started ≡ true
      → IsExtended
          (lines_texts parse (push_chunk tr.line_buf chunk).0)
          (push_chunk tr.line_buf chunk).1
          tr
          (push parse chunk tr).0
          (push parse chunk tr).1
  unfolding push
  push-IsExtended chunk tr h =
      let (lines, rest) = push_chunk tr.line_buf chunk in
      let s = process_lines-IsExtended lines (record tr { started = true; line_buf = rest }) in
      rw h (record {
        frames_eq = s.frames_eq;
        filled = s.filled;
        answer = s.answer;
        buffer = s.buffer;
        response_id = s.response_id;
        model = s.model;
        started = s.started;
        finished = s.finished;
      })

  -- The texts of chunks after a buffer, and the buffer then.
  unfoldable chunks_texts : Text → List Text → List Text × Text
  chunks_texts buf [] = ([], buf)
  chunks_texts buf (c ∷ cs) =
      let (lines, rest) = push_chunk buf c in
      let (ts, last) = chunks_texts rest cs in (lines_texts parse lines ++ ts, last)

  push_all-IsExtended :
      (chunks : List Text) (tr : ResponsesStreamTranslator) (buf : Text)
      → tr.line_buf ≡ buf
      → tr.started ≡ true
      → IsExtended
          (chunks_texts buf chunks).0
          (chunks_texts buf chunks).1
          tr
          (push_all parse chunks tr).0
          (push_all parse chunks tr).1
  unfolding push_all chunks_texts
  push_all-IsExtended [] tr buf e h = subst (λ b. IsExtended [] b tr [] tr) e (IsExtended-refl tr)
  push_all-IsExtended (c ∷ cs) tr buf e h =
      let s =
        subst
          (λ b.
            IsExtended (lines_texts parse (push_chunk b c).0) (push_chunk b c).1 tr
              (push parse c tr).0 (push parse c tr).1)
          e (push-IsExtended c tr h) in
      IsExtended-trans s
        (push_all-IsExtended cs (push parse c tr).1 (push_chunk buf c).1 s.buffer (s.started ∙ h))

  -- They are the texts of the lines of all chunks together.
  chunks_texts-lines :
      (buf : Text) (chunks : List Text)
      → HasNoBreak buf
      → (chunks_texts buf chunks).0 ≡ lines_texts parse (break_lines buf (joined chunks)).0
  unfolding chunks_texts joined break_lines lines_texts push_chunk
  chunks_texts-lines buf [] h = refl
  chunks_texts-lines buf (c ∷ cs) h =
      let first : push_chunk buf c ≡ break_lines buf c = break_lines-skip [] buf c h in
      let r = break_lines buf c in
      rw (first, break_lines-append buf c (joined cs))
        (ap (λ ts. lines_texts parse r.0 ++ ts)
            (chunks_texts-lines r.1 cs (break_lines-HasNoBreak buf c h))
          ∙ sym (lines_texts-append parse r.0 (break_lines r.1 (joined cs)).0))

  -- The end of the stream.
  flush-completed :
      (tr : ResponsesStreamTranslator)
      → tr.finished ≡ false
      → (usage_in usage_out : ℕ) × ((flush parse tr).0
          ≡ completed tr.response_id tr.model tr.answer usage_in usage_out ∷ [])
  unfolding flush
  flush-completed tr h =
      let tr' = flush_buf parse tr.line_buf tr in
      let k = flush_buf-IsKept tr.line_buf tr in
      let open_still : tr'.finished ≡ false = k.finished ∙ h in
      (
        tr'.usage_in,
        tr'.usage_out,
        rw (flush, open_still)
            (λ i.
              completed (k.response_id i) (k.model i) (k.answer i) tr'.usage_in tr'.usage_out ∷ []),
      )

  -- A stream of at least one chunk gives one created event, then in order a delta for each text that
  -- is not empty and that a line of the chunks joined has as `choices[0].delta.content`, then one
  -- completed event, whose answer is these texts, all with the id and the model of the response. The
  -- chunks' text behind its last newline is no line.
  pub responses_stream_map-shape :
      (response_id model chunk : Text) (chunks : List Text)
      → let texts = lines_texts parse (break_lines [] (joined (chunk ∷ chunks))).0 in
        (usage_in usage_out : ℕ) × All IsFilled texts
        × (responses_stream_map parse response_id model (chunk ∷ chunks)
            ≡ created response_id model
              ∷ (map delta_event texts
                  ++ completed response_id model (joined texts) usage_in usage_out ∷ []))
  unfolding responses_stream_map push_all push chunks_texts
  responses_stream_map-shape response_id model chunk chunks =
      let (lines, rest) = push_chunk [] chunk in
      let first =
        process_lines-IsExtended lines
          (record (new response_id model) { started = true; line_buf = rest }) in
      let tr1 = (push parse chunk (new response_id model)).1 in
      let s =
        IsExtended-trans first (push_all-IsExtended chunks tr1 rest first.buffer first.started) in
      let tr2 = (push_all parse chunks tr1).1 in
      let (usage_in, usage_out, e) = flush-completed tr2 s.finished in
      let ts = (chunks_texts [] (chunk ∷ chunks)).0 in
      subst
        (λ (texts : List Text).
          (usage_in usage_out : ℕ) × All IsFilled texts
          × (responses_stream_map parse response_id model (chunk ∷ chunks)
              ≡ created response_id model
                ∷ (map delta_event texts
                    ++ completed response_id model (joined texts) usage_in usage_out ∷ [])))
        (chunks_texts-lines [] (chunk ∷ chunks) tt)
        (
          usage_in,
          usage_out,
          s.filled,
          (λ i. created response_id model ∷ (s.frames_eq i ++ e i)) ∙ (λ i.
              created response_id model
              ∷ (map delta_event ts
                  ++ completed (s.response_id i) (s.model i) (s.answer i) usage_in usage_out ∷ [])),
        )
