-- ===== src/Server/AnthropicStream/Once.antt =====
-- crates/xrouter-server/src/translate.rs: the end mark in `translate_sse_anthropic_to_openai_chunk_st`.
use xrouter.Common.{
  ℕ, suc, ◌+◌, ◌≡◌, Option, List, [], ◌∷◌, ◌++◌, Text, to_count, arith, Option-cases, inl, inr,
}
use xrouter.Json.{Value}
use xrouter.Server.Sse.{Frame, event, payload, done, text}
use xrouter.Server.AnthropicStream.{
  AnthToOaStreamState, block_started, block_delta, value_event, translate, pushed, run_events,
}

-- How often the end marker of an OpenAI stream is sent.
unfoldable pub dones : List Frame → ℕ
dones [] = 0
dones (done ∷ fs) = suc (dones fs)
dones (event n v ∷ fs) = dones fs
dones (payload v ∷ fs) = dones fs
dones (text s ∷ fs) = dones fs

dones-append : (xs ys : List Frame) → dones (xs ++ ys) ≡ dones xs + dones ys
unfolding dones
dones-append [] ys = omega arith
dones-append (done ∷ fs) ys = omega (arith, dones-append fs ys)
dones-append (event n v ∷ fs) ys = dones-append fs ys
dones-append (payload v ∷ fs) ys = dones-append fs ys
dones-append (text s ∷ fs) ys = dones-append fs ys

-- A step that sends the end marker just when it finishes the stream.
abbrev pub IsEnded : AnthToOaStreamState → List Frame × AnthToOaStreamState → Type 0
IsEnded st r = to_count st.finished + dones r.0 ≡ to_count r.1.finished

block_delta-dones : (v : Value) (st : AnthToOaStreamState) → dones (pushed (block_delta v st)) ≡ 0
unfolding block_delta dones
block_delta-dones v st = ground arith

value_event-IsEnded :
    (name : Text) (v : Value) (st : AnthToOaStreamState)
    → IsEnded st (pushed (value_event name v st).0, (value_event name v st).1)
unfolding value_event block_started dones
value_event-IsEnded name v st = ground (arith, block_delta-dones v st)

translate-IsEnded :
    (parse : Text → Option Value) (name body : Text) (st : AnthToOaStreamState)
    → IsEnded st (pushed (translate parse name body st).0, (translate parse name body st).1)
unfolding translate dones
translate-IsEnded parse name body st = elim (Option-cases (parse body)) [
  | inl n ↦ ground (arith, n)
  | inr (v, e) ↦ ground (arith, e, value_event-IsEnded name v st)
]

-- Over any events, and from any state, the number of end markers that are sent is 1 if the stream
-- became finished and 0 if not. The events are those that the translator of translate.rs gets.
pub run_events-IsEnded :
    (parse : Text → Option Value) (es : List (Text × Text)) (st : AnthToOaStreamState)
    → IsEnded st (run_events parse es st)
unfolding run_events dones
run_events-IsEnded parse [] st = omega arith
run_events-IsEnded parse ((name, body) ∷ es) st =
    let (f, st') = translate parse name body st in
    omega (
      arith,
      dones-append (pushed f) (run_events parse es st').0,
      translate-IsEnded parse name body st,
      run_events-IsEnded parse es st',
    )
