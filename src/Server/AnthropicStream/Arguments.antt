-- ===== src/Server/AnthropicStream/Arguments.antt =====
-- crates/xrouter-server/src/translate.rs: the arguments of tool calls in
-- `translate_sse_anthropic_to_openai_chunk_st`, by the index of the call that they are sent for.
use xrouter.Common.{
  ℕ, ◌<◌, ◌≤◌, ◌≡◌, refl, sym, ap, ◌∙◌, option_or, Bool, true, false, Option, none, some, List, [],
  ◌∷◌, ◌++◌, Text, codes, text_eq, arith, if◌then◌else◌, Bool-cases, Option-cases, inl, inr,
}
use xrouter.Json.{Value, get, get_in, as_str, as_u64, as_array, first, find_field}
use xrouter.Server.Sse.{Frame, payload}
use xrouter.Server.AnthropicStream.{
  AnthToOaStreamState, new_state, find_tool, block_started, block_delta, value_event, translate,
  run_events,
}
use xrouter.Server.AnthropicStream.Tools.{
  stopping, set_tool-eq-some, run_events-IsIndexed, new_state-IsIndexed,
}

-- What a state that comes later may have: a call whose index was given out before is at the block that
-- it was at.
record IsLater (st st' : AnthToOaStreamState) : Type 0 where
  more : st.next_tool_index ≤ st'.next_tool_index
  kept :
      (i : ℕ) (t : ℕ × Text × Text)
      → find_tool i st'.tool_blocks ≡ some t
      → t.0 < st.next_tool_index
      → find_tool i st.tool_blocks ≡ some t

IsLater-refl : (st : AnthToOaStreamState) → IsLater st st
IsLater-refl st = record { more = omega arith; kept = λ i t h lt. h }

IsLater-trans : {a b c : AnthToOaStreamState} → IsLater a b → IsLater b c → IsLater a c
IsLater-trans r s = record {
  more = omega (arith, r.more, s.more);
  kept = λ i t h lt. r.kept i t (s.kept i t h (omega (arith, r.more))) lt;
}

IsLater-if :
    (b : Bool) (st : AnthToOaStreamState) (x y : Option Frame × AnthToOaStreamState)
    → IsLater st x.1
    → IsLater st y.1
    → IsLater st (if b then x else y).1
IsLater-if true st x y h k = h
IsLater-if false st x y h k = k

stopped-IsLater : (st : AnthToOaStreamState) → IsLater st (stopping st).1
stopped-IsLater st =
    IsLater-if st.finished st _ _ (IsLater-refl st)
      (record { more = omega arith; kept = λ i t h lt. h })

block_started-IsLater : (v : Value) (st : AnthToOaStreamState) → IsLater st (block_started v st).1
unfolding block_started
block_started-IsLater v st =
    let index = option_or (as_u64 (get v (codes "index"))) 0 in
    let id = option_or (as_str (get_in (get v (codes "content_block")) (codes "id"))) [] in
    let name = option_or (as_str (get_in (get v (codes "content_block")) (codes "name"))) [] in
    let new : ℕ × Text × Text = (st.next_tool_index, id, name) in
    elim (Bool-cases (
      text_eq (option_or (as_str (get_in (get v (codes "content_block")) (codes "type"))) [])
        (codes "tool_use"))) [
          | inl e ↦
              rw (e, block_started)
                (record {
                  more = omega arith;
                  kept = λ i t h lt. elim (set_tool-eq-some index i new t st.tool_blocks h) [
                    | inl (a, b) ↦ absurd (omega (arith, lt, ap (λ (x : ℕ × Text × Text). x.0) b))
                    | inr k ↦ k
                  ];
                })
          | inr e ↦ rw (e, block_started) (IsLater-refl st)
        ]

value_event-IsLater :
    (name : Text) (v : Value) (st : AnthToOaStreamState) → IsLater st (value_event name v st).1
unfolding value_event
value_event-IsLater name v st =
    let same = IsLater-refl st in
    IsLater-if (text_eq name (codes "message_start")) st _ _ same (
      IsLater-if (text_eq name (codes "content_block_start")) st _ _ (block_started-IsLater v st) (
        IsLater-if (text_eq name (codes "content_block_delta")) st _ _ same
          (IsLater-if (text_eq name (codes "message_delta")) st _ _ same same)))

translate-IsLater :
    (parse : Text → Option Value) (name body : Text) (st : AnthToOaStreamState)
    → IsLater st (translate parse name body st).1
unfolding translate
translate-IsLater parse name body st = elim (Option-cases (parse body)) [
  | inl n ↦
      rw (translate, n)
        (IsLater-if (text_eq name (codes "message_stop")) st _ _ (stopped-IsLater st)
          (IsLater-refl st))
  | inr (v, e) ↦
      rw (translate, e)
        (IsLater-if (text_eq name (codes "message_stop")) st _ _ (stopped-IsLater st)
          (value_event-IsLater name v st))
]

run_events-IsLater :
    (parse : Text → Option Value) (es : List (Text × Text)) (st : AnthToOaStreamState)
    → IsLater st (run_events parse es st).1
unfolding run_events
run_events-IsLater parse [] st = IsLater-refl st
run_events-IsLater parse ((name, body) ∷ es) st =
    IsLater-trans (translate-IsLater parse name body st)
      (run_events-IsLater parse es (translate parse name body st).1)

-- The index of the tool call in a chunk, as an OpenAI client reads it.
unfoldable pub call_index : Option Frame → Option ℕ
call_index (some (payload v)) =
    let delta = get_in (first (as_array (get v (codes "choices")))) (codes "delta") in
    as_u64 (get_in (first (as_array (get_in delta (codes "tool_calls")))) (codes "index"))
call_index f = none

-- The content block that an event is about.
abbrev pub block_of : Value → ℕ
block_of v = option_or (as_u64 (get v (codes "index"))) 0

block_delta-call_index :
    (v : Value) (st : AnthToOaStreamState) (n : ℕ)
    → call_index (block_delta v st) ≡ some n
    → (t : ℕ × Text × Text) × (find_tool (block_of v) st.tool_blocks ≡ some t) × (t.0 ≡ n)
unfolding block_delta call_index find_field text_eq
block_delta-call_index v st n h =
    elim (Option-cases (as_str (get_in (get v (codes "delta")) (codes "text")))) [
      | inr (s, e) ↦ let bad : none ≡ some n = (rw (e, block_delta) at h) in cc
      | inl e ↦
          elim (Option-cases (as_str (get_in (get v (codes "delta")) (codes "partial_json")))) [
            | inl f ↦ let bad : none ≡ some n = (rw (e, f, block_delta) at h) in cc
            | inr (args, f) ↦ elim (Option-cases (find_tool (block_of v) st.tool_blocks)) [
              | inl g ↦ let bad : none ≡ some n = (rw (e, f, g, block_delta) at h) in cc
              | inr (t, g) ↦
                  let good : some t.0 ≡ some n = (rw (e, f, g, block_delta) at h) in (t, g, cc)
            ]
          ]
    ]

-- The chunk that a delta event leads to.
abbrev pub delta_chunk : (Text → Option Value) → List (Text × Text) → Text → Option Frame
delta_chunk parse es body =
    (translate parse (codes "content_block_delta") body (run_events parse es new_state).1).0

delta_chunk-tool :
    (parse : Text → Option Value) (es : List (Text × Text)) (body : Text) (v : Value) (n : ℕ)
    → parse body ≡ some v
    → call_index (delta_chunk parse es body) ≡ some n
    → (t : ℕ × Text × Text) × (find_tool (block_of v) (run_events parse es new_state).1.tool_blocks
        ≡ some t)
      × (t.0 ≡ n)
unfolding translate value_event text_eq
delta_chunk-tool parse es body v n e h =
    block_delta-call_index v (run_events parse es new_state).1 n (rw e at h)

run_events-append :
    (parse : Text → Option Value) (es ds : List (Text × Text)) (st : AnthToOaStreamState)
    → (run_events parse (es ++ ds) st).1 ≡ (run_events parse ds (run_events parse es st).1).1
unfolding run_events
run_events-append parse [] ds st = refl
run_events-append parse ((name, body) ∷ es) ds st =
    run_events-append parse es ds (translate parse name body st).1

-- In a stream that is translated from its start, two delta events that lead to chunks for the same
-- index of a tool call, the second after any further events, are about the same content block: the
-- arguments of two blocks are never sent for one call.
pub run_events-distinct_tools :
    (parse : Text → Option Value) (es ds : List (Text × Text)) (body body' : Text) (v v' : Value)
    (n : ℕ)
    → parse body ≡ some v
    → parse body' ≡ some v'
    → call_index (delta_chunk parse es body) ≡ some n
    → call_index (delta_chunk parse (es ++ ds) body') ≡ some n
    → block_of v ≡ block_of v'
run_events-distinct_tools parse es ds body body' v v' n p p' h h' =
    let st = (run_events parse es new_state).1 in
    let indexed = run_events-IsIndexed parse es new_state new_state-IsIndexed in
    let (t, at, same) = delta_chunk-tool parse es body v n p h in
    let (t', at', same') = delta_chunk-tool parse (es ++ ds) body' v' n p' h' in
    let moved : find_tool (block_of v') (run_events parse ds st).1.tool_blocks ≡ some t' =
      ap (λ (s : AnthToOaStreamState). find_tool (block_of v') s.tool_blocks)
        (sym (run_events-append parse es ds new_state))
      ∙ at' in
    let early : t'.0 < st.next_tool_index =
      omega (arith, indexed.below (block_of v) t at, same, same') in
    let before = (run_events-IsLater parse ds st).kept (block_of v') t' moved early in
    indexed.distinct (block_of v) (block_of v') t t' at before (same ∙ sym same')
