-- ===== src/Server/AnthropicStream/Tools.antt =====
-- crates/xrouter-server/src/translate.rs: the indices of tool calls in
-- `translate_sse_anthropic_to_openai_chunk_st`.
use xrouter.Common.{
  ℕ, ◌+◌, ◌<◌, ◌≡◌, refl, sym, ap, ◌⊎◌, option_or, ◌∙◌, Bool, true, false, Option, none, some, List,
  [], ◌∷◌, Text, codes, text_eq, arith, if◌then◌else◌, Bool-cases, Option-cases, inl, inr, ◌==◌,
  ==_iff,
}
use xrouter.Json.{Value, get, get_in, as_str, as_u64}
use xrouter.Server.Sse.{Frame, done}
use xrouter.Server.AnthropicStream.{
  AnthToOaStreamState, new_state, find_tool, set_tool, block_started, value_event, translate,
  run_events,
}

some_inj : (t u : ℕ × Text × Text) → some t ≡ some u → t ≡ u
some_inj t u h = cc

find_tool-set_tool :
    (i j : ℕ) (t : ℕ × Text × Text) (ts : List (ℕ × (ℕ × Text × Text)))
    → find_tool j (set_tool i t ts) ≡ (if i == j then some t else find_tool j ts)
unfolding find_tool set_tool
find_tool-set_tool i j t [] = refl
find_tool-set_tool i j t ((k, u) ∷ ts) =
    ground (arith, ==_iff i j, ==_iff k i, ==_iff k j, find_tool-set_tool i j t ts)

pub set_tool-eq-some :
    (i j : ℕ) (t u : ℕ × Text × Text) (ts : List (ℕ × (ℕ × Text × Text)))
    → find_tool j (set_tool i t ts) ≡ some u
    → ((j ≡ i) × (u ≡ t)) ⊎ (find_tool j ts ≡ some u)
set_tool-eq-some i j t u ts h = elim (Bool-cases (i == j)) [
  | inl e ↦ inl (
    sym ((==_iff i j).0 e),
    sym (
        some_inj t u (
          sym (find_tool-set_tool i j t ts ∙ ap (λ b. if b then some t else find_tool j ts) e)
          ∙ h)),
  )
  | inr e ↦
      inr (sym (find_tool-set_tool i j t ts ∙ ap (λ b. if b then some t else find_tool j ts) e) ∙ h)
]

-- The calls of distinct blocks have distinct indices, all below the next one.
pub record IsIndexed (st : AnthToOaStreamState) : Type 0 where
  pub below :
      (i : ℕ) (t : ℕ × Text × Text) → find_tool i st.tool_blocks ≡ some t → t.0 < st.next_tool_index
  pub distinct :
      (i j : ℕ) (t u : ℕ × Text × Text)
      → find_tool i st.tool_blocks ≡ some t
      → find_tool j st.tool_blocks ≡ some u
      → t.0 ≡ u.0
      → i ≡ j

add_tool-IsIndexed :
    (st : AnthToOaStreamState) (index : ℕ) (id name : Text)
    → IsIndexed st
    → IsIndexed (record st {
      next_tool_index = st.next_tool_index + 1;
      tool_blocks = set_tool index (st.next_tool_index, id, name) st.tool_blocks;
    })
add_tool-IsIndexed st index id name v =
    let new : ℕ × Text × Text = (st.next_tool_index, id, name) in
    record {
      below = λ i t h. elim (set_tool-eq-some index i new t st.tool_blocks h) [
        | inl (a, b) ↦ omega (arith, ap (λ (x : ℕ × Text × Text). x.0) b)
        | inr k ↦ omega (arith, v.below i t k)
      ];
      distinct = λ i j t u h k e. elim (set_tool-eq-some index i new t st.tool_blocks h) [
        | inl (a, b) ↦ elim (set_tool-eq-some index j new u st.tool_blocks k) [
          | inl (c, d) ↦ a ∙ sym c
          | inr o ↦ omega (arith, e, ap (λ (x : ℕ × Text × Text). x.0) b, v.below j u o)
        ]
        | inr o ↦ elim (set_tool-eq-some index j new u st.tool_blocks k) [
          | inl (c, d) ↦ omega (arith, e, ap (λ (x : ℕ × Text × Text). x.0) d, v.below i t o)
          | inr q ↦ v.distinct i j t u o q e
        ]
      ];
    }

if_state :
    (b : Bool) (x y : Option Frame × AnthToOaStreamState)
    → IsIndexed x.1
    → IsIndexed y.1
    → IsIndexed (if b then x else y).1
if_state true x y h k = h
if_state false x y h k = k

pub new_state-IsIndexed : IsIndexed new_state
unfolding find_tool
new_state-IsIndexed = record { below = λ i t h. cc; distinct = λ i j t u h k e. cc }

-- What `message_stop` does.
abbrev pub stopping : AnthToOaStreamState → Option Frame × AnthToOaStreamState
stopping st = if st.finished then (none, st) else (some done, record st { finished = true })

stopped : (st : AnthToOaStreamState) → IsIndexed st → IsIndexed (stopping st).1
stopped st h = if_state st.finished _ _ h (record { below = h.below; distinct = h.distinct })

block_started-IsIndexed :
    (v : Value) (st : AnthToOaStreamState) → IsIndexed st → IsIndexed (block_started v st).1
unfolding block_started
block_started-IsIndexed v st h =
    if_state
      (text_eq (option_or (as_str (get_in (get v (codes "content_block")) (codes "type"))) [])
        (codes "tool_use"))
      _ _
      (add_tool-IsIndexed st (option_or (as_u64 (get v (codes "index"))) 0)
        (option_or (as_str (get_in (get v (codes "content_block")) (codes "id"))) [])
        (option_or (as_str (get_in (get v (codes "content_block")) (codes "name"))) []) h)
      h

-- The other events leave the tools alone.
value_event-IsIndexed :
    (name : Text) (v : Value) (st : AnthToOaStreamState)
    → IsIndexed st
    → IsIndexed (value_event name v st).1
unfolding value_event
value_event-IsIndexed name v st h = if_state (text_eq name (codes "message_start")) _ _ h (
    if_state (text_eq name (codes "content_block_start")) _ _ (block_started-IsIndexed v st h) (
      if_state (text_eq name (codes "content_block_delta")) _ _ h
        (if_state (text_eq name (codes "message_delta")) _ _ h h)))

translate-IsIndexed :
    (parse : Text → Option Value) (name body : Text) (st : AnthToOaStreamState)
    → IsIndexed st
    → IsIndexed (translate parse name body st).1
unfolding translate
translate-IsIndexed parse name body st h = elim (Option-cases (parse body)) [
  | inl n ↦ rw (translate, n) (if_state (text_eq name (codes "message_stop")) _ _ (stopped st h) h)
  | inr (v, e) ↦
      rw (translate, e)
        (if_state (text_eq name (codes "message_stop")) _ _ (stopped st h)
          (value_event-IsIndexed name v st h))
]

pub run_events-IsIndexed :
    (parse : Text → Option Value) (es : List (Text × Text)) (st : AnthToOaStreamState)
    → IsIndexed st
    → IsIndexed (run_events parse es st).1
unfolding run_events
run_events-IsIndexed parse [] st h = h
run_events-IsIndexed parse ((name, body) ∷ es) st h =
    run_events-IsIndexed parse es (translate parse name body st).1
      (translate-IsIndexed parse name body st h)
