-- ===== src/Server/OpenaiStream/Closing.antt =====
-- crates/xrouter-server/src/translate.rs: the end of a stream that is translated for an Anthropic client.
use xrouter.Common.{
  ℕ, ◌+◌, ◌≡◌, refl, ◌∙◌, ap, true, false, not, ◌&&◌, Option, none, some, List, [], ◌∷◌, ◌++◌, Text,
  codes, text_eq, arith, if◌then◌else◌, Bool-cases, ◌⊎◌, inl, inr, option_or,
}
use xrouter.Json.{Value, get, get_in, as_str, as_u64, as_array, find_field}
use xrouter.Server.Sse.{Frame, message_stop}
use xrouter.Server.OpenaiStream.{
  OaToAnthStreamState, new_state, close_text, close_tools, done_chunk, start_message, push_text,
  text_of, push_tool, push_tools, tool_part, message_delta, finish_part, choice_chunk, chunk,
  chunk_cases, run_chunks, is_empty,
}
use xrouter.Server.OpenaiStream.Once.{chunk-IsMarked, run_chunks-IsMarked}
use xrouter.Server.OpenaiStream.Balance.{
  block_events, block_events-append, starts, stops, started_tools, open_blocks, IsBalanced,
  close_tools-stops, start_message-IsBalanced, push_text-IsBalanced, then-IsBalanced,
  tool_part-IsBalanced, claim_block-count,
}

module _ (at_index : ℕ) where
  -- What a client has open after a step: nothing once the stream is finished.
  abbrev pub left_open : OaToAnthStreamState → ℕ
  left_open st = if st.finished then 0 else open_blocks at_index st

  abbrev pub IsClosing : OaToAnthStreamState → List Frame × OaToAnthStreamState → Type 0
  IsClosing st r =
      open_blocks at_index st + starts at_index r.0 ≡ left_open r.1 + stops at_index r.0

  abbrev closing : OaToAnthStreamState → List Frame → List Frame
  closing st tail = (close_text st).0 ++ (close_tools (close_text st).1.tool_blocks ++ tail)

  closing-count :
      (st : OaToAnthStreamState) (tail : List Frame)
      → starts at_index tail ≡ 0
      → stops at_index tail ≡ 0
      → (stops at_index (closing st tail) ≡ open_blocks at_index st)
        × (starts at_index (closing st tail) ≡ 0)
  unfolding close_text block_events text_eq find_field
  closing-count st tail h k =
      let bs = (close_text st).1.tool_blocks in
      ground (
        arith,
        h,
        k,
        close_tools-stops at_index st.tool_blocks,
        block_events-append at_index (codes "content_block_start") (close_tools st.tool_blocks)
            tail,
        block_events-append at_index (codes "content_block_stop") (close_tools st.tool_blocks) tail,
      )

  -- The state after the closing frames.
  abbrev closed : OaToAnthStreamState → OaToAnthStreamState
  closed st = record (close_text st).1 { finished = true }

  done_chunk-closing :
      (st : OaToAnthStreamState)
      → st.finished ≡ false
      → done_chunk st ≡ (closing st (message_stop ∷ []), closed st)
  unfolding done_chunk
  done_chunk-closing st going =
      ap (λ b. if b then ([], st) else (closing st (message_stop ∷ []), closed st)) going

  pub done_chunk-IsClosing :
      (st : OaToAnthStreamState) → st.finished ≡ false → IsClosing st (done_chunk st)
  unfolding block_events text_eq find_field
  done_chunk-IsClosing st going =
      rw (done_chunk-closing st going)
        (omega (arith, closing-count st (message_stop ∷ []) refl refl))

  -- A chunk does nothing for its finish reason, or closes all blocks and ends the stream.
  finish_part-cases :
      (val : Value) (finish : Option Text) (st : OaToAnthStreamState)
      → (finish_part val finish st ≡ ([], st))
        ⊎ ((s : Text) × (finish_part val finish st
              ≡ (closing st (message_delta val s ∷ message_stop ∷ []), closed st)))
  unfolding finish_part
  finish_part-cases val none st = inl refl
  finish_part-cases val (some s) st =
      elim (Bool-cases (not (is_empty s) && not (text_eq s (codes "null")) && not st.finished)) [
        | inl e ↦ inr (
          s,
          ap
              (λ b.
                if b
                then (closing st (message_delta val s ∷ message_stop ∷ []), closed st)
                else ([], st))
              e,
        )
        | inr e ↦ inl (
            ap
              (λ b.
                if b
                then (closing st (message_delta val s ∷ message_stop ∷ []), closed st)
                else ([], st))
              e)
      ]

  finish_part-IsClosing :
      (val : Value) (finish : Option Text) (st : OaToAnthStreamState)
      → st.finished ≡ false
      → IsClosing st (finish_part val finish st)
  unfolding block_events text_eq find_field
  finish_part-IsClosing val finish st going = elim (finish_part-cases val finish st) [
    | inl e ↦ rw e (ground arith)
    | inr (s, e) ↦
        rw e (omega (arith, closing-count st (message_delta val s ∷ message_stop ∷ []) refl refl))
  ]

  -- The first three parts do not end the stream.
  parts-finished :
      (val : Value) (delta : Option Value) (s : Text) (tcs : Option (List Value))
      (st : OaToAnthStreamState)
      → ((start_message val delta st).1.finished ≡ st.finished)
        × ((push_text s st).1.finished ≡ st.finished)
        × ((close_text st).1.finished ≡ st.finished)
  unfolding start_message push_text close_text
  parts-finished val delta s tcs st = (ground arith, ground arith, ground arith)

  push_tools-finished :
      (tcs : List Value) (st : OaToAnthStreamState) → (push_tools tcs st).1.finished ≡ st.finished
  unfolding push_tools push_tool
  push_tools-finished [] st = refl
  push_tools-finished (tc ∷ tcs) st =
      push_tools-finished tcs (push_tool tc st).1
      ∙ (claim_block-count at_index (option_or (as_u64 (get tc (codes "index"))) 0) st).4

  tool_part-finished :
      (tcs : Option (List Value)) (st : OaToAnthStreamState)
      → (tool_part tcs st).1.finished ≡ st.finished
  unfolding tool_part close_text
  tool_part-finished none st = refl
  tool_part-finished (some tcs) st = push_tools-finished tcs (close_text st).1 ∙ (ground arith)

  -- The frames of one chunk balance the blocks: what was open and what is started is stopped, or is
  -- still open and the stream goes on.
  pub choice_chunk-IsClosing :
      (val choice : Value) (st : OaToAnthStreamState)
      → st.finished ≡ false
      → IsClosing st (choice_chunk val choice st)
  unfolding choice_chunk
  choice_chunk-IsClosing val choice st going =
      let delta = get choice (codes "delta") in
      let tcs = as_array (get_in delta (codes "tool_calls")) in
      let r1 = start_message val delta st in
      let r2 = push_text (text_of delta) r1.1 in
      let r3 = tool_part tcs r2.1 in
      let r4 = finish_part val (as_str (get choice (codes "finish_reason"))) r3.1 in
      let going3 : r3.1.finished ≡ false =
        tool_part-finished tcs r2.1
        ∙ (parts-finished val delta (text_of delta) tcs r1.1).1
        ∙ (parts-finished val delta (text_of delta) tcs st).0
        ∙ going in
      omega (
        arith,
        start_message-IsBalanced at_index val delta st,
        push_text-IsBalanced at_index (text_of delta) r1.1,
        tool_part-IsBalanced at_index tcs r2.1,
        finish_part-IsClosing val (as_str (get choice (codes "finish_reason"))) r3.1 going3,
        block_events-append at_index (codes "content_block_start") r1.0 (r2.0 ++ (r3.0 ++ r4.0)),
        block_events-append at_index (codes "content_block_start") r2.0 (r3.0 ++ r4.0),
        block_events-append at_index (codes "content_block_start") r3.0 r4.0,
        block_events-append at_index (codes "content_block_stop") r1.0 (r2.0 ++ (r3.0 ++ r4.0)),
        block_events-append at_index (codes "content_block_stop") r2.0 (r3.0 ++ r4.0),
        block_events-append at_index (codes "content_block_stop") r3.0 r4.0,
      )

  pub chunk-IsClosing :
      (parse : Text → Option Value) (line : Text) (st : OaToAnthStreamState)
      → st.finished ≡ false
      → IsClosing st (chunk parse line st)
  unfolding block_events
  chunk-IsClosing parse line st going =
      chunk_cases (IsClosing st) parse line st (ground arith) (done_chunk-IsClosing st going)
        (λ val choice. choice_chunk-IsClosing val choice st going)

  -- What `Once` says of the flag `finished`: it stays set.
  chunk-stays_finished :
      (parse : Text → Option Value) (line : Text) (st : OaToAnthStreamState)
      → (chunk parse line st).1.finished ≡ false
      → st.finished ≡ false
  chunk-stays_finished parse line st h = ground (arith, chunk-IsMarked parse line st)

  run_chunks-stays_finished :
      (parse : Text → Option Value) (lines : List Text) (st : OaToAnthStreamState)
      → (run_chunks parse lines st).1.finished ≡ false
      → st.finished ≡ false
  run_chunks-stays_finished parse lines st h = ground (arith, run_chunks-IsMarked parse lines st)

  run_chunks-IsBalanced :
      (parse : Text → Option Value) (lines : List Text) (st : OaToAnthStreamState)
      → (run_chunks parse lines st).1.finished ≡ false
      → IsBalanced at_index st (run_chunks parse lines st)
  unfolding run_chunks block_events
  run_chunks-IsBalanced parse [] st h = refl
  run_chunks-IsBalanced parse (line ∷ lines) st h =
      let (out, st') = chunk parse line st in
      let going' : st'.finished ≡ false = run_chunks-stays_finished parse lines st' h in
      let going : st.finished ≡ false = chunk-stays_finished parse line st going' in
      let step : IsClosing st (out, st') = chunk-IsClosing parse line st going in
      then-IsBalanced at_index st st' (run_chunks parse lines st').1 out
        (run_chunks parse lines st').0 (ground (arith, step, going'))
        (run_chunks-IsBalanced parse lines st' h)

  -- When a payload ends a stream that was going on, the content block of each index has been stopped as
  -- often as it was started since the first payload, the blocks of tool calls among them.
  pub run_chunks-closed :
      (parse : Text → Option Value) (lines : List Text) (last : Text)
      → (run_chunks parse lines new_state).1.finished ≡ false
      → (chunk parse last (run_chunks parse lines new_state).1).1.finished ≡ true
      → starts at_index (
          (run_chunks parse lines new_state).0
          ++ (chunk parse last (run_chunks parse lines new_state).1).0)
        ≡ stops at_index (
            (run_chunks parse lines new_state).0
            ++ (chunk parse last (run_chunks parse lines new_state).1).0)
  unfolding started_tools
  run_chunks-closed parse lines last going ends =
      let (xs, st) = run_chunks parse lines new_state in
      let (ys, st') = chunk parse last st in
      let before : IsBalanced at_index new_state (xs, st) =
        run_chunks-IsBalanced parse lines new_state going in
      let after : IsClosing st (ys, st') = chunk-IsClosing parse last st going in
      ground (
        arith,
        before,
        after,
        block_events-append at_index (codes "content_block_start") xs ys,
        block_events-append at_index (codes "content_block_stop") xs ys,
      )
