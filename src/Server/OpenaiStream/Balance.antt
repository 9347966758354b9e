-- ===== src/Server/OpenaiStream/Balance.antt =====
-- crates/xrouter-server/src/translate.rs: the content blocks of
-- `translate_sse_openai_to_anthropic_chunk_st`, counted by their index.
use xrouter.Common.{
  ℕ, ◌+◌, ◌≡◌, refl, Option, none, some, List, [], ◌∷◌, ◌++◌, Text, codes, text_eq, to_count, arith,
  option_or, Bool, false, ◌&&◌, ◌==◌,
}
use xrouter.Json.{Value, get, as_u64, find_field}
use xrouter.Server.Sse.{Frame, event, payload, done, text}
use xrouter.Server.OpenaiStream.{
  ToolBlock, OaToAnthStreamState, find_block, set_block, close_text, close_tools, start_message,
  push_text, claim_block, start_block, name_block, push_args, push_tool, push_tools, tool_part,
}

-- How many frames have this event name.
unfoldable pub events_named : Text → List Frame → ℕ
events_named name [] = 0
events_named name (event n v ∷ fs) = to_count (text_eq n name) + events_named name fs
events_named name (payload v ∷ fs) = events_named name fs
events_named name (done ∷ fs) = events_named name fs
events_named name (text s ∷ fs) = events_named name fs

pub events_named-append :
    (name : Text) (xs ys : List Frame)
    → events_named name (xs ++ ys) ≡ events_named name xs + events_named name ys
unfolding events_named
events_named-append name [] ys = omega arith
events_named-append name (event n v ∷ fs) ys = omega (arith, events_named-append name fs ys)
events_named-append name (payload v ∷ fs) ys = events_named-append name fs ys
events_named-append name (done ∷ fs) ys = events_named-append name fs ys
events_named-append name (text s ∷ fs) ys = events_named-append name fs ys

-- The index of a content block that an event is about.
abbrev pub is_about : ℕ → Value → Bool
is_about at_index v = elim (as_u64 (get v (codes "index"))) [
  | none ↦ false
  | some j ↦ j == at_index
]

-- How many frames have this event name and are about the block of this index.
unfoldable pub block_events : ℕ → Text → List Frame → ℕ
block_events at_index name [] = 0
block_events at_index name (event n v ∷ fs) =
    to_count (text_eq n name && is_about at_index v) + block_events at_index name fs
block_events at_index name (payload v ∷ fs) = block_events at_index name fs
block_events at_index name (done ∷ fs) = block_events at_index name fs
block_events at_index name (text s ∷ fs) = block_events at_index name fs

pub block_events-append :
    (at_index : ℕ) (name : Text) (xs ys : List Frame)
    → block_events at_index name (xs ++ ys)
      ≡ block_events at_index name xs + block_events at_index name ys
unfolding block_events
block_events-append at_index name [] ys = omega arith
block_events-append at_index name (event n v ∷ fs) ys =
    omega (arith, block_events-append at_index name fs ys)
block_events-append at_index name (payload v ∷ fs) ys = block_events-append at_index name fs ys
block_events-append at_index name (done ∷ fs) ys = block_events-append at_index name fs ys
block_events-append at_index name (text s ∷ fs) ys = block_events-append at_index name fs ys

abbrev pub starts : ℕ → List Frame → ℕ
starts at_index = block_events at_index (codes "content_block_start")

abbrev pub stops : ℕ → List Frame → ℕ
stops at_index = block_events at_index (codes "content_block_stop")

-- How many open blocks of this index a client has.
unfoldable pub started_tools : ℕ → List (ℕ × ToolBlock) → ℕ
started_tools at_index [] = 0
started_tools at_index ((i, tb) ∷ bs) =
    to_count (tb.started && tb.block_index == at_index) + started_tools at_index bs

abbrev pub open_blocks : ℕ → OaToAnthStreamState → ℕ
open_blocks at_index st =
    to_count (st.text_block_started && st.text_block_index == at_index)
    + started_tools at_index st.tool_blocks

unfoldable pub started_at : ℕ → Option ToolBlock → ℕ
started_at at_index none = 0
started_at at_index (some tb) = to_count (tb.started && tb.block_index == at_index)

module _ (at_index : ℕ) where
  -- A step that ends in as many open blocks as it started with, plus those that it started, minus those
  -- that it stopped.
  abbrev pub IsBalanced : OaToAnthStreamState → List Frame × OaToAnthStreamState → Type 0
  IsBalanced st r =
      open_blocks at_index st + starts at_index r.0 ≡ open_blocks at_index r.1 + stops at_index r.0

  pub close_text-IsBalanced : (st : OaToAnthStreamState) → IsBalanced st (close_text st)
  unfolding close_text block_events text_eq find_field
  close_text-IsBalanced st = ground arith

  pub close_tools-stops :
      (bs : List (ℕ × ToolBlock))
      → (stops at_index (close_tools bs) ≡ started_tools at_index bs)
        × (starts at_index (close_tools bs) ≡ 0)
  unfolding close_tools started_tools block_events text_eq find_field
  close_tools-stops [] = (refl, refl)
  close_tools-stops ((i, tb) ∷ bs) = ground (arith, close_tools-stops bs)

  pub start_message-IsBalanced :
      (val : Value) (delta : Option Value) (st : OaToAnthStreamState)
      → IsBalanced st (start_message val delta st)
  unfolding start_message block_events text_eq find_field
  start_message-IsBalanced val delta st = ground arith

  pub push_text-IsBalanced : (s : Text) (st : OaToAnthStreamState) → IsBalanced st (push_text s st)
  unfolding push_text block_events text_eq find_field
  push_text-IsBalanced s st = ground arith

  started_tools-set_block :
      (i : ℕ) (tb : ToolBlock) (bs : List (ℕ × ToolBlock))
      → started_tools at_index (set_block i tb bs) + started_at at_index (find_block i bs)
        ≡ started_tools at_index bs + to_count (tb.started && tb.block_index == at_index)
  unfolding started_tools set_block find_block started_at
  started_tools-set_block i tb [] = omega arith
  started_tools-set_block i tb ((j, tc) ∷ bs) = ground (arith, started_tools-set_block i tb bs)

  pub start_block-count :
      (tb : ToolBlock)
      → (to_count (tb.started && tb.block_index == at_index) + starts at_index (start_block tb).0
          ≡ to_count ((start_block tb).1.started && (start_block tb).1.block_index == at_index))
        × (stops at_index (start_block tb).0 ≡ 0)
  unfolding start_block block_events text_eq find_field
  start_block-count tb = ground arith

  pub push_args-count :
      (tc : Value) (tb : ToolBlock)
      → (starts at_index (push_args tc tb) ≡ 0) × (stops at_index (push_args tc tb) ≡ 0)
  unfolding push_args block_events text_eq find_field
  push_args-count tc tb = ground arith

  pub claim_block-count :
      (idx : ℕ) (st : OaToAnthStreamState)
      → (to_count ((claim_block idx st).0.started && (claim_block idx st).0.block_index == at_index)
          ≡ started_at at_index (find_block idx st.tool_blocks))
        × ((claim_block idx st).1.tool_blocks ≡ st.tool_blocks)
        × ((claim_block idx st).1.text_block_started ≡ st.text_block_started)
        × ((claim_block idx st).1.text_block_index ≡ st.text_block_index)
        × ((claim_block idx st).1.finished ≡ st.finished)
  unfolding claim_block started_at
  claim_block-count idx st = ground arith

  pub push_tool-IsBalanced :
      (tc : Value) (st : OaToAnthStreamState) → IsBalanced st (push_tool tc st)
  unfolding push_tool
  push_tool-IsBalanced tc st =
      let idx = option_or (as_u64 (get tc (codes "index"))) 0 in
      let tb = (claim_block idx st).0 in
      let tb' = (start_block (name_block tc tb)).1 in
      let out = (start_block (name_block tc tb)).0 in
      let (same_started, same_blocks, same_text, same_index, _) = claim_block-count idx st in
      rw (same_blocks, same_text, same_index)
        (omega (
          arith,
          same_started,
          start_block-count (name_block tc tb),
          push_args-count tc tb',
          started_tools-set_block idx tb' st.tool_blocks,
          block_events-append at_index (codes "content_block_start") out (push_args tc tb'),
          block_events-append at_index (codes "content_block_stop") out (push_args tc tb'),
        ))

  -- Two steps in a row.
  pub then-IsBalanced :
      (st st' st'' : OaToAnthStreamState) (xs ys : List Frame)
      → IsBalanced st (xs, st')
      → IsBalanced st' (ys, st'')
      → IsBalanced st (xs ++ ys, st'')
  then-IsBalanced st st' st'' xs ys h k = omega (
    arith,
    block_events-append at_index (codes "content_block_start") xs ys,
    block_events-append at_index (codes "content_block_stop") xs ys,
  )

  pub push_tools-IsBalanced :
      (tcs : List Value) (st : OaToAnthStreamState) → IsBalanced st (push_tools tcs st)
  unfolding push_tools block_events
  push_tools-IsBalanced [] st = refl
  push_tools-IsBalanced (tc ∷ tcs) st =
      then-IsBalanced st (push_tool tc st).1 (push_tools tcs (push_tool tc st).1).1
        (push_tool tc st).0 (push_tools tcs (push_tool tc st).1).0 (push_tool-IsBalanced tc st)
        (push_tools-IsBalanced tcs (push_tool tc st).1)

  pub tool_part-IsBalanced :
      (tcs : Option (List Value)) (st : OaToAnthStreamState) → IsBalanced st (tool_part tcs st)
  unfolding tool_part block_events
  tool_part-IsBalanced none st = refl
  tool_part-IsBalanced (some tcs) st =
      then-IsBalanced st (close_text st).1 (push_tools tcs (close_text st).1).1 (close_text st).0
        (push_tools tcs (close_text st).1).0 (close_text-IsBalanced st)
        (push_tools-IsBalanced tcs (close_text st).1)
