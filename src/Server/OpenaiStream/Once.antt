-- ===== src/Server/OpenaiStream/Once.antt =====
-- `message_start` and `message_stop` in a translated stream.
use xrouter.Common.{
  ℕ, ◌+◌, ◌≡◌, refl, Option, none, some, List, [], ◌∷◌, ◌++◌, Text, codes, text_eq, to_count, arith,
  Bool-cases, inl, inr,
}
use xrouter.Json.{Value, get, get_in, as_str, as_array}
use xrouter.Server.Sse.{Frame, message_stop}
use xrouter.Server.OpenaiStream.{
  ToolBlock, OaToAnthStreamState, close_text, close_tools, done_chunk, start_message, push_text,
  text_of, claim_block, start_block, push_args, push_tool, push_tools, tool_part, finish_part,
  message_delta, choice_chunk, chunk, chunk_cases, run_chunks,
}
use xrouter.Server.OpenaiStream.Balance.{events_named, events_named-append}

abbrev pub message_starts : List Frame → ℕ
message_starts = events_named (codes "message_start")

abbrev pub message_stops : List Frame → ℕ
message_stops = events_named (codes "message_stop")

-- A step sends `message_start` when it sets the flag, and `message_stop` when it finishes the stream.
abbrev pub IsMarked : OaToAnthStreamState → List Frame × OaToAnthStreamState → Type 0
IsMarked st r =
    (to_count st.message_started + message_starts r.0 ≡ to_count r.1.message_started)
    × (to_count st.finished + message_stops r.0 ≡ to_count r.1.finished)

then-IsMarked :
    (st st' st'' : OaToAnthStreamState) (xs ys : List Frame)
    → IsMarked st (xs, st')
    → IsMarked st' (ys, st'')
    → IsMarked st (xs ++ ys, st'')
then-IsMarked st st' st'' xs ys h k = omega (
  arith,
  events_named-append (codes "message_start") xs ys,
  events_named-append (codes "message_stop") xs ys,
)

start_message-IsMarked :
    (val : Value) (delta : Option Value) (st : OaToAnthStreamState)
    → IsMarked st (start_message val delta st)
unfolding start_message events_named text_eq
start_message-IsMarked val delta st = ground arith

push_text-IsMarked : (s : Text) (st : OaToAnthStreamState) → IsMarked st (push_text s st)
unfolding push_text events_named text_eq
push_text-IsMarked s st = ground arith

close_text-IsMarked : (st : OaToAnthStreamState) → IsMarked st (close_text st)
unfolding close_text events_named text_eq
close_text-IsMarked st = ground arith

close_tools-quiet :
    (bs : List (ℕ × ToolBlock))
    → (message_starts (close_tools bs) ≡ 0) × (message_stops (close_tools bs) ≡ 0)
unfolding close_tools events_named text_eq
close_tools-quiet [] = (refl, refl)
close_tools-quiet ((i, tb) ∷ bs) = ground (arith, close_tools-quiet bs)

push_tool-IsMarked : (tc : Value) (st : OaToAnthStreamState) → IsMarked st (push_tool tc st)
unfolding push_tool claim_block start_block push_args events_named text_eq
push_tool-IsMarked tc st = ground arith

push_tools-IsMarked :
    (tcs : List Value) (st : OaToAnthStreamState) → IsMarked st (push_tools tcs st)
unfolding push_tools events_named
push_tools-IsMarked [] st = omega arith
push_tools-IsMarked (tc ∷ tcs) st =
    then-IsMarked st (push_tool tc st).1 (push_tools tcs (push_tool tc st).1).1 (push_tool tc st).0
      (push_tools tcs (push_tool tc st).1).0 (push_tool-IsMarked tc st)
      (push_tools-IsMarked tcs (push_tool tc st).1)

tool_part-IsMarked :
    (tcs : Option (List Value)) (st : OaToAnthStreamState) → IsMarked st (tool_part tcs st)
unfolding tool_part events_named
tool_part-IsMarked none st = omega arith
tool_part-IsMarked (some tcs) st =
    then-IsMarked st (close_text st).1 (push_tools tcs (close_text st).1).1 (close_text st).0
      (push_tools tcs (close_text st).1).0 (close_text-IsMarked st)
      (push_tools-IsMarked tcs (close_text st).1)

module _ (st : OaToAnthStreamState) (tail : List Frame) where
  closing_frames : List Frame
  closing_frames = (close_text st).0 ++ (close_tools (close_text st).1.tool_blocks ++ tail)

  closing-marks :
      (message_starts closing_frames ≡ message_starts tail)
      × (message_stops closing_frames ≡ message_stops tail)
      × ((close_text st).1.message_started ≡ st.message_started)
  unfolding close_text closing_frames events_named text_eq
  closing-marks = ground (
    arith,
    close_tools-quiet st.tool_blocks,
    events_named-append (codes "message_start") (close_tools st.tool_blocks) tail,
    events_named-append (codes "message_stop") (close_tools st.tool_blocks) tail,
  )

done_chunk-IsMarked : (st : OaToAnthStreamState) → IsMarked st (done_chunk st)
unfolding done_chunk closing_frames events_named text_eq
done_chunk-IsMarked st = elim (Bool-cases st.finished) [
  | inl e ↦ ground (arith, e)
  | inr e ↦ ground (arith, e, closing-marks st (message_stop ∷ []))
]

finish_part-IsMarked :
    (val : Value) (finish : Option Text) (st : OaToAnthStreamState)
    → IsMarked st (finish_part val finish st)
unfolding finish_part closing_frames events_named text_eq
finish_part-IsMarked val none st = omega arith
finish_part-IsMarked val (some s) st =
    ground (arith, closing-marks st (message_delta val s ∷ message_stop ∷ []))

choice_chunk-IsMarked :
    (val choice : Value) (st : OaToAnthStreamState) → IsMarked st (choice_chunk val choice st)
unfolding choice_chunk
choice_chunk-IsMarked val choice st =
    let delta = get choice (codes "delta") in
    let tcs = as_array (get_in delta (codes "tool_calls")) in
    let r1 = start_message val delta st in
    let r2 = push_text (text_of delta) r1.1 in
    let r3 = tool_part tcs r2.1 in
    let r4 = finish_part val (as_str (get choice (codes "finish_reason"))) r3.1 in
    then-IsMarked st r1.1 r4.1 r1.0 (r2.0 ++ (r3.0 ++ r4.0)) (start_message-IsMarked val delta st) (
      then-IsMarked r1.1 r2.1 r4.1 r2.0 (r3.0 ++ r4.0) (push_text-IsMarked (text_of delta) r1.1) (
        then-IsMarked r2.1 r3.1 r4.1 r3.0 r4.0 (tool_part-IsMarked tcs r2.1)
          (finish_part-IsMarked val (as_str (get choice (codes "finish_reason"))) r3.1)))

pub chunk-IsMarked :
    (parse : Text → Option Value) (line : Text) (st : OaToAnthStreamState)
    → IsMarked st (chunk parse line st)
unfolding events_named
chunk-IsMarked parse line st =
    chunk_cases (IsMarked st) parse line st (omega arith) (done_chunk-IsMarked st)
      (λ val choice. choice_chunk-IsMarked val choice st)

-- Over any payloads, and from any state, the number of `message_start` events is 1 if one of them
-- set the flag and 0 if not, and the number of `message_stop` events is 1 if the stream became
-- finished and 0 if not: the translator never sends either twice.
pub run_chunks-IsMarked :
    (parse : Text → Option Value) (lines : List Text) (st : OaToAnthStreamState)
    → IsMarked st (run_chunks parse lines st)
unfolding run_chunks events_named
run_chunks-IsMarked parse [] st = omega arith
run_chunks-IsMarked parse (line ∷ lines) st =
    then-IsMarked st (chunk parse line st).1 (run_chunks parse lines (chunk parse line st).1).1
      (chunk parse line st).0 (run_chunks parse lines (chunk parse line st).1).0
      (chunk-IsMarked parse line st) (run_chunks-IsMarked parse lines (chunk parse line st).1)
