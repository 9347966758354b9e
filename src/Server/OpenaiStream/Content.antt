-- ===== src/Server/OpenaiStream/Content.antt =====
-- crates/xrouter-server/src/translate.rs: the text of a stream in
-- `translate_sse_openai_to_anthropic_chunk_st`.
use xrouter.Common.{
  ℕ, ◌≡◌, refl, ◌∙◌, sym, ap, Option, none, some, List, [], ◌∷◌, ◌++◌, Text, append_assoc,
  append-nil, codes, text_eq, arith, if◌then◌else◌, option_or, Bool-cases, inl, inr, Option-cases,
  trim,
}
use xrouter.Json.{Value, get, get_in, as_str, as_array, first, find_field}
use xrouter.Server.Sse.{Frame, event, payload, done, text, message_stop}
use xrouter.Server.OpenaiStream.{
  ToolBlock, OaToAnthStreamState, close_text, close_tools, done_chunk, start_message, message_delta,
  push_text, text_of, claim_block, start_block, push_args, push_tool, push_tools, tool_part,
  finish_part, choice_chunk, value_chunk, chunk, run_chunks,
}

-- The text that a client of the Anthropic protocol reads from an event.
abbrev event_text : Text → Value → Text
event_text name v =
    if text_eq name (codes "content_block_delta")
    then option_or (as_str (get_in (get v (codes "delta")) (codes "text"))) []
    else []

unfoldable pub texts : List Frame → Text
texts [] = []
texts (event n v ∷ fs) = event_text n v ++ texts fs
texts (payload v ∷ fs) = texts fs
texts (done ∷ fs) = texts fs
texts (text s ∷ fs) = texts fs

pub texts-append : (xs ys : List Frame) → texts (xs ++ ys) ≡ texts xs ++ texts ys
unfolding texts
texts-append [] ys = refl
texts-append (event n v ∷ fs) ys =
    rw (texts-append fs ys) (sym (append_assoc (event_text n v) (texts fs) (texts ys)))
texts-append (payload v ∷ fs) ys = texts-append fs ys
texts-append (done ∷ fs) ys = texts-append fs ys
texts-append (text s ∷ fs) ys = texts-append fs ys

start_message-texts :
    (val : Value) (delta : Option Value) (st : OaToAnthStreamState)
    → texts (start_message val delta st).0 ≡ []
unfolding start_message texts text_eq
start_message-texts val delta st = ground arith

push_text-texts : (s : Text) (st : OaToAnthStreamState) → texts (push_text s st).0 ≡ s
unfolding push_text texts text_eq find_field
push_text-texts [] st = refl
push_text-texts (c ∷ s) st = ground (arith, append-nil s)

close_text-texts : (st : OaToAnthStreamState) → texts (close_text st).0 ≡ []
unfolding close_text texts text_eq
close_text-texts st = ground arith

close_tools-texts : (bs : List (ℕ × ToolBlock)) → texts (close_tools bs) ≡ []
unfolding close_tools texts text_eq
close_tools-texts [] = refl
close_tools-texts ((i, tb) ∷ bs) = ground (arith, close_tools-texts bs)

push_tool-texts : (tc : Value) (st : OaToAnthStreamState) → texts (push_tool tc st).0 ≡ []
unfolding push_tool claim_block start_block push_args texts text_eq find_field
push_tool-texts tc st = ground arith

push_tools-texts : (tcs : List Value) (st : OaToAnthStreamState) → texts (push_tools tcs st).0 ≡ []
unfolding push_tools texts
push_tools-texts [] st = refl
push_tools-texts (tc ∷ tcs) st =
    texts-append (push_tool tc st).0 (push_tools tcs (push_tool tc st).1).0
    ∙ ap (λ s. s ++ texts (push_tools tcs (push_tool tc st).1).0) (push_tool-texts tc st)
    ∙ push_tools-texts tcs (push_tool tc st).1

tool_part-texts :
    (tcs : Option (List Value)) (st : OaToAnthStreamState) → texts (tool_part tcs st).0 ≡ []
unfolding tool_part texts
tool_part-texts none st = refl
tool_part-texts (some tcs) st =
    texts-append (close_text st).0 (push_tools tcs (close_text st).1).0
    ∙ ap (λ s. s ++ texts (push_tools tcs (close_text st).1).0) (close_text-texts st)
    ∙ push_tools-texts tcs (close_text st).1

closing-texts :
    (st : OaToAnthStreamState) (tail : List Frame)
    → texts tail ≡ []
    → texts ((close_text st).0 ++ (close_tools (close_text st).1.tool_blocks ++ tail)) ≡ []
closing-texts st tail h =
    texts-append (close_text st).0 (close_tools (close_text st).1.tool_blocks ++ tail)
    ∙ ap (λ s. s ++ texts (close_tools (close_text st).1.tool_blocks ++ tail)) (close_text-texts st)
    ∙ texts-append (close_tools (close_text st).1.tool_blocks) tail
    ∙ ap (λ s. s ++ texts tail) (close_tools-texts (close_text st).1.tool_blocks)
    ∙ h

finish_part-texts :
    (val : Value) (finish : Option Text) (st : OaToAnthStreamState)
    → texts (finish_part val finish st).0 ≡ []
unfolding finish_part texts text_eq
finish_part-texts val none st = refl
finish_part-texts val (some s) st =
    ground (arith, closing-texts st (message_delta val s ∷ message_stop ∷ []) refl)

done_chunk-texts : (st : OaToAnthStreamState) → texts (done_chunk st).0 ≡ []
unfolding done_chunk texts text_eq
done_chunk-texts st = ground (arith, closing-texts st (message_stop ∷ []) refl)

choice_chunk-texts :
    (val choice : Value) (st : OaToAnthStreamState)
    → texts (choice_chunk val choice st).0 ≡ text_of (get choice (codes "delta"))
unfolding choice_chunk
choice_chunk-texts val choice st =
    let delta = get choice (codes "delta") in
    let tcs = as_array (get_in delta (codes "tool_calls")) in
    let r1 = start_message val delta st in
    let r2 = push_text (text_of delta) r1.1 in
    let r3 = tool_part tcs r2.1 in
    let r4 = finish_part val (as_str (get choice (codes "finish_reason"))) r3.1 in
    rw
      (
        texts-append r1.0 (r2.0 ++ (r3.0 ++ r4.0)),
        texts-append r2.0 (r3.0 ++ r4.0),
        texts-append r3.0 r4.0,
        start_message-texts val delta st,
        push_text-texts (text_of delta) r1.1,
        tool_part-texts tcs r2.1,
        finish_part-texts val (as_str (get choice (codes "finish_reason"))) r3.1,
      )
      (append-nil (text_of delta))

-- The text of a delta with these two fields: `content` where it is a text, an empty one too, and
-- `reasoning_content` where `content` is no text.
unfoldable pub carried : Option Text → Option Text → Text
carried (some content) reasoning = content
carried none (some reasoning) = reasoning
carried none none = []

-- The text of a choice, read from the two fields of its delta.
unfoldable pub choice_text : Option Value → Text
unfolding carried
choice_text none = []
choice_text (some choice) =
    let delta = get choice (codes "delta") in
    carried (as_str (get_in delta (codes "content")))
      (as_str (get_in delta (codes "reasoning_content")))

carried-option_or : (o r : Option Text) → option_or o (option_or r []) ≡ carried o r
unfolding carried
carried-option_or (some s) r = refl
carried-option_or none (some s) = refl
carried-option_or none none = refl

choice_text-text_of :
    (choice : Value) → text_of (get choice (codes "delta")) ≡ choice_text (some choice)
unfolding text_of choice_text
choice_text-text_of choice =
    let delta = get choice (codes "delta") in
    carried-option_or (as_str (get_in delta (codes "content")))
      (as_str (get_in delta (codes "reasoning_content")))

abbrev pub value_text : Option Value → Text
value_text none = []
value_text (some val) = choice_text (first (as_array (get val (codes "choices"))))

abbrev pub payload_text : (Text → Option Value) → Text → Text
payload_text parse line =
    if text_eq (trim line) (codes "[DONE]") then [] else value_text (parse line)

chunk-texts :
    (parse : Text → Option Value) (line : Text) (st : OaToAnthStreamState)
    → texts (chunk parse line st).0 ≡ payload_text parse line
unfolding chunk value_chunk texts choice_text
chunk-texts parse line st = elim (Bool-cases (text_eq (trim line) (codes "[DONE]"))) [
  | inl e ↦ rw (e, chunk) (done_chunk-texts st)
  | inr e ↦ elim (Option-cases (parse line)) [
    | inl n ↦ rw (e, chunk, n) refl
    | inr (val, v) ↦ elim (Option-cases (first (as_array (get val (codes "choices"))))) [
      | inl n ↦ rw (e, chunk, v) (rw (n, value_chunk) refl)
      | inr (choice, c) ↦
          rw (e, chunk, v)
            (rw (c, value_chunk) (choice_chunk-texts val choice st ∙ choice_text-text_of choice))
    ]
  ]
]

unfoldable pub payload_texts : (Text → Option Value) → List Text → Text
payload_texts parse [] = []
payload_texts parse (line ∷ lines) = payload_text parse line ++ payload_texts parse lines

-- From any state, the text deltas of the translated stream join, in order, to the texts of the
-- payloads: of the first choice's delta the `content` where it is a text, even an empty one, and else
-- the `reasoning_content` where it is a text.
pub run_chunks-texts :
    (parse : Text → Option Value) (lines : List Text) (st : OaToAnthStreamState)
    → texts (run_chunks parse lines st).0 ≡ payload_texts parse lines
unfolding run_chunks payload_texts texts
run_chunks-texts parse [] st = refl
run_chunks-texts parse (line ∷ lines) st =
    let (out, st') = chunk parse line st in
    texts-append out (run_chunks parse lines st').0
    ∙ ap (λ s. s ++ texts (run_chunks parse lines st').0) (chunk-texts parse line st)
    ∙ ap (◌++◌ (payload_text parse line)) (run_chunks-texts parse lines st')
