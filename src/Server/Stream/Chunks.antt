-- ===== src/Server/Stream/Chunks.antt =====
-- crates/xrouter-server/src/lib.rs: `StreamTranslator` and the places where the network cuts a stream.
use xrouter.Common.{
  ℕ, ◌≡◌, refl, sym, ap, ◌∙◌, subst, Bool, true, false, not, ◌&&◌, Option, List, [], ◌∷◌, ◌++◌,
  Text, All, All-append, append_assoc, append-nil, codes, text_eq, ◌==◌, Bool-cases, inl, inr,
  if◌then◌else◌, starts_with, trim,
}
use xrouter.Json.{Value}
use xrouter.Server.Sse.{Frame}
use xrouter.Server.Stream.{
  StreamTranslator, new, break_lines, push_chunk, process_done, process_data, process_event,
  process_line, process_lines, push, push_all, trim_start_matches,
}

-- The lines of two texts are those of the first one, and those of the second after its rest.
pub break_lines-append :
    (line s t : Text)
    → break_lines line (s ++ t) ≡ (
      (break_lines line s).0 ++ (break_lines (break_lines line s).1 t).0,
      (break_lines (break_lines line s).1 t).1,
    )
unfolding break_lines
break_lines-append line [] t = refl
break_lines-append line (c ∷ s) t = elim (Bool-cases (c == 10)) [
  | inl e ↦ rw (e, break_lines, break_lines-append [] s t) refl
  | inr e ↦ rw (e, break_lines, break_lines-append (line ++ c ∷ []) s t) refl
]

abbrev pub HasNoBreak : Text → Type 0
HasNoBreak s = All (λ (c : ℕ). (c == 10) ≡ false) s

pub break_lines-HasNoBreak : (line s : Text) → HasNoBreak line → HasNoBreak (break_lines line s).1
unfolding break_lines
break_lines-HasNoBreak line [] h = h
break_lines-HasNoBreak line (c ∷ s) h = elim (Bool-cases (c == 10)) [
  | inl e ↦ rw (e, break_lines) (break_lines-HasNoBreak [] s tt)
  | inr e ↦
      rw (e, break_lines)
        (break_lines-HasNoBreak (line ++ c ∷ []) s
          (All-append (λ (c : ℕ). (c == 10) ≡ false) line (c ∷ []) h (e, tt)))
]

-- A text without a newline is the start of a line.
pub break_lines-skip :
    (line b t : Text) → HasNoBreak b → break_lines line (b ++ t) ≡ break_lines (line ++ b) t
unfolding break_lines
break_lines-skip line [] t h = ap (λ l. break_lines l t) (sym (append-nil line))
break_lines-skip line (c ∷ b) t h =
    rw (h.0, break_lines)
      (break_lines-skip (line ++ c ∷ []) b t h.1
        ∙ ap (λ l. break_lines l t) (append_assoc line (c ∷ []) b))

-- A translator with another buffer.
abbrev with_buf : Text → StreamTranslator → StreamTranslator
with_buf b tr = record tr { line_buf = b }

abbrev result_with_buf : Text → List Frame × StreamTranslator → List Frame × StreamTranslator
result_with_buf b r = (r.0, with_buf b r.1)

-- What a function does to both results of a test, it does to the result.
if_map {ℓ κ} :
    {A : Type ℓ} {B : Type κ} (f : A → B) (b : Bool) (x y : A) {x' y' : B}
    → x' ≡ f x
    → y' ≡ f y
    → (if b then x' else y') ≡ f (if b then x else y)
if_map f true x y h k = h
if_map f false x y h k = k

process_done-with_buf :
    (b : Text) (tr : StreamTranslator)
    → process_done (with_buf b tr) ≡ result_with_buf b (process_done tr)
unfolding process_done
process_done-with_buf b tr = if_map (result_with_buf b) tr.ingress_is_anthropic _ _ refl refl

process_data-with_buf :
    (parse : Text → Option Value) (line body b : Text) (tr : StreamTranslator)
    → process_data parse line body (with_buf b tr)
      ≡ result_with_buf b (process_data parse line body tr)
unfolding process_data
process_data-with_buf parse line body b tr =
    if_map (result_with_buf b) (tr.upstream_is_openai && tr.ingress_is_anthropic) _ _ refl (
      if_map (result_with_buf b) (not tr.upstream_is_openai && not tr.ingress_is_anthropic) _ _ refl
        refl)

process_event-with_buf :
    (line b : Text) (tr : StreamTranslator)
    → process_event line (with_buf b tr) ≡ result_with_buf b (process_event line tr)
unfolding process_event
process_event-with_buf line b tr =
    if_map (result_with_buf b) (not tr.upstream_is_openai && not tr.ingress_is_anthropic) _ _ refl
      (if_map (result_with_buf b) (tr.ingress_is_anthropic && tr.upstream_is_openai) _ _ refl refl)

-- A line is translated whatever is in the buffer, and leaves it there.
process_line-with_buf :
    (parse : Text → Option Value) (line b : Text) (tr : StreamTranslator)
    → process_line parse line (with_buf b tr) ≡ result_with_buf b (process_line parse line tr)
unfolding process_line
process_line-with_buf parse line b tr =
    let body = trim (trim_start_matches (codes "data: ") line) in
    if_map (result_with_buf b) (starts_with (codes "data: ") line) _ _
      (if_map (result_with_buf b) (text_eq body (codes "[DONE]")) _ _ (process_done-with_buf b tr)
        (process_data-with_buf parse line body b tr))
      (if_map (result_with_buf b) (starts_with (codes "event:") line) _ _
        (process_event-with_buf line b tr)
        (if_map (result_with_buf b) (starts_with (codes ":") line) _ _ refl refl))

process_lines-with_buf :
    (parse : Text → Option Value) (lines : List Text) (b : Text) (tr : StreamTranslator)
    → process_lines parse lines (with_buf b tr) ≡ result_with_buf b (process_lines parse lines tr)
unfolding process_lines
process_lines-with_buf parse [] b tr = refl
process_lines-with_buf parse (line ∷ lines) b tr =
    rw
      (
        process_lines,
        process_line-with_buf parse line b tr,
        process_lines-with_buf parse lines b (process_line parse line tr).1,
      )
      refl

-- The lines of two lists, one after the other.
process_lines-append :
    (parse : Text → Option Value) (xs ys : List Text) (tr : StreamTranslator)
    → process_lines parse (xs ++ ys) tr ≡ (
      (process_lines parse xs tr).0 ++ (process_lines parse ys (process_lines parse xs tr).1).0,
      (process_lines parse ys (process_lines parse xs tr).1).1,
    )
unfolding process_lines
process_lines-append parse [] ys tr = refl
process_lines-append parse (x ∷ xs) ys tr =
    let r = process_line parse x tr in
    let r1 = process_lines parse xs r.1 in
    rw (process_lines, process_lines-append parse xs ys r.1)
      (ap (λ (o : List Frame). (o, (process_lines parse ys r1.1).1))
        (sym (append_assoc r.0 r1.0 (process_lines parse ys r1.1).0)))

process_lines-line_buf :
    (parse : Text → Option Value) (lines : List Text) (tr : StreamTranslator)
    → (process_lines parse lines tr).1.line_buf ≡ tr.line_buf
process_lines-line_buf parse lines tr =
    ap (λ (r : List Frame × StreamTranslator). r.1.line_buf)
      (process_lines-with_buf parse lines tr.line_buf tr)

push-eq :
    (parse : Text → Option Value) (s : Text) (tr : StreamTranslator)
    → HasNoBreak tr.line_buf
    → push parse s tr
      ≡ result_with_buf
          (break_lines tr.line_buf s).1
          (process_lines parse (break_lines tr.line_buf s).0 tr)
unfolding push push_chunk
push-eq parse s tr h =
    ap (λ (br : List Text × Text). process_lines parse br.0 (with_buf br.1 tr))
      (break_lines-skip [] tr.line_buf s h)
    ∙ process_lines-with_buf parse (break_lines tr.line_buf s).0 (break_lines tr.line_buf s).1 tr

push-HasNoBreak :
    (parse : Text → Option Value) (s : Text) (tr : StreamTranslator)
    → HasNoBreak tr.line_buf
    → HasNoBreak (push parse s tr).1.line_buf
push-HasNoBreak parse s tr h =
    subst (λ (r : List Frame × StreamTranslator). HasNoBreak r.1.line_buf)
      (sym (push-eq parse s tr h)) (break_lines-HasNoBreak tr.line_buf s h)

-- What follows the frames of a step.
abbrev then_frames : List Frame → List Frame × StreamTranslator → List Frame × StreamTranslator
then_frames out r = (out ++ r.0, r.1)

-- Two chunks that come one after the other, from a buffer without a newline, as one chunk.
push-append :
    (parse : Text → Option Value) (s t : Text) (tr : StreamTranslator)
    → HasNoBreak tr.line_buf
    → push parse (s ++ t) tr ≡ then_frames (push parse s tr).0 (push parse t (push parse s tr).1)
push-append parse s t tr h =
    let r1 = break_lines tr.line_buf s in
    let r2 = break_lines r1.1 t in
    let p1 = process_lines parse r1.0 tr in
    push-eq parse (s ++ t) tr h
    ∙ ap (λ (br : List Text × Text). result_with_buf br.1 (process_lines parse br.0 tr))
        (break_lines-append tr.line_buf s t)
    ∙ ap (result_with_buf r2.1) (process_lines-append parse r1.0 r2.0 tr)
    ∙ sym (
        ap (λ (r : List Frame × StreamTranslator). then_frames r.0 (push parse t r.1))
          (push-eq parse s tr h)
        ∙ ap (then_frames p1.0) (
            push-eq parse t (with_buf r1.1 p1.1) (break_lines-HasNoBreak tr.line_buf s h)
            ∙ ap (result_with_buf r2.1) (process_lines-with_buf parse r2.0 r1.1 p1.1)))

-- The text of a stream.
abbrev pub joined : List Text → Text
joined [] = []
joined (s ∷ ss) = s ++ joined ss

push_all-joined :
    (parse : Text → Option Value) (ss : List Text) (tr : StreamTranslator)
    → HasNoBreak tr.line_buf
    → push_all parse ss tr ≡ push parse (joined ss) tr
unfolding push_all break_lines process_lines
push_all-joined parse [] tr h = sym (push-eq parse [] tr h)
push_all-joined parse (s ∷ ss) tr h =
    ap (then_frames (push parse s tr).0)
      (push_all-joined parse ss (push parse s tr).1 (push-HasNoBreak parse s tr h))
    ∙ sym (push-append parse s (joined ss) tr h)

-- Two ways to cut the same text of a stream into chunks give a new translator the same frames and
-- the same state, in either direction of the translation.
pub push_all-cuts :
    (parse : Text → Option Value) (upstream ingress : Bool) (ss ts : List Text)
    → joined ss ≡ joined ts
    → push_all parse ss (new upstream ingress) ≡ push_all parse ts (new upstream ingress)
push_all-cuts parse upstream ingress ss ts h =
    push_all-joined parse ss (new upstream ingress) tt
    ∙ ap (λ s. push parse s (new upstream ingress)) h
    ∙ sym (push_all-joined parse ts (new upstream ingress) tt)
