-- ===== src/Server/ResponsesStream/Extended.antt =====
-- crates/xrouter-server/src/lib.rs: what one value of the stream adds to a `ResponsesStreamTranslator`.
use mathlib.Core.List.{map-append}
use xrouter.Common.{
  ◌≡◌, refl, sym, ap, ◌∙◌, Option, none, some, List, [], ◌∷◌, ◌++◌, map, Text, append_assoc,
  append-nil, All, All-append, codes,
}
use xrouter.Json.{Value, get}
use xrouter.Server.Requests.Responses.{choice_content}
use xrouter.Server.Sse.{Frame}
use xrouter.Server.ResponsesStream.{
  ResponsesStreamTranslator, delta_event, push_content, take_usage, process_value,
}
use xrouter.Server.ResponsesStream.Texts.{
  joined, joined-append, IsFilled, content_texts, value_texts,
}

-- The frames are the deltas of these texts, which are not empty, the answer grows by them, and `buf`
-- is what the buffer holds then.
pub record IsExtended (texts : List Text) (buf : Text) (tr : ResponsesStreamTranslator)
    (frames : List Frame) (tr' : ResponsesStreamTranslator) : Type 0 where
  pub frames_eq : frames ≡ map delta_event texts
  pub filled : All IsFilled texts
  pub answer : tr'.answer ≡ tr.answer ++ joined texts
  pub buffer : tr'.line_buf ≡ buf
  pub response_id : tr'.response_id ≡ tr.response_id
  pub model : tr'.model ≡ tr.model
  pub started : tr'.started ≡ tr.started
  pub finished : tr'.finished ≡ tr.finished

pub IsExtended-refl : (tr : ResponsesStreamTranslator) → IsExtended [] tr.line_buf tr [] tr
unfolding joined
IsExtended-refl tr = record {
  frames_eq = refl;
  filled = tt;
  answer = sym (append-nil tr.answer);
  buffer = refl;
  response_id = refl;
  model = refl;
  started = refl;
  finished = refl;
}

pub IsExtended-trans :
    {ts us : List Text} {buf buf' : Text} {a b c : ResponsesStreamTranslator} {fs gs : List Frame}
    → IsExtended ts buf a fs b
    → IsExtended us buf' b gs c
    → IsExtended (ts ++ us) buf' a (fs ++ gs) c
IsExtended-trans {ts} {us} {a = a} s t = record {
  frames_eq = (λ i. s.frames_eq i ++ t.frames_eq i) ∙ sym (map-append delta_event ts us);
  filled = All-append IsFilled ts us s.filled t.filled;
  answer =
      t.answer
      ∙ ap (λ x. x ++ joined us) s.answer
      ∙ append_assoc a.answer (joined ts) (joined us)
      ∙ ap (λ x. a.answer ++ x) (sym (joined-append ts us));
  buffer = t.buffer;
  response_id = t.response_id ∙ s.response_id;
  model = t.model ∙ s.model;
  started = t.started ∙ s.started;
  finished = t.finished ∙ s.finished;
}

push_content-IsExtended :
    (content : Option Text) (tr : ResponsesStreamTranslator)
    → IsExtended
        (content_texts content)
        tr.line_buf
        tr
        (push_content content tr).0
        (push_content content tr).1
unfolding push_content joined content_texts
push_content-IsExtended none tr = IsExtended-refl tr
push_content-IsExtended (some []) tr = IsExtended-refl tr
push_content-IsExtended (some (c ∷ s)) tr = record {
  frames_eq = refl;
  filled = (tt, tt);
  answer = ap (λ x. tr.answer ++ x) (sym (append-nil (c ∷ s)));
  buffer = refl;
  response_id = refl;
  model = refl;
  started = refl;
  finished = refl;
}

take_usage-IsExtended :
    {ts : List Text} {buf : Text} {a b : ResponsesStreamTranslator} {fs : List Frame}
    (usage : Option Value)
    → IsExtended ts buf a fs b
    → IsExtended ts buf a fs (take_usage usage b)
unfolding take_usage
take_usage-IsExtended none s = s
take_usage-IsExtended (some v) s = record {
  frames_eq = s.frames_eq;
  filled = s.filled;
  answer = s.answer;
  buffer = s.buffer;
  response_id = s.response_id;
  model = s.model;
  started = s.started;
  finished = s.finished;
}

pub process_value-IsExtended :
    (v : Option Value) (tr : ResponsesStreamTranslator)
    → IsExtended (value_texts v) tr.line_buf tr (process_value v tr).0 (process_value v tr).1
unfolding process_value value_texts
process_value-IsExtended none tr = IsExtended-refl tr
process_value-IsExtended (some v) tr =
    take_usage-IsExtended (get v (codes "usage"))
      (push_content-IsExtended (choice_content v (codes "delta")) tr)
