-- ===== src/Server/ResponsesStream/Texts.antt =====
-- crates/xrouter-server/src/lib.rs: the texts in the lines that `ResponsesStreamTranslator` reads.
use xrouter.Common.{
  ◌≡◌, refl, sym, ap, ◌∙◌, Option, none, some, List, [], ◌∷◌, ◌++◌, Text, append_assoc, codes,
  text_eq, starts_with, trim, Bool-cases, inl, inr, if◌then◌else◌,
}
use xrouter.Json.{Value, get, get_in, as_str, as_array, first}
use xrouter.Server.Stream.{trim_start_matches}
use xrouter.Server.ResponsesStream.{line_value}

unfoldable pub joined : List Text → Text
joined [] = []
joined (g ∷ gs) = g ++ joined gs

pub joined-append : (gs hs : List Text) → joined (gs ++ hs) ≡ joined gs ++ joined hs
unfolding joined
joined-append [] hs = refl
joined-append (g ∷ gs) hs =
    ap (λ s. g ++ s) (joined-append gs hs) ∙ sym (append_assoc g (joined gs) (joined hs))

abbrev pub IsFilled : Text → Type 0
IsFilled [] = ⊥
IsFilled (c ∷ s) = Unit

-- The text that a chat chunk brings, if there is one that is not empty.
unfoldable pub content_texts : Option Text → List Text
content_texts none = []
content_texts (some []) = []
content_texts (some (c ∷ s)) = (c ∷ s) ∷ []

-- It is `choices[0].delta.content`.
unfoldable pub value_texts : Option Value → List Text
unfolding content_texts
value_texts none = []
value_texts (some v) =
    let delta = get_in (first (as_array (get v (codes "choices")))) (codes "delta") in
    content_texts (as_str (get_in delta (codes "content")))

-- The texts of a line, which has them where it is a `data: ` line and not the end mark.
unfoldable pub line_texts : (Text → Option Value) → Text → List Text
unfolding value_texts
line_texts parse line =
    let body = trim (trim_start_matches (codes "data: ") line) in
    if starts_with (codes "data: ") line
    then if text_eq body (codes "[DONE]") then [] else value_texts (parse body)
    else []

unfoldable pub lines_texts : (Text → Option Value) → List Text → List Text
unfolding line_texts
lines_texts parse [] = []
lines_texts parse (line ∷ lines) = line_texts parse line ++ lines_texts parse lines

pub lines_texts-append :
    (parse : Text → Option Value) (xs ys : List Text)
    → lines_texts parse (xs ++ ys) ≡ lines_texts parse xs ++ lines_texts parse ys
unfolding lines_texts
lines_texts-append parse [] ys = refl
lines_texts-append parse (x ∷ xs) ys =
    ap (λ ts. line_texts parse x ++ ts) (lines_texts-append parse xs ys)
    ∙ sym (append_assoc (line_texts parse x) (lines_texts parse xs) (lines_texts parse ys))

pub line_texts-line_value :
    (parse : Text → Option Value) (line : Text)
    → value_texts (line_value parse line) ≡ line_texts parse line
unfolding line_value line_texts value_texts
line_texts-line_value parse line = elim (Bool-cases (starts_with (codes "data: ") line)) [
  | inr e ↦ rw (e, line_value, line_texts) refl
  | inl e ↦
      elim (Bool-cases
        (text_eq (trim (trim_start_matches (codes "data: ") line)) (codes "[DONE]"))) [
          | inl d ↦ rw (e, d, line_value, line_texts) refl
          | inr d ↦ rw (e, d, line_value, line_texts) refl
        ]
]
