-- ===== src/Server/Sse.antt =====
-- The pieces of text that the stream translators of crates/xrouter-server write. A frame keeps the
-- JSON value that `format!` prints; `render` is the text, over a printer for JSON values.
use xrouter.Common.{List, [], ◌∷◌, ◌++◌, Text, codes}
use xrouter.Json.{Value, string, obj}

pub data Frame : Type 0 where
  event : Text → Value → Frame
  payload : Value → Frame
  done : Frame
  text : Text → Frame

-- "event: {name}\ndata: {json}\n\n", "data: {json}\n\n" and the end marker of an OpenAI stream.
unfoldable pub render : (Value → Text) → Frame → Text
render print (event name v) =
    codes "event: " ++ name ++ (10 ∷ codes "data: " ++ print v ++ 10 ∷ 10 ∷ [])
render print (payload v) = codes "data: " ++ print v ++ 10 ∷ 10 ∷ []
render print done = codes "data: [DONE]" ++ 10 ∷ 10 ∷ []
render print (text s) = s

unfoldable pub render_all : (Value → Text) → List Frame → Text
render_all print [] = []
render_all print (f ∷ fs) = render print f ++ render_all print fs

-- "event: message_stop\ndata: {\"type\":\"message_stop\"}\n\n"
abbrev pub message_stop : Frame
message_stop =
    event (codes "message_stop") (obj ((codes "type", string (codes "message_stop")) ∷ []))
