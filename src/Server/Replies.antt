-- ===== src/Server/Replies.antt =====
-- crates/xrouter-server/src/lib.rs: the branch of `route_openai_request` that answers the client from
-- an upstream's answer. A body is the list of its chunks; `parse` is `serde_json::from_str`, `print`
-- the way back, and `id` is from a number generator.
use xrouter.Common.{Bool, not, Option, List, [], ◌∷◌, ◌++◌, Text, if◌then◌else◌}
use xrouter.Json.{Value}
use xrouter.Server.Sse.{render_all}
use xrouter.Server.Stream
use xrouter.Server.Stream.{StreamTranslator}
use xrouter.Server.ResponsesStream.{responses_stream_map}
use xrouter.Server.Requests.Responses.{translate_non_stream_response, chat_to_responses_bytes}

-- `a != b`
abbrev differ : Bool → Bool → Bool
differ a b = if a then not b else b

abbrev joined : List Text → Text
joined [] = []
joined (c ∷ cs) = c ++ joined cs

module _ (parse : Text → Option Value) (print : Value → Text) where
  -- `unfold` over the chunks of the upstream, and the flush at the end.
  unfoldable translated_chunks : List Text → StreamTranslator → List Text
  translated_chunks [] tr = render_all print (Stream.flush parse tr).0 ∷ []
  translated_chunks (c ∷ cs) tr =
      let (frames, tr') = Stream.push parse c tr in
      render_all print frames ∷ translated_chunks cs tr'

  unfoldable stream_reply : Text → Text → Bool → Bool → Bool → List Text → Text
  unfolding translated_chunks
  stream_reply id model ingress_is_anthropic upstream_is_anthropic ingress_is_responses chunks =
      let inner =
        if differ ingress_is_anthropic upstream_is_anthropic
        then translated_chunks chunks (Stream.new (not upstream_is_anthropic) ingress_is_anthropic)
        else chunks in
      if ingress_is_responses
      then render_all print (responses_stream_map parse id model inner)
      else joined inner

  unfoldable whole_reply : Text → Bool → Bool → Bool → List Text → Text
  whole_reply id ingress_is_anthropic upstream_is_anthropic ingress_is_responses chunks =
      let body = joined chunks in
      let translated =
        if differ ingress_is_anthropic upstream_is_anthropic
        then translate_non_stream_response parse print body ingress_is_anthropic
            upstream_is_anthropic
        else body in
      if ingress_is_responses then chat_to_responses_bytes parse print id translated else translated
