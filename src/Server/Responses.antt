-- ===== src/Server/Responses.antt =====
-- crates/xrouter-server/src/translate.rs: the response object of the Responses API.
use xrouter.Common.{ℕ, ◌+◌, [], ◌∷◌, Text, codes}
use xrouter.Json.{Value, number, string, obj, arr}

-- `responses_object`, for token counts whose sum is a `u64`.
abbrev pub responses_object : Text → Text → Text → ℕ → ℕ → Text → Value
responses_object id model answer input_tokens output_tokens status = obj (
    (codes "id", string id)
    ∷ (codes "object", string (codes "response"))
    ∷ (codes "status", string status)
    ∷ (codes "model", string model)
    ∷ (
      codes "output",
      arr (
          obj (
            (codes "type", string (codes "message"))
            ∷ (codes "role", string (codes "assistant"))
            ∷ (
              codes "content",
              arr (
                  obj (
                    (codes "type", string (codes "output_text"))
                    ∷ (codes "text", string answer)
                    ∷ [])
                  ∷ []),
            )
            ∷ [])
          ∷ []),
    )
    ∷ (
      codes "usage",
      obj (
          (codes "input_tokens", number input_tokens)
          ∷ (codes "output_tokens", number output_tokens)
          ∷ (codes "total_tokens", number (input_tokens + output_tokens))
          ∷ []),
    )
    ∷ [])
