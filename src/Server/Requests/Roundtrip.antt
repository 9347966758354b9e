-- ===== src/Server/Requests/Roundtrip.antt =====
-- A request of the OpenAI API that goes through the Anthropic form and back.
use xrouter.Common.{ℕ, ◌≡◌, false, List, [], ◌∷◌, map, Text, codes, text_eq}
use xrouter.Json.{Value, string, obj, arr}
use xrouter.Server.Requests.{role_message}

pub record Turn : Type 0 where
  pub role : Text
  pub content : Text

pub record Tool : Type 0 where
  pub name : Text
  pub description : Text
  pub parameters : Value

abbrev turn_message : Turn → Value
turn_message t = role_message t.role (string t.content)

abbrev function_tool : Tool → Value
function_tool t = obj (
    (codes "type", string (codes "function"))
    ∷ (
      codes "function",
      obj (
          (codes "name", string t.name)
          ∷ (codes "description", string t.description)
          ∷ (codes "parameters", t.parameters)
          ∷ []),
    )
    ∷ [])

-- A conversation: a system prompt, turns, four settings and tools. The setting `top_p` is none of them:
-- it goes into the Anthropic form and is not taken out again.
pub record Chat : Type 0 where
  pub prompt_head : ℕ
  pub prompt_tail : Text
  pub turns : List Turn
  pub max_tokens : Value
  pub temperature : Value
  pub stop : Value
  pub stream : Value
  pub tools : List Tool

abbrev prompt : Chat → Text
prompt c = c.prompt_head ∷ c.prompt_tail

abbrev messages : Chat → List Value
messages c = role_message (codes "system") (string (prompt c)) ∷ map turn_message c.turns

-- Its body for a model.
abbrev chat_object : Chat → Text → List Value → Value
chat_object c model tools = obj (
    (codes "model", string model)
    ∷ (codes "messages", arr (messages c))
    ∷ (codes "max_tokens", c.max_tokens)
    ∷ (codes "temperature", c.temperature)
    ∷ (codes "stop", c.stop)
    ∷ (codes "stream", c.stream)
    ∷ (codes "tools", arr tools)
    ∷ [])

unfoldable pub chat_body : Chat → Text → Value
chat_body c model = chat_object c model (map function_tool c.tools)

abbrev pub IsTurn : Turn → Type 0
IsTurn t = text_eq t.role (codes "system") ≡ false

abbrev anthropic_tool : Tool → Value
anthropic_tool t = obj (
    (codes "name", string t.name)
    ∷ (codes "description", string t.description)
    ∷ (codes "input_schema", t.parameters)
    ∷ [])

-- The body of the Anthropic form.
abbrev message_body : Chat → Text → Value
message_body c model = obj (
    (codes "model", string model)
    ∷ (codes "system", string (prompt c))
    ∷ (codes "messages", arr (map turn_message c.turns))
    ∷ (codes "max_tokens", c.max_tokens)
    ∷ (codes "temperature", c.temperature)
    ∷ (codes "stop_sequences", c.stop)
    ∷ (codes "stream", c.stream)
    ∷ (codes "tools", arr (map anthropic_tool c.tools))
    ∷ [])
