-- ===== src/Server/Requests/Tests.antt =====
-- A request that is translated to and fro.
use xrouter.Common.{[], ◌∷◌, codes}
use xrouter.Json.{null, number, string}
use xrouter.Server.Requests.{object_schema}
use xrouter.Server.Requests.Roundtrip.{Chat}

abbrev chat : Chat
chat = record {
  prompt_head = b'S';
  prompt_tail = codes "ay hi";
  turns =
      record { role = codes "user"; content = codes "hi" }
      ∷ record { role = codes "assistant"; content = codes "hello" }
      ∷ [];
  max_tokens = number 64;
  temperature = number 1;
  stop = string (codes "end");
  stream = null;
  tools = record { name = codes "f"; description = codes "d"; parameters = object_schema } ∷ [];
}
