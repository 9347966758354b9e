-- ===== src/Core/Endpoint.antt =====
-- crates/xrouter-core/src/lib.rs: `EndpointId::new` and `EndpointId::provider`.
use xrouter.Common.{◌≡◌, refl, ◌≢◌, ◌∷◌, [], ◌++◌, Text, All, ◌==◌, if◌then◌else◌, arith}
use xrouter.Core.{EndpointId}

-- "provider:model"
unfoldable pub new : Text → Text → EndpointId
new provider model = provider ++ b':' ∷ model

-- The text before the first ':'; all of it where there is none.
unfoldable pub provider : EndpointId → Text
provider [] = []
provider (c ∷ s) = if c == b':' then [] else c ∷ provider s

-- The provider of an id is read back, if its name holds no ':'.
pub provider-new : (p m : Text) → All (λ c. c ≢ b':') p → provider (new p m) ≡ p
unfolding provider new
provider-new [] m h = refl
provider-new (c ∷ p) m (n, h) = ground (arith, provider-new p m h)
