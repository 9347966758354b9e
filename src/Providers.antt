-- ===== src/Providers.antt =====
-- crates/xrouter-providers: the models that a provider lists, and the cache of them in memory.
pub mod Cache
pub mod Models
use xrouter.Common.{Text, Option}

pub record RawModel : Type 0 where
  pub id : Text
  pub name : Option Text
