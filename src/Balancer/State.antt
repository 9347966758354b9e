-- ===== src/Balancer/State.antt =====
-- crates/xrouter-balancer/src/lib.rs: the structs `KeyRing`, `WrrState` and `Balancer`.
use xrouter.Common.{ℕ, List, [], Text}
use xrouter.Core.{ApiKey, EndpointId}
use xrouter.Balancer.Health.{HealthRegistry, new_registry}

pub record KeyRing : Type 0 where
  pub keys : List ApiKey
  pub cursor : ℕ

-- A weight is an `i64`. The stored ones are kept as a credit and a debit, `credit - debit`.
pub record Weight : Type 0 where
  pub credit : ℕ
  pub debit : ℕ

pub record WrrState : Type 0 where
  pub len : ℕ
  pub weights : List (EndpointId × Weight)

-- `banned_keys` has "provider:key" and the end of the ban.
pub record Balancer : Type 0 where
  pub keyrings : List (Text × KeyRing)
  pub health : HealthRegistry
  pub banned_keys : List (Text × ℕ)
  pub wrr : List (Text × WrrState)

-- `Balancer::new`
abbrev pub new_balancer : Balancer
new_balancer = record { keyrings = []; health = new_registry; banned_keys = []; wrr = [] }
