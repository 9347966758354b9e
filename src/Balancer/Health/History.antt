-- ===== src/Balancer/Health/History.antt =====
-- Histories of calls on one `HealthRegistry`, each with the clock's reading. A call holds the lock
-- of its map entry, so that calls on one endpoint do not overlap.
use xrouter.Common.{ℕ, Option, List, [], ◌∷◌, Text}
use xrouter.Core.{EndpointId}
use xrouter.Balancer.Health.{
  HealthRegistry, health_state, mark_success, mark_failure, mark_probing, mark_key_dead, clear_key,
  maybe_half_open, apply_retry_after,
}

pub data Call : Type 0 where
  reads succeeds probes expires : EndpointId → Call
  fails : (ℕ → ℕ) → EndpointId → Call
  retries_after : EndpointId → Option ℕ → Call
  kills clears : Text → Call

unfoldable pub step : HealthRegistry → ℕ × Call → HealthRegistry
step r (now, reads id) = (health_state r id now).1
step r (now, succeeds id) = mark_success r id
step r (now, probes id) = mark_probing r id now
step r (now, expires id) = maybe_half_open r id now
step r (now, fails scale id) = mark_failure scale r id now
step r (now, retries_after id secs) = apply_retry_after r id secs now
step r (now, kills key) = mark_key_dead r key now
step r (now, clears key) = clear_key r key

unfoldable pub run : HealthRegistry → List (ℕ × Call) → HealthRegistry
run r [] = r
run r (c ∷ cs) = run (step r c) cs
