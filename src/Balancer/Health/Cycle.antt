-- ===== src/Balancer/Health/Cycle.antt =====
-- crates/xrouter-balancer/src/lib.rs: the states that an endpoint goes through in `HealthRegistry`, for
-- its deadline, a success, a failure and a probe.
use xrouter.Common.{
  ℕ, ◌+◌, ◌%◌, ◌<◌, ◌≤◌, ◌≡◌, ◌≢◌, ◌⊎◌, inl, inr, true, false, arith, leb, max, some, Option-cases,
  lookup, lookup-insert_self, option_or,
}
use xrouter.Core.{EndpointId}
use xrouter.Balancer.Health.{
  HealthRegistry, EndpointHealth, HealthState, healthy, cooling, half_open, from_secs, u32_mod,
  failed_health, default_health, health_state, is_healthy, mark_success, mark_failure, mark_probing,
  is_half_open, register, maybe_half_open, apply_retry_after, retry_health,
}
use xrouter.Balancer.Health.Backoff.{IsJitter, capped_backoff_bounds}

abbrev deadline_at : HealthState → ℕ
deadline_at healthy = 0
deadline_at (cooling until failures) = until
deadline_at half_open = 0

-- The time from which an endpoint can be used.
abbrev pub deadline : HealthRegistry → EndpointId → ℕ
deadline r id = deadline_at (option_or (lookup id r.health) default_health).state

-- An endpoint is available exactly from its deadline on, which is the end of its cooling, and 0
-- for one that is not cooling: no other call is needed for it to recover.
pub is_healthy-deadline :
    (r : HealthRegistry) (id : EndpointId) (t : ℕ) → (is_healthy r id t).0 ≡ leb (deadline r id) t
unfolding is_healthy health_state
is_healthy-deadline r id t = ground arith

-- A success makes an endpoint healthy whatever its state was.
pub mark_success-healthy :
    (r : HealthRegistry) (id : EndpointId) (t : ℕ)
    → (health_state (mark_success r id) id t).0 ≡ healthy
unfolding mark_success health_state register
mark_success-healthy r id t = ground (arith, lookup-insert_self id default_health r.health)

mark_failure-lookup :
    (scale : ℕ → ℕ) (r : HealthRegistry) (id : EndpointId) (now : ℕ)
    → lookup id (mark_failure scale r id now).health
      ≡ some (failed_health scale (option_or (lookup id r.health) default_health) now)
unfolding mark_failure register
mark_failure-lookup scale r id now = ground (
  arith,
  lookup-insert_self id (failed_health scale (option_or (lookup id r.health) default_health) now)
      r.health,
)

-- A failure of an endpoint that had two or more in a row, or that was half open, takes it out
-- of service for at least 27 and at most 300 seconds, if the jitter multiplies each of the windows of
-- 30 to 480 seconds by between 0.9 and 1.2, and the count of its failures does not wrap at 2 ^ 32.
pub mark_failure-window :
    (scale : ℕ → ℕ) (r : HealthRegistry) (id : EndpointId) (h : EndpointHealth) (now : ℕ)
    → IsJitter scale
    → lookup id r.health ≡ some h
    → h.consecutive_failures + 1 < u32_mod
    → (2 ≤ h.consecutive_failures) ⊎ (h.state ≡ half_open)
    → (now + from_secs 27 ≤ deadline (mark_failure scale r id now) id)
      × (deadline (mark_failure scale r id now) id ≤ now + from_secs 300)
unfolding failed_health
mark_failure-window scale r id h now j e room bad = ground (
  arith,
  mark_failure-lookup scale r id now,
  capped_backoff_bounds scale false ((h.consecutive_failures + 1) % u32_mod) j,
  capped_backoff_bounds scale true ((h.consecutive_failures + 1) % u32_mod) j,
)

-- A first or second failure in a row of an endpoint that is not half open leaves its deadline.
pub mark_failure-tolerated :
    (scale : ℕ → ℕ) (r : HealthRegistry) (id : EndpointId) (now : ℕ)
    → (option_or (lookup id r.health) default_health).consecutive_failures < 2
    → (option_or (lookup id r.health) default_health).state ≢ half_open
    → deadline (mark_failure scale r id now) id ≡ deadline r id
unfolding failed_health
mark_failure-tolerated scale r id now few calm = ground (arith, mark_failure-lookup scale r id now)

-- A failure never puts the deadline more than 300 seconds ahead, unless it was there before.
pub mark_failure-deadline-le :
    (scale : ℕ → ℕ) (r : HealthRegistry) (id : EndpointId) (now : ℕ)
    → IsJitter scale
    → deadline (mark_failure scale r id now) id ≤ max (deadline r id) (now + from_secs 300)
unfolding failed_health
mark_failure-deadline-le scale r id now j =
    let n = ((option_or (lookup id r.health) default_health).consecutive_failures + 1) % u32_mod in
    ground (
      arith,
      mark_failure-lookup scale r id now,
      capped_backoff_bounds scale false n j,
      capped_backoff_bounds scale true n j,
    )

-- The request that claims the probe of a half-open endpoint keeps it from all others for exactly 5
-- seconds, unless the outcome of the probe is recorded first.
pub mark_probing-claims :
    (r : HealthRegistry) (id : EndpointId) (now t : ℕ)
    → is_half_open r id ≡ true
    → (is_healthy (mark_probing r id now) id t).0 ≡ leb (now + from_secs 5) t
unfolding is_half_open mark_probing
mark_probing-claims r id now t h = elim (Option-cases (lookup id r.health)) [
  | inl e ↦ ground arith
  | inr (k, e) ↦ ground (
    arith,
    is_healthy-deadline (mark_probing r id now) id t,
    lookup-insert_self id (record k { state = cooling (now + from_secs 5) k.consecutive_failures })
        r.health,
  )
]

-- A `Retry-After` of `secs` seconds takes the endpoint out of service for exactly that long.
pub apply_retry_after-window :
    (r : HealthRegistry) (id : EndpointId) (secs now t : ℕ)
    → (is_healthy (apply_retry_after r id (some secs) now) id t).0 ≡ leb (now + from_secs secs) t
unfolding apply_retry_after register
apply_retry_after-window r id secs now t = ground (
  arith,
  is_healthy-deadline (apply_retry_after r id (some secs) now) id t,
  lookup-insert_self id (retry_health secs now) r.health,
)

-- `maybe_half_open` does to the registry what a health read does.
pub maybe_half_open-health_state :
    (r : HealthRegistry) (id : EndpointId) (now : ℕ)
    → maybe_half_open r id now ≡ (health_state r id now).1
unfolding maybe_half_open health_state
maybe_half_open-health_state r id now = ground arith

-- A second read at the same time sees the same state and changes nothing.
pub health_state_idem :
    (r : HealthRegistry) (id : EndpointId) (now : ℕ)
    → health_state (health_state r id now).1 id now
      ≡ ((health_state r id now).0, (health_state r id now).1)
unfolding health_state
health_state_idem r id now = elim (Option-cases (lookup id r.health)) [
  | inl e ↦ ground arith
  | inr (h, e) ↦ ground (arith, lookup-insert_self id (record h { state = half_open }) r.health)
]
