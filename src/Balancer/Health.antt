-- ===== src/Balancer/Health.antt =====
-- crates/xrouter-balancer/src/lib.rs: `HealthRegistry`, the health state machine of each endpoint
-- and the per-provider counters. An `Instant` is a number of nanoseconds; each operation takes the
-- clock's reading `now`, which does not move during the operation. The counters are `usize`.
pub mod Counting
pub mod Counters
pub mod Backoff
pub mod Inflation
pub mod Cycle
pub mod History
mod Tests
use xrouter.Common.{
  ℕ, suc, ◌+◌, ◌-◌, ◌*◌, ◌^◌, ◌%◌, ◌≡◌, refl, Bool, true, false, not, ◌&&◌, ◌||◌, Option, none,
  some, List, [], ◌∷◌, map, Text, lookup, insert, remove, ltb, leb, ◌==◌, if◌then◌else◌, option_or,
  is_some, min,
}
use xrouter.Core.{EndpointId, ApiKey}
use xrouter.Core.Endpoint.{provider}

abbrev pub usize_mod : ℕ
usize_mod = 2 ^ 64

abbrev pub u32_mod : ℕ
u32_mod = 2 ^ 32

-- `Duration::from_secs`
abbrev pub from_secs : ℕ → ℕ
from_secs s = s * 1_000_000_000

pub data HealthState : Type 0 where
  healthy : HealthState
  cooling : (until failures : ℕ) → HealthState
  half_open : HealthState

pub record EndpointHealth : Type 0 where
  pub state : HealthState
  pub consecutive_failures : ℕ
  pub last_failure : Option ℕ

-- `EndpointHealth::default`
abbrev pub default_health : EndpointHealth
default_health = record { state = healthy; consecutive_failures = 0; last_failure = none }

pub record HealthRegistry : Type 0 where
  pub health : List (EndpointId × EndpointHealth)
  pub dead_keys : List (Text × ℕ)
  pub cooling_counts : List (Text × ℕ)
  pub total_counts : List (Text × ℕ)

-- `HealthRegistry::new`
abbrev pub new_registry : HealthRegistry
new_registry = record { health = []; dead_keys = []; cooling_counts = []; total_counts = [] }

abbrev pub is_cooling : HealthState → Bool
is_cooling healthy = false
is_cooling (cooling until failures) = true
is_cooling half_open = false

abbrev pub is_half_open_state : HealthState → Bool
is_half_open_state healthy = false
is_half_open_state (cooling until failures) = false
is_half_open_state half_open = true

-- A counter's value, 0 for a provider that has none.
abbrev pub count_of : List (Text × ℕ) → Text → ℕ
count_of counts key = option_or (lookup key counts) 0

-- `fetch_add(1)` wraps.
unfoldable pub inc_counter : List (Text × ℕ) → Text → List (Text × ℕ)
inc_counter counts key = insert key ((count_of counts key + 1) % usize_mod) counts

-- `fetch_update` with `checked_sub(1)`: a counter at 0 stays, and a missing one is not made.
unfoldable pub dec_counter : List (Text × ℕ) → Text → List (Text × ℕ)
dec_counter counts key = elim (lookup key counts) [
  | none ↦ counts
  | some v ↦ if v == 0 then counts else insert key (v - 1) counts
]

unfoldable pub register : HealthRegistry → EndpointId → HealthRegistry
register r id =
    if is_some (lookup id r.health)
    then r
    else record r { total_counts = inc_counter r.total_counts (provider id) }

abbrev with_state : EndpointHealth → HealthState → EndpointHealth
with_state h s = record h { state = s }

-- An expired cooling endpoint becomes half open, and leaves the count of the cooling ones.
advance : HealthRegistry → EndpointId → EndpointHealth → HealthRegistry
advance r id h = record r {
  health = insert id (with_state h half_open) r.health;
  cooling_counts = dec_counter r.cooling_counts (provider id);
}

read_state :
    HealthRegistry → EndpointId → EndpointHealth → ℕ → HealthState → HealthState × HealthRegistry
read_state r id h now healthy = (healthy, r)
read_state r id h now half_open = (half_open, r)
read_state r id h now (cooling until failures) =
    if leb until now then (half_open, advance r id h) else (cooling until failures, r)

unfoldable pub health_state : HealthRegistry → EndpointId → ℕ → HealthState × HealthRegistry
unfolding read_state advance
health_state r id now = elim (lookup id r.health) [
  | none ↦ (healthy, r)
  | some h ↦ read_state r id h now h.state
]

abbrev pub is_available : HealthState → Bool
is_available s = not (is_cooling s)

unfoldable pub is_healthy : HealthRegistry → EndpointId → ℕ → Bool × HealthRegistry
is_healthy r id now = let (s, r') = health_state r id now in (is_available s, r')

unfoldable pub is_half_open : HealthRegistry → EndpointId → Bool
is_half_open r id = elim (lookup id r.health) [ none ↦ false | some h ↦ is_half_open_state h.state ]

-- The branch of `mark_success` that finds the endpoint.
reset_health : HealthRegistry → EndpointId → EndpointHealth → HealthRegistry
reset_health r id h = record r {
  health = insert id default_health r.health;
  cooling_counts =
      if is_cooling h.state then dec_counter r.cooling_counts (provider id) else r.cooling_counts;
}

-- An endpoint that is not in the map is registered and not added.
unfoldable pub mark_success : HealthRegistry → EndpointId → HealthRegistry
unfolding register reset_health
mark_success r id =
    let r' = register r id in
    elim (lookup id r'.health) [ none ↦ r' | some h ↦ reset_health r' id h ]

-- The cooling window before jitter.
unfoldable pub base_backoff : Bool → ℕ → ℕ
base_backoff was_half_open failures =
    if was_half_open then from_secs 30 else from_secs (30 * 2 ^ min (failures - 3) 4)

-- `mul_f64(jitter)` is `scale`; the window is then cut at 300 seconds.
unfoldable pub capped_backoff : (ℕ → ℕ) → Bool → ℕ → ℕ
capped_backoff scale was_half_open failures =
    min (scale (base_backoff was_half_open failures)) (from_secs 300)

-- The entry after one more failure.
unfoldable pub failed_health : (ℕ → ℕ) → EndpointHealth → ℕ → EndpointHealth
failed_health scale h now =
    let failures = (h.consecutive_failures + 1) % u32_mod in
    let probe = is_half_open_state h.state in
    record {
      state =
          if leb 3 failures || probe
          then cooling (now + capped_backoff scale probe failures) failures
          else h.state;
      consecutive_failures = failures;
      last_failure = some now;
    }

unfoldable pub mark_failure : (ℕ → ℕ) → HealthRegistry → EndpointId → ℕ → HealthRegistry
unfolding register
mark_failure scale r id now =
    let r' = register r id in
    let h = option_or (lookup id r'.health) default_health in
    let h' = failed_health scale h now in
    record r' {
      health = insert id h' r'.health;
      cooling_counts =
          if is_cooling h'.state && not (is_cooling h.state)
          then inc_counter r'.cooling_counts (provider id)
          else r'.cooling_counts;
    }

-- The single probe of a half-open endpoint holds the others off for 5 seconds.
unfoldable pub mark_probing : HealthRegistry → EndpointId → ℕ → HealthRegistry
mark_probing r id now = elim (lookup id r.health) [
  | none ↦ r
  | some h ↦
      if is_half_open_state h.state
      then record r {
        health =
            insert id (with_state h (cooling (now + from_secs 5) h.consecutive_failures)) r.health;
        cooling_counts = inc_counter r.cooling_counts (provider id);
      }
      else r
]

unfoldable pub mark_key_dead : HealthRegistry → Text → ℕ → HealthRegistry
mark_key_dead r key now = record r { dead_keys = insert key now r.dead_keys }

unfoldable pub is_key_dead : HealthRegistry → Text → Bool
is_key_dead r key = is_some (lookup key r.dead_keys)

unfoldable pub clear_key : HealthRegistry → Text → HealthRegistry
clear_key r key = record r { dead_keys = remove key r.dead_keys }

-- The loop of `snapshot_states`: one read for each id, on the registry that the last one left.
unfoldable pub snapshot_from :
    List (EndpointId × HealthState)
    → HealthRegistry
    → List EndpointId
    → ℕ
    → List (EndpointId × HealthState) × HealthRegistry
snapshot_from out r [] now = (out, r)
snapshot_from out r (id ∷ ids) now =
    let (s, r') = health_state r id now in snapshot_from (insert id s out) r' ids now

abbrev pub snapshot_states :
    HealthRegistry → List EndpointId → ℕ → List (EndpointId × HealthState) × HealthRegistry
snapshot_states r ids now = snapshot_from [] r ids now

expire_cooling : HealthRegistry → EndpointId → EndpointHealth → ℕ → HealthState → HealthRegistry
expire_cooling r id h now healthy = r
expire_cooling r id h now half_open = r
expire_cooling r id h now (cooling until failures) = if leb until now then advance r id h else r

unfoldable pub maybe_half_open : HealthRegistry → EndpointId → ℕ → HealthRegistry
unfolding expire_cooling advance
maybe_half_open r id now = elim (lookup id r.health) [
  | none ↦ r
  | some h ↦ expire_cooling r id h now h.state
]

-- `cooling / total > 0.7` over `f64`: exact below 2 ^ 49 endpoints, where the quotient of two
-- counts other than 7 / 10 is not rounded to 0.7.
unfoldable pub is_provider_degraded : HealthRegistry → Text → Bool
is_provider_degraded r p =
    let total = count_of r.total_counts p in
    if total == 0 then false else ltb (7 * total) (10 * count_of r.cooling_counts p)

-- The entry that a `Retry-After` of `secs` seconds writes.
abbrev pub retry_health : ℕ → ℕ → EndpointHealth
retry_health secs now = record {
  state = cooling (now + from_secs secs) 1;
  consecutive_failures = 1;
  last_failure = some now;
}

-- `Retry-After`, with `parse::<u64>` done: `none` is a missing header or one that is no number.
unfoldable pub apply_retry_after : HealthRegistry → EndpointId → Option ℕ → ℕ → HealthRegistry
unfolding register
apply_retry_after r id none now = r
apply_retry_after r id (some secs) now =
    let r' = register r id in
    let h = option_or (lookup id r'.health) default_health in
    record r' {
      health = insert id (retry_health secs now) r'.health;
      cooling_counts =
          if is_cooling h.state
          then r'.cooling_counts
          else inc_counter r'.cooling_counts (provider id);
    }
