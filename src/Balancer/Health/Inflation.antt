-- ===== src/Balancer/Health/Inflation.antt =====
-- crates/xrouter-balancer/src/lib.rs: `HealthRegistry::mark_success` at an endpoint that the map does not
-- hold.
use xrouter.Common.{
  ℕ, zero, suc, ◌+◌, ◌<◌, ◌≤◌, ◌≡◌, refl, ap, insert, false, none, [], lookup, arith, text_eq_refl,
}
use xrouter.Core.{EndpointId}
use xrouter.Core.Endpoint.{provider}
use xrouter.Balancer.Health.{
  HealthRegistry, new_registry, count_of, usize_mod, inc_counter, register, mark_success,
  is_provider_degraded, mark_failure, failed_health,
}
use xrouter.Balancer.Health.Counting.{cooling_in, known_in, count_of-inc_counter, count_in}

pub repeat_success : ℕ → HealthRegistry → EndpointId → HealthRegistry
repeat_success zero r id = r
repeat_success (suc k) r id = repeat_success k (mark_success r id) id

-- Three failures, each with its own jitter and reading of the clock.
pub fail_thrice :
    (ℕ → ℕ) × ℕ → (ℕ → ℕ) × ℕ → (ℕ → ℕ) × ℕ → HealthRegistry → EndpointId → HealthRegistry
fail_thrice (scale1, t1) (scale2, t2) (scale3, t3) r id =
    mark_failure scale3 (mark_failure scale2 (mark_failure scale1 r id t1) id t2) id t3

-- What one success of an unseen endpoint leaves.
abbrev counted_once : HealthRegistry → EndpointId → HealthRegistry
counted_once r id = record r { total_counts = inc_counter r.total_counts (provider id) }

mark_success-unseen :
    (r : HealthRegistry) (id : EndpointId)
    → lookup id r.health ≡ none
    → mark_success r id ≡ counted_once r id
unfolding mark_success register
mark_success-unseen r id e = ground arith

repeat_success-suc :
    (k : ℕ) (r : HealthRegistry) (id : EndpointId)
    → lookup id r.health ≡ none
    → repeat_success (suc k) r id ≡ repeat_success k (counted_once r id) id
unfolding repeat_success
repeat_success-suc k r id e = ap (λ x. repeat_success k x id) (mark_success-unseen r id e)

-- `k` successes of an endpoint that the map does not hold leave the map as it is and raise its
-- provider's total counter by `k`, while no counter wraps.
pub repeat_success-unseen :
    (k : ℕ) (r : HealthRegistry) (id : EndpointId)
    → lookup id r.health ≡ none
    → count_of r.total_counts (provider id) + k < usize_mod
    → ((repeat_success k r id).health ≡ r.health)
      × ((repeat_success k r id).cooling_counts ≡ r.cooling_counts)
      × (count_of (repeat_success k r id).total_counts (provider id)
          ≡ count_of r.total_counts (provider id) + k)
unfolding repeat_success
repeat_success-unseen zero r id e h = (refl, refl, omega arith)
repeat_success-unseen (suc k) r id e h = rw (repeat_success-suc k r id e) (
    ground (
      arith,
      text_eq_refl (provider id),
      count_of-inc_counter r.total_counts (provider id) (provider id),
      repeat_success-unseen k (counted_once r id) id e,
    ))

fail_thrice_lem :
    (f1 f2 f3 : (ℕ → ℕ) × ℕ) (r : HealthRegistry) (id : EndpointId) (k : ℕ)
    → r.health ≡ []
    → r.cooling_counts ≡ []
    → count_of r.total_counts (provider id) ≡ k
    → k + 1 < usize_mod
    → let r' = fail_thrice f1 f2 f3 r id in
      (known_in (provider id) r'.health ≡ 1)
      × (cooling_in (provider id) r'.health ≡ 1)
      × (count_of r'.cooling_counts (provider id) ≡ 1)
      × (count_of r'.total_counts (provider id) ≡ k + 1)
unfolding fail_thrice mark_failure failed_health count_in lookup insert
fail_thrice_lem f1 f2 f3 r id k h c t room = ground (
  arith,
  text_eq_refl id,
  text_eq_refl (provider id),
  count_of-inc_counter [] (provider id) (provider id),
  count_of-inc_counter r.total_counts (provider id) (provider id),
)

-- On a new registry, an endpoint succeeds one or more times and then fails three times, at any
-- readings of the clock and with any jitters, and the counter does not wrap. The map then holds it as the only endpoint of its provider, it is
-- cooling, and the provider is not reported degraded.
pub repeat_success-not_degraded :
    (k : ℕ) (f1 f2 f3 : (ℕ → ℕ) × ℕ) (id : EndpointId)
    → 1 ≤ k
    → k + 1 < usize_mod
    → let r = fail_thrice f1 f2 f3 (repeat_success k new_registry id) id in
      (known_in (provider id) r.health ≡ 1)
      × (cooling_in (provider id) r.health ≡ 1)
      × (is_provider_degraded r (provider id) ≡ false)
unfolding is_provider_degraded lookup
repeat_success-not_degraded k f1 f2 f3 id one room =
    let (same, none_cooling, total) = repeat_success-unseen k new_registry id refl (omega arith) in
    let (known, cooling, count, total') =
      fail_thrice_lem f1 f2 f3 (repeat_success k new_registry id) id k same none_cooling
        (omega (arith, total)) room in
    (known, cooling, ground (arith, count, total'))
