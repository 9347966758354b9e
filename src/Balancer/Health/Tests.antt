-- ===== src/Balancer/Health/Tests.antt =====
-- Runs of the health registry, and its theorems at concrete inputs.
use xrouter.Common.{
  ℕ, ◌+◌, ◌*◌, ◌<◌, ◌≤◌, ◌≡◌, refl, ◌↔◌, inl, true, false, leb, List, [], ◌∷◌, some, codes, arith,
  lookup, insert, text_eq,
}
use xrouter.Core.{EndpointId}
use xrouter.Core.Endpoint.{new, provider}
use xrouter.Balancer.Health.{
  HealthRegistry, EndpointHealth, healthy, half_open, new_registry, from_secs, count_of, register,
  health_state, is_healthy, is_half_open, mark_success, mark_failure, mark_probing,
  apply_retry_after, failed_health, capped_backoff, base_backoff, inc_counter, dec_counter,
  is_provider_degraded,
}
use xrouter.Balancer.Health.Backoff.{IsJitter}
use xrouter.Balancer.Health.Counting.{cooling_in, known_in, count_in}
use xrouter.Balancer.Health.Counters.{run-counters, run-is_provider_degraded}
use xrouter.Balancer.Health.Inflation.{repeat_success, fail_thrice, repeat_success-not_degraded}
use xrouter.Balancer.Health.History.{Call, fails, step, run}
use xrouter.Balancer.Health.Cycle.{deadline, is_healthy-deadline, mark_failure-window}

-- What a test unfolds.
ops : Unit {0}
unfolding health_state is_healthy is_half_open register mark_success mark_failure mark_probing
    apply_retry_after failed_health capped_backoff base_backoff inc_counter dec_counter
    is_provider_degraded lookup insert text_eq provider new step run count_in
ops = tt

abbrev endpoint : EndpointId
endpoint = codes "zen:pickle"

abbrev exact : ℕ → ℕ
exact d = d

exact-IsJitter : IsJitter exact
exact-IsJitter = record {
  above = λ probe failures. omega arith;
  below = λ probe failures. omega arith;
}

abbrev outage : List (ℕ × Call)
outage = (0, fails exact endpoint) ∷ (1, fails exact endpoint) ∷ (2, fails exact endpoint) ∷ []

outage_cools : (is_healthy (run new_registry outage) endpoint 5).0 ≡ false
unfolding ops
outage_cools = refl

outage_ends : (is_healthy (run new_registry outage) endpoint (from_secs 31)).0 ≡ true
unfolding ops
outage_ends = refl

run-counters_example :
    (count_of (run new_registry outage).cooling_counts (codes "zen")
      ≡ cooling_in (codes "zen") (run new_registry outage).health)
    × (known_in (codes "zen") (run new_registry outage).health
        ≤ count_of (run new_registry outage).total_counts (codes "zen"))
    × (count_of (run new_registry outage).total_counts (codes "zen") ≤ 3)
run-counters_example = run-counters outage (codes "zen") (omega arith)

run-is_provider_degraded_example :
    (is_provider_degraded (run new_registry outage) (codes "zen") ≡ true) ↔ (
      7 * count_of (run new_registry outage).total_counts (codes "zen")
      < 10 * cooling_in (codes "zen") (run new_registry outage).health)
run-is_provider_degraded_example = run-is_provider_degraded outage (codes "zen") (omega arith)

outage_degraded : is_provider_degraded (run new_registry outage) (codes "zen") ≡ true
unfolding ops
outage_degraded = refl

repeat_success-not_degraded_example :
    let r =
      fail_thrice
        (exact, 9)
        (exact, 10)
        (exact, 12)
        (repeat_success 2 new_registry endpoint)
        endpoint in
    (known_in (provider endpoint) r.health ≡ 1)
    × (cooling_in (provider endpoint) r.health ≡ 1)
    × (is_provider_degraded r (provider endpoint) ≡ false)
repeat_success-not_degraded_example =
    repeat_success-not_degraded 2 (exact, 9) (exact, 10) (exact, 12) endpoint (omega arith)
      (omega arith)

abbrev twice_failed : EndpointHealth
twice_failed = record { state = healthy; consecutive_failures = 2; last_failure = some 1 }

abbrev weak : HealthRegistry
weak = record new_registry { health = (endpoint, twice_failed) ∷ [] }

weak_lookup : lookup endpoint weak.health ≡ some twice_failed
unfolding ops
weak_lookup = refl

is_healthy-deadline_example : (is_healthy weak endpoint 4).0 ≡ leb (deadline weak endpoint) 4
is_healthy-deadline_example = is_healthy-deadline weak endpoint 4

mark_failure-window_example :
    (7 + from_secs 27 ≤ deadline (mark_failure exact weak endpoint 7) endpoint)
    × (deadline (mark_failure exact weak endpoint 7) endpoint ≤ 7 + from_secs 300)
mark_failure-window_example =
    mark_failure-window exact weak endpoint twice_failed 7 exact-IsJitter weak_lookup (omega arith)
      (inl (omega arith))

abbrev on_probe : HealthRegistry
on_probe = record new_registry {
  health = (endpoint, record twice_failed { state = half_open }) ∷ [];
}

on_probe_half_open : is_half_open on_probe endpoint ≡ true
unfolding ops
on_probe_half_open = refl
