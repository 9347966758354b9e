-- ===== src/Balancer/Health/Counters.antt =====
-- crates/xrouter-balancer/src/lib.rs: the counters of `HealthRegistry` over histories of calls.
mod Steps
mod Totals
use xrouter.Common.{
  ℕ, suc, lookup, ◌+◌, ◌*◌, ◌<◌, ◌≤◌, ◌≡◌, refl, ◌↔◌, Bool, true, false, List, [], ◌∷◌, Text,
  length, arith, if◌then◌else◌,
}
use xrouter.Core.{EndpointId}
use xrouter.Balancer.Health.{
  HealthRegistry, EndpointHealth, new_registry, count_of, usize_mod, is_provider_degraded,
  mark_key_dead, clear_key,
}
use xrouter.Balancer.Health.Counting.{cooling_in, known_in, count_in}
use xrouter.Balancer.Health.History.{
  Call, reads, succeeds, probes, expires, fails, retries_after, kills, clears, step, run,
}
use Steps.{
  IsCounted, HasRoom, health_state-IsCounted, maybe_half_open-IsCounted, mark_success-IsCounted,
  mark_probing-IsCounted, apply_retry_after-IsCounted, mark_failure-IsCounted,
}
use Totals.{IsBounded, step-IsBounded}

step-IsCounted :
    (r : HealthRegistry) (c : ℕ × Call) → IsCounted r → HasRoom r → IsCounted (step r c)
unfolding step mark_key_dead clear_key
step-IsCounted r (now, reads id) h room = health_state-IsCounted r id h room now
step-IsCounted r (now, succeeds id) h room = mark_success-IsCounted r id h room
step-IsCounted r (now, probes id) h room = mark_probing-IsCounted r id h room now
step-IsCounted r (now, expires id) h room = maybe_half_open-IsCounted r id h room now
step-IsCounted r (now, fails scale id) h room = mark_failure-IsCounted r id h room scale now
step-IsCounted r (now, retries_after id secs) h room =
    apply_retry_after-IsCounted r id h room secs now
step-IsCounted r (now, kills key) h room = h
step-IsCounted r (now, clears key) h room = h

-- What holds after `n` calls.
pub record IsConsistent (n : ℕ) (r : HealthRegistry) : Type 0 where
  pub counted : (p : Text) → count_of r.cooling_counts p ≡ cooling_in p r.health
  pub bounded : IsBounded n r

step-IsConsistent :
    (r : HealthRegistry) (n : ℕ) (c : ℕ × Call)
    → IsConsistent n r
    → n + 1 < usize_mod
    → IsConsistent (n + 1) (step r c)
step-IsConsistent r n c v room = record {
  counted = step-IsCounted r c v.counted (omega (arith, v.bounded.size));
  bounded = step-IsBounded r n c v.bounded room;
}

run-IsConsistent_from :
    (r : HealthRegistry) (n : ℕ) (cs : List (ℕ × Call))
    → IsConsistent n r
    → n + length cs < usize_mod
    → IsConsistent (n + length cs) (run r cs)
unfolding run
run-IsConsistent_from r n [] v room = let e : n + 0 ≡ n = omega arith in rw e v
run-IsConsistent_from r n (c ∷ cs) v room =
    let e : n + suc (length cs) ≡ (n + 1) + length cs = omega arith in
    rw e (
      run-IsConsistent_from (step r c) (n + 1) cs (step-IsConsistent r n c v (omega arith))
        (omega arith))

new_registry-IsConsistent : IsConsistent 0 new_registry
unfolding count_in lookup
new_registry-IsConsistent = record {
  counted = λ p. refl;
  bounded = record { known = λ p. omega arith; totals = λ p. omega arith; size = omega arith };
}

-- After any history of fewer than 2 ^ 64 calls on a new registry, each provider's cooling counter
-- is the number of its endpoints that the map holds as cooling, and its total counter is at least
-- the number of its endpoints in the map and at most the number of calls.
pub run-counters :
    (cs : List (ℕ × Call)) (p : Text)
    → length cs < usize_mod
    → (count_of (run new_registry cs).cooling_counts p ≡ cooling_in p (run new_registry cs).health)
      × (known_in p (run new_registry cs).health ≤ count_of (run new_registry cs).total_counts p)
      × (count_of (run new_registry cs).total_counts p ≤ length cs)
run-counters cs p h =
    let v = run-IsConsistent_from new_registry 0 cs new_registry-IsConsistent (omega arith) in
    (v.counted p, v.bounded.known p, omega (arith, v.bounded.totals p))

cooling_in-le-known_in :
    (p : Text) (m : List (EndpointId × EndpointHealth)) → cooling_in p m ≤ known_in p m
unfolding count_in lookup
cooling_in-le-known_in p [] = omega arith
cooling_in-le-known_in p ((id, h) ∷ m) = ground (arith, cooling_in-le-known_in p m)

-- After any history of fewer than 2 ^ 64 calls on a new registry, a provider is reported
-- degraded exactly when ten times its cooling endpoints exceed seven times its total counter.
pub run-is_provider_degraded :
    (cs : List (ℕ × Call)) (p : Text)
    → length cs < usize_mod
    → (is_provider_degraded (run new_registry cs) p ≡ true) ↔ (
        7 * count_of (run new_registry cs).total_counts p
        < 10 * cooling_in p (run new_registry cs).health)
unfolding is_provider_degraded
run-is_provider_degraded cs p h = (
  ground (arith, run-counters cs p h),
  ground (arith, run-counters cs p h, cooling_in-le-known_in p (run new_registry cs).health),
)

-- After any history of fewer than 2 ^ 64 calls on a new registry, if a provider is reported
-- degraded, then more than 70% of its endpoints in the map are cooling.
pub run-degraded_cooling :
    (cs : List (ℕ × Call)) (p : Text)
    → length cs < usize_mod
    → is_provider_degraded (run new_registry cs) p ≡ true
    → 7 * known_in p (run new_registry cs).health < 10 * cooling_in p (run new_registry cs).health
run-degraded_cooling cs p h d =
    omega (arith, run-counters cs p h, (run-is_provider_degraded cs p h).0 d)
