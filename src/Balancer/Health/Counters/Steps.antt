-- ===== src/Balancer/Health/Counters/Steps.antt =====
-- crates/xrouter-balancer/src/lib.rs: the cooling counters in each operation of `HealthRegistry`.
use xrouter.Common.{
  ℕ, ◌+◌, ◌<◌, ◌≡◌, refl, Bool, true, false, Option, none, some, List, Text, lookup, insert, length,
  Option-cases, inl, inr, arith,
}
use xrouter.Core.{EndpointId}
use xrouter.Core.Endpoint.{provider}
use xrouter.Balancer.Health.{
  HealthRegistry, EndpointHealth, cooling, half_open, is_cooling, count_of, default_health,
  from_secs, retry_health, usize_mod, inc_counter, dec_counter, health_state, mark_success,
  mark_failure, failed_health, mark_probing, maybe_half_open, apply_retry_after,
}
use xrouter.Balancer.Health.Counting.{
  cooling_in, count_in-insert, count_in-le-length, count_of-inc_counter, count_of-dec_counter,
}

abbrev pub IsCounted : HealthRegistry → Type 0
IsCounted r = (p : Text) → count_of r.cooling_counts p ≡ cooling_in p r.health

-- No counter can be at its largest value.
abbrev pub HasRoom : HealthRegistry → Type 0
HasRoom r = length r.health + 1 < usize_mod

abbrev was_cooling : Option EndpointHealth → Bool
was_cooling none = false
was_cooling (some h) = is_cooling h.state

-- The counters after an entry went from `before` to `after`.
abbrev shift : List (Text × ℕ) → Text → Bool → Bool → List (Text × ℕ)
shift c k true true = c
shift c k false true = inc_counter c k
shift c k true false = dec_counter c k
shift c k false false = c

shift_lem :
    (r : HealthRegistry) (id : EndpointId) (h : EndpointHealth) (before after : Bool) (p : Text)
    → IsCounted r
    → HasRoom r
    → was_cooling (lookup id r.health) ≡ before
    → is_cooling h.state ≡ after
    → count_of (shift r.cooling_counts (provider id) before after) p
      ≡ cooling_in p (insert id h r.health)
shift_lem r id h before after p counted room b a = ground (
  arith,
  counted p,
  count_in-insert (λ k. is_cooling k.state) p id h r.health,
  count_in-le-length (λ k. is_cooling k.state) p r.health,
  count_of-inc_counter r.cooling_counts (provider id) p,
  count_of-dec_counter r.cooling_counts (provider id) p,
)

-- A failure never ends a cooling window.
failed_health_cooling :
    (scale : ℕ → ℕ) (h : EndpointHealth) (now : ℕ)
    → is_cooling h.state ≡ true
    → is_cooling (failed_health scale h now).state ≡ true
unfolding failed_health
failed_health_cooling scale h now c = ground arith

module _ (r : HealthRegistry) (id : EndpointId) (counted : IsCounted r) (room : HasRoom r) where
  pub health_state-IsCounted : (now : ℕ) → IsCounted (health_state r id now).1
  unfolding health_state
  health_state-IsCounted now p = elim (Option-cases (lookup id r.health)) [
    | inl e ↦ ground (arith, counted p)
    | inr (h, e) ↦ ground (
      arith,
      counted p,
      shift_lem r id (record h { state = half_open }) true false p counted room,
    )
  ]

  pub maybe_half_open-IsCounted : (now : ℕ) → IsCounted (maybe_half_open r id now)
  unfolding maybe_half_open
  maybe_half_open-IsCounted now p = elim (Option-cases (lookup id r.health)) [
    | inl e ↦ ground (arith, counted p)
    | inr (h, e) ↦ ground (
      arith,
      counted p,
      shift_lem r id (record h { state = half_open }) true false p counted room,
    )
  ]

  pub mark_success-IsCounted : IsCounted (mark_success r id)
  unfolding mark_success
  mark_success-IsCounted p = elim (Option-cases (lookup id r.health)) [
    | inl e ↦ ground (arith, counted p)
    | inr (h, e) ↦ ground (
      arith,
      shift_lem r id default_health (is_cooling h.state) false p counted room (rw e refl) refl,
    )
  ]

  pub mark_probing-IsCounted : (now : ℕ) → IsCounted (mark_probing r id now)
  unfolding mark_probing
  mark_probing-IsCounted now p = elim (Option-cases (lookup id r.health)) [
    | inl e ↦ ground (arith, counted p)
    | inr (h, e) ↦ ground (
      arith,
      counted p,
      shift_lem r id (record h { state = cooling (now + from_secs 5) h.consecutive_failures }) false
          true p counted room,
    )
  ]

  pub apply_retry_after-IsCounted :
      (secs : Option ℕ) (now : ℕ) → IsCounted (apply_retry_after r id secs now)
  unfolding apply_retry_after
  apply_retry_after-IsCounted none now p = counted p
  apply_retry_after-IsCounted (some secs) now p = elim (Option-cases (lookup id r.health)) [
    | inl e ↦
        ground
          (arith, shift_lem r id (retry_health secs now) false true p counted room (rw e refl) refl)
    | inr (h, e) ↦ ground (
      arith,
      shift_lem r id (retry_health secs now) (is_cooling h.state) true p counted room (rw e refl)
          refl,
    )
  ]

  pub mark_failure-IsCounted : (scale : ℕ → ℕ) (now : ℕ) → IsCounted (mark_failure scale r id now)
  unfolding mark_failure
  mark_failure-IsCounted scale now p = elim (Option-cases (lookup id r.health)) [
    | inl e ↦
        let h' = failed_health scale default_health now in
        ground
          (arith, shift_lem r id h' false (is_cooling h'.state) p counted room (rw e refl) refl)
    | inr (h, e) ↦
        let h' = failed_health scale h now in
        ground (
          arith,
          failed_health_cooling scale h now,
          shift_lem r id h' (is_cooling h.state) (is_cooling h'.state) p counted room (rw e refl)
              refl,
        )
  ]
