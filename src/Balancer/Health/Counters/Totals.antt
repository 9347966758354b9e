-- ===== src/Balancer/Health/Counters/Totals.antt =====
-- crates/xrouter-balancer/src/lib.rs: the total counters of `HealthRegistry`.
use xrouter.Common.{
  ℕ, ◌+◌, ◌<◌, ◌≤◌, ◌≡◌, refl, true, Option, none, some, [], Text, lookup, length, length-insert-le,
  Option-cases, ◌⊎◌, inl, inr, arith, insert,
}
use xrouter.Core.{EndpointId}
use xrouter.Core.Endpoint.{provider}
use xrouter.Balancer.Health.{
  HealthRegistry, EndpointHealth, half_open, cooling, count_of, default_health, usize_mod,
  from_secs, retry_health, failed_health, register, health_state, mark_success, mark_failure,
  mark_probing, maybe_half_open, apply_retry_after, mark_key_dead, clear_key,
}
use xrouter.Balancer.Health.Counting.{known_in, count_in-insert, count_of-inc_counter}
use xrouter.Balancer.Health.History.{
  Call, reads, succeeds, probes, expires, fails, retries_after, kills, clears, step,
}

-- `n` calls were made.
pub record IsBounded (n : ℕ) (r : HealthRegistry) : Type 0 where
  pub known : (p : Text) → known_in p r.health ≤ count_of r.total_counts p
  pub totals : (p : Text) → count_of r.total_counts p ≤ n
  pub size : length r.health ≤ n

abbrev Bound : ℕ → HealthRegistry → Text → Type 0
Bound n r p =
    (known_in p r.health ≤ count_of r.total_counts p)
    × (count_of r.total_counts p ≤ n)
    × (length r.health ≤ n)

-- A call that writes the entry of a registered endpoint.
write-Bound :
    (r r' : HealthRegistry) (id : EndpointId) (h : EndpointHealth) (n : ℕ) (p : Text)
    → IsBounded n r
    → n + 1 < usize_mod
    → r'.health ≡ insert id h r.health
    → r'.total_counts ≡ (register r id).total_counts
    → Bound (n + 1) r' p
unfolding register
write-Bound r r' id h n p b room e t =
    rw (e, t)
      (ground (
        arith,
        b.known p,
        b.totals p,
        b.size,
        count_in-insert (λ _. true) p id h r.health,
        count_of-inc_counter r.total_counts (provider id) p,
        length-insert-le id h r.health,
      ))

-- One that writes none.
keep-Bound :
    (r r' : HealthRegistry) (id : EndpointId) (n : ℕ) (p : Text)
    → IsBounded n r
    → n + 1 < usize_mod
    → r'.health ≡ r.health
    → (r'.total_counts ≡ r.total_counts) ⊎ (r'.total_counts ≡ (register r id).total_counts)
    → Bound (n + 1) r' p
unfolding register
keep-Bound r r' id n p b room e (inl t) = rw (e, t) (ground (arith, b.known p, b.totals p, b.size))
keep-Bound r r' id n p b room e (inr t) =
    rw (e, t)
      (ground
        (arith, b.known p, b.totals p, b.size, count_of-inc_counter r.total_counts (provider id) p))

module _ (r : HealthRegistry) (id : EndpointId) (n : ℕ) (b : IsBounded n r)
    (room : n + 1 < usize_mod) (p : Text) where
  reads-Bound : (now : ℕ) → Bound (n + 1) (health_state r id now).1 p
  unfolding health_state register
  reads-Bound now = elim (Option-cases (lookup id r.health)) [
    | inl e ↦ rw (e, health_state) (keep-Bound r r id n p b room refl (inl refl))
    | inr (h, e) ↦ ground (
      arith,
      write-Bound r (health_state r id now).1 id (record h { state = half_open }) n p b room,
      keep-Bound r r id n p b room refl (inl refl),
    )
  ]

  expires-Bound : (now : ℕ) → Bound (n + 1) (maybe_half_open r id now) p
  unfolding maybe_half_open register
  expires-Bound now = elim (Option-cases (lookup id r.health)) [
    | inl e ↦ rw (e, maybe_half_open) (keep-Bound r r id n p b room refl (inl refl))
    | inr (h, e) ↦ ground (
      arith,
      write-Bound r (maybe_half_open r id now) id (record h { state = half_open }) n p b room,
      keep-Bound r r id n p b room refl (inl refl),
    )
  ]

  probes-Bound : (now : ℕ) → Bound (n + 1) (mark_probing r id now) p
  unfolding mark_probing register
  probes-Bound now = elim (Option-cases (lookup id r.health)) [
    | inl e ↦ rw (e, mark_probing) (keep-Bound r r id n p b room refl (inl refl))
    | inr (h, e) ↦ ground (
      arith,
      write-Bound r (mark_probing r id now) id
          (record h { state = cooling (now + from_secs 5) h.consecutive_failures }) n p b room,
      keep-Bound r r id n p b room refl (inl refl),
    )
  ]

  succeeds-Bound : Bound (n + 1) (mark_success r id) p
  unfolding mark_success register
  succeeds-Bound = elim (Option-cases (lookup id r.health)) [
    | inl e ↦ ground (arith, keep-Bound r (mark_success r id) id n p b room)
    | inr (h, e) ↦ ground (arith, write-Bound r (mark_success r id) id default_health n p b room)
  ]

  fails-Bound : (scale : ℕ → ℕ) (now : ℕ) → Bound (n + 1) (mark_failure scale r id now) p
  unfolding mark_failure register
  fails-Bound scale now = elim (Option-cases (lookup id r.health)) [
    | inl e ↦ ground (
      arith,
      write-Bound r (mark_failure scale r id now) id (failed_health scale default_health now) n p b
          room,
    )
    | inr (h, e) ↦ ground (
      arith,
      write-Bound r (mark_failure scale r id now) id (failed_health scale h now) n p b room,
    )
  ]

  retries_after-Bound :
      (secs : Option ℕ) (now : ℕ) → Bound (n + 1) (apply_retry_after r id secs now) p
  unfolding apply_retry_after register
  retries_after-Bound none now = keep-Bound r r id n p b room refl (inl refl)
  retries_after-Bound (some secs) now = elim (Option-cases (lookup id r.health)) [
    | inl e ↦ ground (
      arith,
      write-Bound r (apply_retry_after r id (some secs) now) id (retry_health secs now) n p b room,
    )
    | inr (h, e) ↦ ground (
      arith,
      write-Bound r (apply_retry_after r id (some secs) now) id (retry_health secs now) n p b room,
    )
  ]

step-Bound :
    (r : HealthRegistry) (n : ℕ) (c : ℕ × Call) (p : Text)
    → IsBounded n r
    → n + 1 < usize_mod
    → Bound (n + 1) (step r c) p
unfolding step mark_key_dead clear_key
step-Bound r n (now, reads id) p b room = reads-Bound r id n b room p now
step-Bound r n (now, succeeds id) p b room = succeeds-Bound r id n b room p
step-Bound r n (now, probes id) p b room = probes-Bound r id n b room p now
step-Bound r n (now, expires id) p b room = expires-Bound r id n b room p now
step-Bound r n (now, fails scale id) p b room = fails-Bound r id n b room p scale now
step-Bound r n (now, retries_after id secs) p b room = retries_after-Bound r id n b room p secs now
step-Bound r n (now, kills key) p b room =
    keep-Bound r (mark_key_dead r key now) key n p b room refl (inl refl)
step-Bound r n (now, clears key) p b room =
    keep-Bound r (clear_key r key) key n p b room refl (inl refl)

pub step-IsBounded :
    (r : HealthRegistry) (n : ℕ) (c : ℕ × Call)
    → IsBounded n r
    → n + 1 < usize_mod
    → IsBounded (n + 1) (step r c)
step-IsBounded r n c b room = record {
  known = λ p. (step-Bound r n c p b room).0;
  totals = λ p. (step-Bound r n c p b room).1;
  size = (step-Bound r n c [] b room).2;
}
