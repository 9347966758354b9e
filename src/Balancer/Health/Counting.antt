-- ===== src/Balancer/Health/Counting.antt =====
-- The scan that the counters of `HealthRegistry` stand for: how many endpoints of a provider the
-- map holds, and how many of those are cooling.
use xrouter.Common.{
  ℕ, ◌+◌, ◌-◌, ◌%◌, ◌≤◌, ◌≡◌, Bool, true, ◌&&◌, Option, none, some, List, [], ◌∷◌, Text, text_eq,
  text_eq_iff, lookup, insert, lookup-insert, length, to_count, arith, if◌then◌else◌,
}
use xrouter.Core.{EndpointId}
use xrouter.Core.Endpoint.{provider}
use xrouter.Balancer.Health.{
  EndpointHealth, is_cooling, count_of, usize_mod, inc_counter, dec_counter,
}

-- What one entry of the map adds to a count.
abbrev pub counts_as : (EndpointHealth → Bool) → Text → EndpointId → Option EndpointHealth → ℕ
counts_as test p id none = 0
counts_as test p id (some h) = to_count (text_eq (provider id) p && test h)

unfoldable pub count_in : (EndpointHealth → Bool) → Text → List (EndpointId × EndpointHealth) → ℕ
count_in test p [] = 0
count_in test p ((id, h) ∷ m) = counts_as test p id (some h) + count_in test p m

abbrev pub cooling_in : Text → List (EndpointId × EndpointHealth) → ℕ
cooling_in = count_in (λ h. is_cooling h.state)

abbrev pub known_in : Text → List (EndpointId × EndpointHealth) → ℕ
known_in = count_in (λ _. true)

module _ (test : EndpointHealth → Bool) (p : Text) where
  -- A write takes the old entry's share out of the count and puts the new one's in.
  pub count_in-insert :
      (id : EndpointId) (h : EndpointHealth) (m : List (EndpointId × EndpointHealth))
      → count_in test p (insert id h m) + counts_as test p id (lookup id m)
        ≡ count_in test p m + counts_as test p id (some h)
  unfolding count_in insert lookup
  count_in-insert id h [] = omega arith
  count_in-insert id h ((j, k) ∷ m) = ground (arith, text_eq_iff j id, count_in-insert id h m)

  pub count_in-le-length : (m : List (EndpointId × EndpointHealth)) → count_in test p m ≤ length m
  unfolding count_in
  count_in-le-length [] = omega arith
  count_in-le-length ((j, k) ∷ m) = ground (arith, count_in-le-length m)

pub count_of-inc_counter :
    (c : List (Text × ℕ)) (k p : Text)
    → count_of (inc_counter c k) p
      ≡ (if text_eq k p then (count_of c p + 1) % usize_mod else count_of c p)
unfolding inc_counter
count_of-inc_counter c k p =
    ground (arith, lookup-insert k p ((count_of c k + 1) % usize_mod) c, text_eq_iff k p)

pub count_of-dec_counter :
    (c : List (Text × ℕ)) (k p : Text)
    → count_of (dec_counter c k) p ≡ (if text_eq k p then count_of c p - 1 else count_of c p)
unfolding dec_counter
count_of-dec_counter c k p = ground (arith, lookup-insert k p (count_of c k - 1) c, text_eq_iff k p)
