-- ===== src/Balancer/Keys/Tests.antt =====
-- Runs of the key rings, and their theorems at concrete inputs.
use xrouter.Common.{
  ℕ, ◌+◌, ◌%◌, ◌<◌, ◌≡◌, refl, ◌≢◌, ◌↔◌, true, false, [], ◌∷◌, none, some, codes, arith, length,
  lookup, insert, remove, text_eq, get_elem?,
}
use xrouter.Core.{ApiKey}
use xrouter.Balancer.Health.{is_key_dead, mark_key_dead}
use xrouter.Balancer.State.{KeyRing, Balancer, new_balancer}
use xrouter.Balancer.Keys.{
  ban_id, ban_key, is_key_banned, try_key, scan, next_key, new_ring, update_keys,
}
use xrouter.Balancer.Keys.Scan.{is_usable, slot, IsSkipped}
use xrouter.Balancer.Keys.Rotation.{
  next_key-eq-none_iff, next_key-eq-some, next_key-rotates, after_calls, AllUsable,
}
use xrouter.Balancer.Keys.Bans.{ban_key-next_key}

ops : Unit {0}
unfolding is_key_dead mark_key_dead ban_id ban_key is_key_banned try_key scan next_key new_ring
    update_keys lookup insert remove text_eq after_calls
ops = tt

abbrev two_keys : Balancer
two_keys = record new_balancer {
  keyrings = (codes "zen", record { keys = codes "k1" ∷ codes "k2" ∷ []; cursor = 0 }) ∷ [];
}

abbrev two_ring : KeyRing
two_ring = record { keys = codes "k1" ∷ codes "k2" ∷ []; cursor = 0 }

two_keys_lookup : lookup (codes "zen") two_keys.keyrings ≡ some two_ring
unfolding ops
two_keys_lookup = refl

update_keys_run : update_keys new_balancer (codes "zen") two_ring.keys ≡ two_keys
unfolding ops
update_keys_run = refl

two_keys-AllUsable : (t : ℕ) → AllUsable two_keys (codes "zen") two_ring t
unfolding ops
two_keys-AllUsable t i k e = refl

next_key-rotates_example :
    (k : ApiKey) × (get_elem? two_ring.keys ((two_ring.cursor + 3) % length two_ring.keys) ≡ some k)
    × ((next_key (after_calls (0 ∷ 4 ∷ 9 ∷ []) two_keys (codes "zen")) (codes "zen") 12).0
        ≡ some (k, (two_ring.cursor + 3) % length two_ring.keys))
next_key-rotates_example =
    next_key-rotates (0 ∷ 4 ∷ 9 ∷ []) two_keys (codes "zen") two_ring 12 two_keys_lookup
      (omega arith) (two_keys-AllUsable 0, (two_keys-AllUsable 4, (two_keys-AllUsable 9, tt)))
      (two_keys-AllUsable 12)

next_key-eq-none_iff_example : ((next_key two_keys (codes "zen") 5).0 ≡ none) ↔ (
    ((i : ℕ) (k : ApiKey)
      → get_elem? two_ring.keys i ≡ some k
      → is_usable two_keys (codes "zen") 5 k ≡ false)
    × ((next_key two_keys (codes "zen") 5).1.keyrings ≡ two_keys.keyrings)
    × ((next_key two_keys (codes "zen") 5).1.health ≡ two_keys.health))
next_key-eq-none_iff_example =
    next_key-eq-none_iff two_keys (codes "zen") two_ring 5 two_keys_lookup (omega arith)

-- The first key is dead: the second one is returned, and the cursor turns back to the first.
abbrev one_dead : Balancer
one_dead = record two_keys {
  health = record {
    health = [];
    dead_keys = (codes "k1", 0) ∷ [];
    cooling_counts = [];
    total_counts = [];
  };
}

abbrev one_dead_after : Balancer
one_dead_after = record one_dead { keyrings = (codes "zen", record two_ring { cursor = 0 }) ∷ [] }

one_dead_run : next_key one_dead (codes "zen") 5 ≡ (some (codes "k2", 1), one_dead_after)
unfolding ops
one_dead_run = refl

one_dead_lookup : lookup (codes "zen") one_dead.keyrings ≡ some two_ring
unfolding ops
one_dead_lookup = refl

next_key-eq-some_example :
    (get_elem? two_ring.keys 1 ≡ some (codes "k2"))
    × (is_usable one_dead (codes "zen") 5 (codes "k2") ≡ true)
    × ((s : ℕ) × (s < length two_ring.keys)
        × (slot one_dead (codes "zen") two_ring 5 s ≡ 1)
        × ((s' : ℕ) → s' < s → IsSkipped one_dead (codes "zen") two_ring 5 s'))
    × (lookup (codes "zen") one_dead_after.keyrings
        ≡ some (record two_ring { cursor = (1 + 1) % length two_ring.keys }))
    × (one_dead_after.health ≡ one_dead.health)
next_key-eq-some_example =
    next_key-eq-some one_dead one_dead_after (codes "zen") two_ring 5 1 (codes "k2") one_dead_lookup
      (omega arith) one_dead_run

banned_run :
    next_key (ban_key two_keys (codes "zen") (codes "k1") 300 0) (codes "zen") 5
    ≡ (some (codes "k2", 1), ban_key two_keys (codes "zen") (codes "k1") 300 0)
unfolding ops
banned_run = refl

ban_key-next_key_example : ◌≢◌ {A = ApiKey} (codes "k2") (codes "k1")
ban_key-next_key_example =
    ban_key-next_key two_keys (ban_key two_keys (codes "zen") (codes "k1") 300 0) (codes "zen")
      two_ring (codes "k1") (codes "k2") 300 0 5 1 two_keys_lookup (omega arith) (omega arith)
      banned_run

dead_run :
    next_key
      (record two_keys { health = mark_key_dead two_keys.health (codes "k1") 0 })
      (codes "zen")
      5
    ≡ (some (codes "k2", 1), one_dead_after)
unfolding ops
dead_run = refl
