-- ===== src/Balancer/Keys.antt =====
-- crates/xrouter-balancer/src/lib.rs: `KeyRing`, and the keys and bans of `Balancer`.
pub mod Scan
pub mod Rotation
pub mod Bans
pub mod Draws
mod Tests
use xrouter.Common.{
  ℕ, zero, suc, ◌+◌, ◌%◌, Bool, true, false, not, Option, none, some, List, [], ◌∷◌, ◌++◌, Text,
  lookup, insert, remove, length, get_elem?, leb, ◌==◌, if◌then◌else◌,
}
use xrouter.Core.{ApiKey}
use xrouter.Balancer.Health.{usize_mod, from_secs, is_key_dead}
use xrouter.Balancer.State.{KeyRing, Balancer}

-- `KeyRing::new`
unfoldable pub new_ring : List ApiKey → KeyRing
new_ring keys = record { keys = keys; cursor = 0 }

-- `KeyRing::next`: `fetch_add` returns the old cursor, and wraps. The answer is `none` on an empty
-- ring.
unfoldable pub ring_next : KeyRing → Option (Option ApiKey × ℕ) × KeyRing
ring_next r = if length r.keys == 0 then (none, r) else (
  some (get_elem? r.keys (r.cursor % length r.keys), r.cursor % length r.keys),
  record r { cursor = (r.cursor + 1) % usize_mod },
)

-- `format!("{}:{}", provider, key)`
unfoldable pub ban_id : Text → ApiKey → Text
ban_id provider key = provider ++ b':' ∷ key

unfoldable pub ban_key : Balancer → Text → ApiKey → ℕ → ℕ → Balancer
ban_key b provider key secs now = record b {
  banned_keys = insert (ban_id provider key) (now + from_secs secs) b.banned_keys;
}

-- An expired ban is removed, and reported as none.
unfoldable pub is_key_banned : Balancer → Text → ApiKey → ℕ → Bool × Balancer
is_key_banned b provider key now = elim (lookup (ban_id provider key) b.banned_keys) [
  | none ↦ (false, b)
  | some expiry ↦
      if leb expiry now
      then (false, record b { banned_keys = remove (ban_id provider key) b.banned_keys })
      else (true, b)
]

unfoldable pub update_keys : Balancer → Text → List ApiKey → Balancer
unfolding new_ring
update_keys b provider keys = record b { keyrings = insert provider (new_ring keys) b.keyrings }

-- The two tests of `next_key` on one key: dead, else banned.
unfoldable pub try_key : Balancer → Text → ApiKey → ℕ → Bool × Balancer
try_key b provider key now =
    if is_key_dead b.health key
    then (false, b)
    else let (banned, b') = is_key_banned b provider key now in (not banned, b')

-- `ring.cursor.store(…)`
abbrev store_cursor : Balancer → Text → KeyRing → ℕ → Balancer
store_cursor b provider ring cursor = record b {
  keyrings = insert provider (record ring { cursor = cursor }) b.keyrings;
}

-- The loop of `next_key`, `n` rounds before its end. An index out of range would panic.
unfoldable pub scan : Balancer → Text → KeyRing → ℕ → ℕ → ℕ → Option (ApiKey × ℕ) × Balancer
scan b provider ring now zero step = (none, b)
scan b provider ring now (suc n) step =
    let idx = (ring.cursor + step) % length ring.keys in
    elim (get_elem? ring.keys idx) [
      | none ↦ (none, b)
      | some k ↦
          let (usable, b') = try_key b provider k now in
          let rest = scan b' provider ring now n (step + 1) in
          if usable
          then (
            some (k, idx),
            store_cursor b' provider ring ((ring.cursor + step + 1) % length ring.keys),
          )
          else rest
    ]

unfoldable pub next_key : Balancer → Text → ℕ → Option (ApiKey × ℕ) × Balancer
next_key b provider now = elim (lookup provider b.keyrings) [
  | none ↦ (none, b)
  | some ring ↦
      if length ring.keys == 0 then (none, b) else scan b provider ring now (length ring.keys) 0
]

unfoldable pub keys_len : Balancer → Text → ℕ
keys_len b provider = elim (lookup provider b.keyrings) [ none ↦ 0 | some ring ↦ length ring.keys ]
