-- ===== src/Balancer/Keys/Rotation.antt =====
-- crates/xrouter-balancer/src/lib.rs: which key `Balancer::next_key` returns, in one call and in many.
use native.Mathlib.Nat.{add_assoc, mod-lt, mod-add-mod, mod-eq_of_lt, add-mod_right, zero-add}
use xrouter.Common.{
  List, [], ◌∷◌, All, All-imp, ℕ, zero, suc, ◌+◌, ◌-◌, ◌%◌, ◌<◌, ◌≤◌, ◌≡◌, ◌∙◌, sym, ap, ◌↔◌, true,
  false, Option, none, some, Text, lookup, lookup-insert_self, length, get_elem?, get_elem?-lt,
  lt_of_get_elem?, arith, true-ne-false,
}
use xrouter.Core.{ApiKey}
use xrouter.Balancer.State.{KeyRing, Balancer}
use xrouter.Balancer.Keys.{scan, next_key, store_cursor}
use xrouter.Balancer.Keys.Draws.{IsDrawn-is_usable, next_key-IsDrawn}
use xrouter.Balancer.Keys.Scan.{is_usable, slot, IsSkipped, Scanned, exhausted, found, scan-Scanned}

-- Every index is met within one turn of the ring.
slot_covers : (c i n : ℕ) → i < n → (s : ℕ) × (s < n) × ((c + s) % n ≡ i)
slot_covers zero i n h = (i, h, rw (zero-add i) (mod-eq_of_lt h))
slot_covers (suc c) i n h = let (s, lt, e) = slot_covers c i n h in turn s lt e
  where
    turn : (s : ℕ) → s < n → (c + s) % n ≡ i → (t : ℕ) × (t < n) × ((suc c + t) % n ≡ i)
    turn zero lt e =
        let whole : suc c + (n - 1) ≡ c + n = omega arith in
        let none_left : c + zero ≡ c = omega arith in
        (n - 1, omega arith, rw whole (add-mod_right c n ∙ (rw none_left at e)))
    turn (suc s) lt e =
        let moved : suc c + s ≡ c + suc s = omega arith in (s, omega arith, rw moved e)

-- An empty ring aside, `next_key` is a scan of the whole ring.
next_key-scan :
    (b : Balancer) (provider : Text) (ring : KeyRing) (now : ℕ)
    → lookup provider b.keyrings ≡ some ring
    → 0 < length ring.keys
    → next_key b provider now ≡ scan b provider ring now (length ring.keys) 0
unfolding next_key
next_key-scan b provider ring now e h = rw (e, next_key) (ground arith)

-- `next_key` fails on a ring that has keys exactly when every key of it is dead or banned and
-- the rings, the cursors among them, and the health of the endpoints stay as they were.
pub next_key-eq-none_iff :
    (b : Balancer) (provider : Text) (ring : KeyRing) (now : ℕ)
    → lookup provider b.keyrings ≡ some ring
    → 0 < length ring.keys
    → ((next_key b provider now).0 ≡ none) ↔ (
        ((i : ℕ) (k : ApiKey) → get_elem? ring.keys i ≡ some k → is_usable b provider now k ≡ false)
        × ((next_key b provider now).1.keyrings ≡ b.keyrings)
        × ((next_key b provider now).1.health ≡ b.health))
next_key-eq-none_iff b provider ring now e h =
    rw (next_key-scan b provider ring now e h)
      (split _ (scan-Scanned (length ring.keys) 0 now b provider ring h))
  where
    covered :
        ((s : ℕ) → 0 ≤ s → s < 0 + length ring.keys → IsSkipped b provider ring now s)
        → (i : ℕ) (k : ApiKey) → get_elem? ring.keys i ≡ some k
        → is_usable b provider now k ≡ false
    covered skipped i k at =
        let (s, lt, same) =
          slot_covers ring.cursor i (length ring.keys) (lt_of_get_elem? ring.keys i at) in
        skipped s (omega arith) (omega arith) k (rw same at)

    split :
        (r : Option (ApiKey × ℕ) × Balancer)
        → Scanned b provider ring now (length ring.keys) 0 r
        → (r.0 ≡ none) ↔ (
            ((i : ℕ) (k : ApiKey)
              → get_elem? ring.keys i ≡ some k
              → is_usable b provider now k ≡ false)
            × (r.1.keyrings ≡ b.keyrings)
            × (r.1.health ≡ b.health))
    split r (exhausted none_left same skipped) =
        (λ _. (covered skipped, same.keyrings, same.health), λ _. none_left)
    split r (found s k b' lo hi at ok earlier same out) = (
      λ failed. ground (arith, out),
      λ all. ground (arith, all.0 (slot b provider ring now s) k at),
    )

-- The key that `next_key` returns from a ring that has keys stands at the returned index, is
-- neither dead nor banned, and is the first such key from the cursor on; the cursor then points
-- behind it, and the health of the endpoints is as it was.
pub next_key-eq-some :
    (b c : Balancer) (provider : Text) (ring : KeyRing) (now i : ℕ) (k : ApiKey)
    → lookup provider b.keyrings ≡ some ring
    → 0 < length ring.keys
    → next_key b provider now ≡ (some (k, i), c)
    → (get_elem? ring.keys i ≡ some k)
      × (is_usable b provider now k ≡ true)
      × ((s : ℕ) × (s < length ring.keys)
          × (slot b provider ring now s ≡ i)
          × ((s' : ℕ) → s' < s → IsSkipped b provider ring now s'))
      × (lookup provider c.keyrings ≡ some (record ring { cursor = (i + 1) % length ring.keys }))
      × (c.health ≡ b.health)
next_key-eq-some b c provider ring now i k e h r =
    split (scan b provider ring now (length ring.keys) 0)
      (scan-Scanned (length ring.keys) 0 now b provider ring h)
      (sym (next_key-scan b provider ring now e h) ∙ r)
  where
    split :
        (r : Option (ApiKey × ℕ) × Balancer)
        → Scanned b provider ring now (length ring.keys) 0 r
        → r ≡ (some (k, i), c)
        → (get_elem? ring.keys i ≡ some k)
          × (is_usable b provider now k ≡ true)
          × ((s : ℕ) × (s < length ring.keys)
              × (slot b provider ring now s ≡ i)
              × ((s' : ℕ) → s' < s → IsSkipped b provider ring now s'))
          × (lookup provider c.keyrings
              ≡ some (record ring { cursor = (i + 1) % length ring.keys }))
          × (c.health ≡ b.health)
    split r (exhausted none_left same skipped) q = cc
    split r (found s j b' lo hi at ok earlier same out) q =
        let same_j : j ≡ k = ground (arith, out) in
        let same_i : slot b provider ring now s ≡ i = ground (arith, out) in
        let same_c : store_cursor b' provider ring ((ring.cursor + s + 1) % length ring.keys) ≡ c =
          ground (arith, out) in
        (
          rw (← same_j, ← same_i) at,
          rw (← same_j) ok,
          (s, omega arith, same_i, λ s' lt. earlier s' (omega arith) lt),
          rw (← same_c, ← same_i)
              (lookup-insert_self provider _ b'.keyrings
                ∙ ap (λ x. some (record ring { cursor = x }))
                    (sym (mod-add-mod (ring.cursor + s) (length ring.keys) 1))),
          rw (← same_c) same.health,
        )

abbrev pub AllUsable : Balancer → Text → KeyRing → ℕ → Type 0
AllUsable b provider ring now =
    (i : ℕ) (k : ApiKey) → get_elem? ring.keys i ≡ some k → is_usable b provider now k ≡ true

-- The ring one place on.
abbrev turned : KeyRing → KeyRing
turned ring = record ring { cursor = (ring.cursor % length ring.keys + 1) % length ring.keys }

next_key-first :
    (b : Balancer) (provider : Text) (ring : KeyRing) (now : ℕ)
    → lookup provider b.keyrings ≡ some ring
    → 0 < length ring.keys
    → AllUsable b provider ring now
    → ((k : ApiKey) × (get_elem? ring.keys (ring.cursor % length ring.keys) ≡ some k)
        × ((next_key b provider now).0 ≡ some (k, ring.cursor % length ring.keys)))
      × (lookup provider (next_key b provider now).1.keyrings ≡ some (turned ring))
next_key-first b provider ring now e h usable =
    let start : ring.cursor + 0 ≡ ring.cursor = omega arith in
    rw (next_key-scan b provider ring now e h)
      (split start _ (scan-Scanned (length ring.keys) 0 now b provider ring h))
  where
    split :
        ring.cursor + 0 ≡ ring.cursor
        → (r : Option (ApiKey × ℕ) × Balancer) → Scanned b provider ring now (length ring.keys) 0 r
        → ((k : ApiKey) × (get_elem? ring.keys (ring.cursor % length ring.keys) ≡ some k)
            × (r.0 ≡ some (k, ring.cursor % length ring.keys)))
          × (lookup provider r.1.keyrings ≡ some (turned ring))
    split start r (exhausted none_left same skipped) =
        let (k, at) =
          get_elem?-lt ring.keys (slot b provider ring now 0) (mod-lt (ring.cursor + 0) h) in
        absurd (true-ne-false (sym (usable _ k at) ∙ skipped 0 (omega arith) (omega arith) k at))
    split start r (found (suc s) k b' lo hi at ok earlier same out) =
        let (j, at') =
          get_elem?-lt ring.keys (slot b provider ring now 0) (mod-lt (ring.cursor + 0) h) in
        absurd (true-ne-false (sym (usable _ j at') ∙ earlier 0 (omega arith) (omega arith) j at'))
    split start r (found zero k b' lo hi at ok earlier same out) = rw out (
      (k, rw start at at, ap (λ x. some (k, x % length ring.keys)) start),
      lookup-insert_self provider _ b'.keyrings
          ∙ ap (λ x. some (record ring { cursor = (x + 1) % length ring.keys })) start
          ∙ ap (λ x. some (record ring { cursor = x }))
              (sym (mod-add-mod ring.cursor (length ring.keys) 1)),
    )

-- A call of `next_key` at any time leaves a usable key usable, whenever it is looked at.
next_key-AllUsable :
    (b : Balancer) (provider : Text) (ring : KeyRing) (now t : ℕ)
    → AllUsable b provider ring t
    → AllUsable (next_key b provider now).1 provider (turned ring) t
next_key-AllUsable b provider ring now t usable i k at =
    IsDrawn-is_usable b (next_key b provider now).1 provider t k (next_key-IsDrawn b provider now)
      (usable i k at)

next_key-All :
    (b : Balancer) (provider : Text) (ring : KeyRing) (now : ℕ) (times : List ℕ)
    → All (AllUsable b provider ring) times
    → All (AllUsable (next_key b provider now).1 provider (turned ring)) times
next_key-All b provider ring now times h =
    All-imp (λ t u. next_key-AllUsable b provider ring now t u) times h

-- The balancer after calls of `next_key`, each with its reading of the clock.
unfoldable pub after_calls : List ℕ → Balancer → Text → Balancer
after_calls [] b provider = b
after_calls (t ∷ times) b provider = after_calls times (next_key b provider t).1 provider

-- If a ring has keys, and none of them is dead or banned at any of the times at which `next_key` is
-- called, the calls return the keys in turn: the call after `n` others returns the key `n` places
-- after the cursor. The clock stands still during a call.
pub next_key-rotates :
    (times : List ℕ) (b : Balancer) (provider : Text) (ring : KeyRing) (now : ℕ)
    → lookup provider b.keyrings ≡ some ring
    → 0 < length ring.keys
    → All (AllUsable b provider ring) times
    → AllUsable b provider ring now
    → (k : ApiKey) × (get_elem? ring.keys ((ring.cursor + length times) % length ring.keys)
        ≡ some k)
      × ((next_key (after_calls times b provider) provider now).0
          ≡ some (k, (ring.cursor + length times) % length ring.keys))
unfolding after_calls
next_key-rotates [] b provider ring now e h before usable =
    let start : ring.cursor + 0 ≡ ring.cursor = omega arith in
    rw start (next_key-first b provider ring now e h usable).0
next_key-rotates (t ∷ times) b provider ring now e h before usable =
    let n = length times in
    let (_, e') = next_key-first b provider ring t e h before.0 in
    let shifted : ring.cursor + 1 + n ≡ ring.cursor + suc n = omega arith in
    let same : ((ring.cursor % length ring.keys + 1) % length ring.keys + n) % length ring.keys
        ≡ (ring.cursor + suc n) % length ring.keys =
      mod-add-mod (ring.cursor % length ring.keys + 1) (length ring.keys) n
      ∙ ap (λ x. x % length ring.keys) (add_assoc (ring.cursor % length ring.keys) 1 n)
      ∙ mod-add-mod ring.cursor (length ring.keys) (1 + n)
      ∙ ap (λ x. x % length ring.keys) (omega arith) in
    rw same at (
      next_key-rotates times (next_key b provider t).1 provider (turned ring) now e' h
        (next_key-All b provider ring t times before.1)
        (next_key-AllUsable b provider ring t now usable))
