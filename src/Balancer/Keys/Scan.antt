-- ===== src/Balancer/Keys/Scan.antt =====
-- crates/xrouter-balancer/src/lib.rs: the loop of `Balancer::next_key` over the slots of a ring.
use native.Mathlib.Nat.{mod-lt}
use native.Mathlib.Decide.{ℕ_discrete}
use mathlib.Core.Option.{some-injective}
use xrouter.Common.{
  ℕ, zero, suc, ◌+◌, ◌%◌, ◌<◌, ◌≤◌, ◌≡◌, refl, ◌∙◌, sym, ap, Bool, true, false, not, ◌&&◌, Option,
  none, some, Text, lookup, lookup-remove, length, get_elem?, get_elem?-lt, leb, arith, Bool-cases,
  inl, inr, text_eq_iff,
}
use xrouter.Core.{ApiKey}
use xrouter.Balancer.Health.{is_key_dead}
use xrouter.Balancer.State.{KeyRing, Balancer}
use xrouter.Balancer.Keys.{ban_id, is_key_banned, try_key, store_cursor, scan}

-- The ban of a key at a time, with no change of state.
abbrev pub banned_at : Balancer → Text → ApiKey → ℕ → Bool
banned_at b provider key now = elim (lookup (ban_id provider key) b.banned_keys) [
  | none ↦ false
  | some expiry ↦ not (leb expiry now)
]

abbrev pub is_usable : Balancer → Text → ℕ → ApiKey → Bool
is_usable b provider now key = not (is_key_dead b.health key) && not (banned_at b provider key now)

-- Two balancers that differ in expired bans only.
pub record SameAt (now : ℕ) (b c : Balancer) : Type 0 where
  pub keyrings : c.keyrings ≡ b.keyrings
  pub health : c.health ≡ b.health
  pub bans :
      (provider : Text) (key : ApiKey) → banned_at c provider key now ≡ banned_at b provider key now

SameAt-refl : (now : ℕ) (b : Balancer) → SameAt now b b
SameAt-refl now b = record { keyrings = refl; health = refl; bans = λ p k. refl }

pub is_key_banned-banned_at :
    (b : Balancer) (provider : Text) (key : ApiKey) (now : ℕ)
    → (is_key_banned b provider key now).0 ≡ banned_at b provider key now
unfolding is_key_banned
is_key_banned-banned_at b provider key now = ground arith

is_key_banned-SameAt :
    (b : Balancer) (provider : Text) (key : ApiKey) (now : ℕ)
    → SameAt now b (is_key_banned b provider key now).1
unfolding is_key_banned
is_key_banned-SameAt b provider key now = record {
  keyrings = ground arith;
  health = ground arith;
  bans = λ p k. ground (
    arith,
    lookup-remove (ban_id provider key) (ban_id p k) b.banned_keys,
    text_eq_iff (ban_id provider key) (ban_id p k),
  );
}

try_key-is_usable :
    (b : Balancer) (provider : Text) (key : ApiKey) (now : ℕ)
    → ((try_key b provider key now).0 ≡ is_usable b provider now key)
unfolding try_key
try_key-is_usable b provider key now = ground (arith, is_key_banned-banned_at b provider key now)

try_key-SameAt :
    (b : Balancer) (provider : Text) (key : ApiKey) (now : ℕ)
    → SameAt now b (try_key b provider key now).1
unfolding try_key
try_key-SameAt b provider key now = elim (Bool-cases (is_key_dead b.health key)) [
  | inl e ↦ rw (e, try_key) (SameAt-refl now b)
  | inr e ↦ rw (e, try_key) (is_key_banned-SameAt b provider key now)
]

SameAt-trans : {now : ℕ} {b c d : Balancer} → SameAt now b c → SameAt now c d → SameAt now b d
SameAt-trans s t = record {
  keyrings = t.keyrings ∙ s.keyrings;
  health = t.health ∙ s.health;
  bans = λ p k. t.bans p k ∙ s.bans p k;
}

pub SameAt-is_usable :
    (now : ℕ) (b c : Balancer) (provider : Text) (key : ApiKey)
    → SameAt now b c
    → is_usable c provider now key ≡ is_usable b provider now key
SameAt-is_usable now b c provider key s = rw (s.health, s.bans provider key) refl

module _ (b : Balancer) (provider : Text) (ring : KeyRing) (now : ℕ) where
  abbrev pub slot : ℕ → ℕ
  slot s = (ring.cursor + s) % length ring.keys

  -- The key `s` places after the cursor cannot be used.
  abbrev pub IsSkipped : ℕ → Type 0
  IsSkipped s =
      (k : ApiKey) → get_elem? ring.keys (slot s) ≡ some k → is_usable b provider now k ≡ false

  -- What a scan of `n` places from `step` on ends in.
  pub data Scanned (n step : ℕ) (r : Option (ApiKey × ℕ) × Balancer) : Type 0 where
    exhausted :
        r.0 ≡ none
        → SameAt now b r.1
        → ((s : ℕ) → step ≤ s → s < step + n → IsSkipped s)
        → Scanned n step r
    found :
        (s : ℕ) (k : ApiKey) (b' : Balancer)
        → step ≤ s
        → s < step + n
        → get_elem? ring.keys (slot s) ≡ some k
        → is_usable b provider now k ≡ true
        → ((s' : ℕ) → step ≤ s' → s' < s → IsSkipped s')
        → SameAt now b b'
        → r ≡ (
          some (k, slot s),
          store_cursor b' provider ring ((ring.cursor + s + 1) % length ring.keys),
        )
        → Scanned n step r

skip_one :
    (b : Balancer) (provider : Text) (ring : KeyRing) (now step m : ℕ) (k : ApiKey)
    → get_elem? ring.keys (slot b provider ring now step) ≡ some k
    → is_usable b provider now k ≡ false
    → ((s : ℕ) → step + 1 ≤ s → s < m → IsSkipped b provider ring now s)
    → (s : ℕ) → step ≤ s
    → s < m
    → IsSkipped b provider ring now s
skip_one b provider ring now step m k e u later s lo hi j f = elim (ℕ_discrete step s) [
  | yes p ↦
      let same : k ≡ j =
        some-injective k j
          (sym e ∙ ap (λ x. get_elem? ring.keys (slot b provider ring now x)) p ∙ f) in
      rw (← same) u
  | no p ↦ later s (omega arith) hi j f
]

skip_none :
    (b : Balancer) (provider : Text) (ring : KeyRing) (now step : ℕ) (s : ℕ)
    → step ≤ s
    → s < step + 0
    → IsSkipped b provider ring now s
skip_none b provider ring now step s lo hi = absurd (omega arith)

Scanned-transfer :
    (b b' : Balancer) (provider : Text) (ring : KeyRing) (now n step : ℕ) (k : ApiKey)
    (r : Option (ApiKey × ℕ) × Balancer)
    → SameAt now b b'
    → get_elem? ring.keys (slot b provider ring now step) ≡ some k
    → is_usable b provider now k ≡ false
    → Scanned b' provider ring now n (step + 1) r
    → Scanned b provider ring now (suc n) step r
Scanned-transfer b b' provider ring now n step k r same e u (exhausted none_left kept later) =
    exhausted none_left (SameAt-trans same kept) (
      skip_one b provider ring now step (step + suc n) k e u (λ s lo hi j f.
        sym (SameAt-is_usable now b b' provider j same) ∙ later s lo (omega arith) j f))
Scanned-transfer b b' provider ring now n step k r same e u
      (found s j c lo hi at ok earlier kept out) =
    found s j c (omega arith) (omega arith) at
      (sym (SameAt-is_usable now b b' provider j same) ∙ ok)
      (skip_one b provider ring now step s k e u (λ s' lo' hi' i f.
        sym (SameAt-is_usable now b b' provider i same) ∙ earlier s' lo' hi' i f))
      (SameAt-trans same kept) out

-- The scan returns the first usable key from `step` on, within `n` places.
pub scan-Scanned :
    (n step now : ℕ) (b : Balancer) (provider : Text) (ring : KeyRing)
    → 0 < length ring.keys
    → Scanned b provider ring now n step (scan b provider ring now n step)
unfolding scan
scan-Scanned zero step now b provider ring some_key =
    exhausted refl (SameAt-refl now b) (skip_none b provider ring now step)
scan-Scanned (suc n) step now b provider ring some_key =
    let (k, e) =
      get_elem?-lt ring.keys ((ring.cursor + step) % length ring.keys)
        (mod-lt (ring.cursor + step) some_key) in
    let b' = (try_key b provider k now).1 in
    elim (Bool-cases (try_key b provider k now).0) [
      | inl usable ↦
          found step k b' (omega arith) (omega arith) e
            (sym (try_key-is_usable b provider k now) ∙ usable) (λ s lo hi. absurd (omega arith))
            (try_key-SameAt b provider k now) (rw (e, scan, usable) refl)
      | inr refused ↦
          rw (e, scan, refused)
            (Scanned-transfer b b' provider ring now n step k
              (scan b' provider ring now n (step + 1)) (try_key-SameAt b provider k now) e
              (sym (try_key-is_usable b provider k now) ∙ refused)
              (scan-Scanned n (step + 1) now b' provider ring some_key))
    ]
