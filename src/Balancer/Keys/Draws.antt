-- ===== src/Balancer/Keys/Draws.antt =====
-- crates/xrouter-balancer/src/lib.rs: `Balancer::next_key` beside the health and the bans.
use xrouter.Common.{
  ℕ, zero, suc, ◌+◌, ◌%◌, ◌≡◌, refl, ◌∙◌, ap, some, Text, lookup, lookup-remove, length, get_elem?,
  arith, Bool-cases, Option-cases, inl, inr, ◌==◌, true,
}
use xrouter.Core.{ApiKey}
use xrouter.Balancer.State.{KeyRing, Balancer}
use xrouter.Balancer.Health.{is_key_dead}
use xrouter.Balancer.Keys.Scan.{is_usable}
use xrouter.Balancer.Keys.{ban_id, is_key_banned, try_key, scan, next_key}

pub record IsDrawn (b c : Balancer) : Type 0 where
  pub health : c.health ≡ b.health
  pub bans :
      (id : Text) (t : ℕ) → lookup id c.banned_keys ≡ some t → lookup id b.banned_keys ≡ some t

pub IsDrawn-refl : (b : Balancer) → IsDrawn b b
IsDrawn-refl b = record { health = refl; bans = λ id t h. h }

pub IsDrawn-trans : {b c d : Balancer} → IsDrawn b c → IsDrawn c d → IsDrawn b d
IsDrawn-trans s t = record {
  health = t.health ∙ s.health;
  bans = λ id x h. s.bans id x (t.bans id x h);
}

pub IsDrawn-is_usable :
    (b c : Balancer) (provider : Text) (t : ℕ) (key : ApiKey)
    → IsDrawn b c
    → is_usable b provider t key ≡ true
    → is_usable c provider t key ≡ true
IsDrawn-is_usable b c provider t key d u =
    let dead : is_key_dead c.health key ≡ is_key_dead b.health key =
      ap (λ h. is_key_dead h key) d.health in
    elim (Option-cases (lookup (ban_id provider key) c.banned_keys)) [
      | inl e ↦ ground (arith, u, dead, e)
      | inr (x, e) ↦ ground (arith, u, dead, e, d.bans (ban_id provider key) x e)
    ]

try_key-IsDrawn :
    (b : Balancer) (provider : Text) (key : ApiKey) (now : ℕ)
    → IsDrawn b (try_key b provider key now).1
unfolding try_key is_key_banned
try_key-IsDrawn b provider key now = record {
  health = ground arith;
  bans = λ id t h. ground (arith, lookup-remove (ban_id provider key) id b.banned_keys, h);
}

scan-IsDrawn :
    (n : ℕ) (b : Balancer) (provider : Text) (ring : KeyRing) (now step : ℕ)
    → IsDrawn b (scan b provider ring now n step).1
unfolding scan
scan-IsDrawn zero b provider ring now step = IsDrawn-refl b
scan-IsDrawn (suc n) b provider ring now step =
    elim (Option-cases (get_elem? ring.keys ((ring.cursor + step) % length ring.keys))) [
      | inl e ↦ rw (e, scan) (IsDrawn-refl b)
      | inr (k, e) ↦
          let tried = try_key-IsDrawn b provider k now in
          elim (Bool-cases (try_key b provider k now).0) [
            | inl u ↦ rw (e, scan, u) (record { health = tried.health; bans = tried.bans })
            | inr u ↦
                rw (e, scan, u)
                  (IsDrawn-trans tried
                    (scan-IsDrawn n (try_key b provider k now).1 provider ring now (step + 1)))
          ]
    ]

pub next_key-IsDrawn :
    (b : Balancer) (provider : Text) (now : ℕ) → IsDrawn b (next_key b provider now).1
unfolding next_key
next_key-IsDrawn b provider now = elim (Option-cases (lookup provider b.keyrings)) [
  | inl e ↦ rw (e, next_key) (IsDrawn-refl b)
  | inr (ring, e) ↦ elim (Bool-cases (length ring.keys == 0)) [
    | inl z ↦ rw (e, next_key, z) (IsDrawn-refl b)
    | inr z ↦ rw (e, next_key, z) (scan-IsDrawn (length ring.keys) b provider ring now 0)
  ]
]
