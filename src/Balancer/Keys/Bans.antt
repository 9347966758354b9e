-- ===== src/Balancer/Keys/Bans.antt =====
-- crates/xrouter-balancer/src/lib.rs: banned and dead keys in `Balancer::next_key`.
use xrouter.Common.{
  ℕ, ◌+◌, ◌<◌, ◌≡◌, refl, ◌∙◌, sym, ap, ◌≢◌, some, not, Text, lookup, lookup-insert,
  lookup-insert_self, length, leb, arith, All, text_eq_iff,
}
use xrouter.Core.{ApiKey}
use xrouter.Core.Endpoint
use xrouter.Core.Endpoint.{provider-new}
use xrouter.Balancer.Health.{from_secs, is_key_dead, mark_key_dead}
use xrouter.Balancer.State.{KeyRing, Balancer}
use xrouter.Balancer.Keys.{ban_id, ban_key, is_key_banned, next_key}
use xrouter.Balancer.Keys.Scan.{is_key_banned-banned_at}
use xrouter.Balancer.Keys.Rotation.{next_key-eq-some}

-- A ban for `secs` seconds holds exactly until they have passed.
pub ban_key-window :
    (b : Balancer) (provider : Text) (key : ApiKey) (secs now t : ℕ)
    → (is_key_banned (ban_key b provider key secs now) provider key t).0
      ≡ not (leb (now + from_secs secs) t)
unfolding ban_key
ban_key-window b provider key secs now t = ground (
  arith,
  is_key_banned-banned_at (ban_key b provider key secs now) provider key t,
  lookup-insert_self (ban_id provider key) (now + from_secs secs) b.banned_keys,
)

ban_id-new : (provider : Text) (key : ApiKey) → ban_id provider key ≡ Endpoint.new provider key
unfolding ban_id Endpoint.new
ban_id-new provider key = refl

ban_id-provider :
    (p q : Text) (k j : ApiKey)
    → All (λ c. c ≢ b':') p
    → All (λ c. c ≢ b':') q
    → ban_id p k ≡ ban_id q j
    → p ≡ q
ban_id-provider p q k j hp hq e =
    sym (provider-new p k hp)
    ∙ ap Endpoint.provider (sym (ban_id-new p k) ∙ e ∙ ban_id-new q j)
    ∙ provider-new q j hq

-- A ban at one provider does not touch the keys of another, if no provider's name holds a ':'.
pub ban_key-other_provider :
    (b : Balancer) (p q : Text) (k j : ApiKey) (secs now t : ℕ)
    → All (λ c. c ≢ b':') p
    → All (λ c. c ≢ b':') q
    → p ≢ q
    → (is_key_banned (ban_key b p k secs now) q j t).0 ≡ (is_key_banned b q j t).0
unfolding ban_key
ban_key-other_provider b p q k j secs now t hp hq differ = ground (
  arith,
  is_key_banned-banned_at (ban_key b p k secs now) q j t,
  is_key_banned-banned_at b q j t,
  lookup-insert (ban_id p k) (ban_id q j) (now + from_secs secs) b.banned_keys,
  text_eq_iff (ban_id p k) (ban_id q j),
  ban_id-provider p q k j hp hq,
)

-- While a key is banned at a provider whose ring has keys, `next_key` does not return it there.
pub ban_key-next_key :
    (b c : Balancer) (provider : Text) (ring : KeyRing) (key k : ApiKey) (secs now t i : ℕ)
    → lookup provider b.keyrings ≡ some ring
    → 0 < length ring.keys
    → t < now + from_secs secs
    → next_key (ban_key b provider key secs now) provider t ≡ (some (k, i), c)
    → k ≢ key
unfolding ban_key
ban_key-next_key b c provider ring key k secs now t i e h early r same =
    let usable =
      (next_key-eq-some (ban_key b provider key secs now) c provider ring t i k e h r).1 in
    ground
      (arith, usable, lookup-insert_self (ban_id provider key) (now + from_secs secs) b.banned_keys)

-- A dead key is never returned, from no ring that has keys.
pub mark_key_dead-next_key :
    (b c : Balancer) (provider : Text) (ring : KeyRing) (key k : ApiKey) (now t i : ℕ)
    → lookup provider b.keyrings ≡ some ring
    → 0 < length ring.keys
    → next_key (record b { health = mark_key_dead b.health key now }) provider t ≡ (some (k, i), c)
    → k ≢ key
unfolding mark_key_dead is_key_dead
mark_key_dead-next_key b c provider ring key k now t i e h r same =
    let usable =
      (next_key-eq-some (record b { health = mark_key_dead b.health key now }) c provider ring t i k
        e h r).1 in
    ground (arith, usable, lookup-insert_self key now b.health.dead_keys)
