-- ===== src/Balancer/Candidates/Snapshot.antt =====
-- crates/xrouter-balancer/src/lib.rs: `HealthRegistry::snapshot_states` and the endpoints' availability.
use xrouter.Common.{
  ℕ, ◌≡◌, ◌∙◌, inl, inr, List, [], ◌∷◌, some, Option-cases, lookup, insert, lookup-insert,
  text_eq_iff, leb, option_or, arith, true, Bool, is_some, All, All-imp, lookup-insert_self,
}
use xrouter.Core.{EndpointId}
use xrouter.Balancer.Health.{
  HealthRegistry, HealthState, healthy, half_open, is_available, health_state, snapshot_from,
  snapshot_states,
}
use xrouter.Balancer.Health.Cycle.{deadline}

abbrev pub available_at : HealthRegistry → ℕ → EndpointId → Bool
available_at r now id = leb (deadline r id) now

health_state-available :
    (r : HealthRegistry) (id : EndpointId) (now : ℕ)
    → is_available (health_state r id now).0 ≡ available_at r now id
unfolding health_state
health_state-available r id now = ground arith

-- A read changes no endpoint's availability at its time.
health_state-keeps :
    (r : HealthRegistry) (id j : EndpointId) (now : ℕ)
    → available_at (health_state r id now).1 now j ≡ available_at r now j
unfolding health_state
health_state-keeps r id j now = elim (Option-cases (lookup id r.health)) [
  | inl e ↦ ground arith
  | inr (h, e) ↦
      ground (arith, lookup-insert id j (record h { state = half_open }) r.health, text_eq_iff id j)
]

-- The states that a snapshot has so far agree with the registry.
abbrev IsTrue : List (EndpointId × HealthState) → HealthRegistry → ℕ → Type 0
IsTrue out r now =
    (j : EndpointId) (s : HealthState)
    → lookup j out ≡ some s
    → is_available s ≡ available_at r now j

IsTrue-insert :
    (out : List (EndpointId × HealthState)) (r : HealthRegistry) (id : EndpointId) (now : ℕ)
    → IsTrue out r now
    → IsTrue (insert id (health_state r id now).0 out) (health_state r id now).1 now
IsTrue-insert out r id now h j s e = ground (
  arith,
  lookup-insert id j (health_state r id now).0 out,
  text_eq_iff id j,
  health_state-available r id now,
  health_state-keeps r id j now,
  h j s,
)

pub snapshot_from-true :
    (out : List (EndpointId × HealthState)) (r : HealthRegistry) (ids : List EndpointId) (now : ℕ)
    → IsTrue out r now
    → (j : EndpointId) (s : HealthState) → lookup j (snapshot_from out r ids now).0 ≡ some s
    → is_available s ≡ available_at r now j
unfolding snapshot_from
snapshot_from-true out r [] now h j s e = h j s e
snapshot_from-true out r (id ∷ ids) now h j s e =
    snapshot_from-true (insert id (health_state r id now).0 out) (health_state r id now).1 ids now
      (IsTrue-insert out r id now h) j s e
    ∙ health_state-keeps r id j now

snapshot_from-keeps :
    (out : List (EndpointId × HealthState)) (r : HealthRegistry) (ids : List EndpointId) (now : ℕ)
    (j : EndpointId)
    → is_some (lookup j out) ≡ true
    → is_some (lookup j (snapshot_from out r ids now).0) ≡ true
unfolding snapshot_from
snapshot_from-keeps out r [] now j h = h
snapshot_from-keeps out r (id ∷ ids) now j h =
    snapshot_from-keeps (insert id (health_state r id now).0 out) (health_state r id now).1 ids now
      j (ground (arith, lookup-insert id j (health_state r id now).0 out))

snapshot_from-has :
    (out : List (EndpointId × HealthState)) (r : HealthRegistry) (ids : List EndpointId) (now : ℕ)
    → All (λ j. is_some (lookup j (snapshot_from out r ids now).0) ≡ true) ids
unfolding snapshot_from
snapshot_from-has out r [] now = tt
snapshot_from-has out r (id ∷ ids) now = (
  snapshot_from-keeps (insert id (health_state r id now).0 out) (health_state r id now).1 ids now id
      (ground (arith, lookup-insert_self id (health_state r id now).0 out)),
  snapshot_from-has (insert id (health_state r id now).0 out) (health_state r id now).1 ids now,
)

lookup-empty : (j : EndpointId) (s : HealthState) → lookup j [] ≡ some s → ⊥
unfolding lookup
lookup-empty j s e = cc

-- The snapshot of a list of endpoints says of each whether it is available.
pub snapshot_states-available :
    (r : HealthRegistry) (ids : List EndpointId) (now : ℕ)
    → All
        (λ j.
          is_available (option_or (lookup j (snapshot_states r ids now).0) healthy)
          ≡ available_at r now j)
        ids
snapshot_states-available r ids now =
    All-imp (λ j h. agree j h) ids (snapshot_from-has [] r ids now)
  where
    nothing : IsTrue [] r now
    nothing j s e = absurd (lookup-empty j s e)

    agree :
        (j : EndpointId)
        → is_some (lookup j (snapshot_from [] r ids now).0) ≡ true
        → is_available (option_or (lookup j (snapshot_from [] r ids now).0) healthy)
          ≡ available_at r now j
    agree j h = elim (Option-cases (lookup j (snapshot_from [] r ids now).0)) [
      | inl e ↦ absurd (ground (arith, h, e))
      | inr (s, e) ↦ rw e (snapshot_from-true [] r ids now nothing j s e)
    ]
