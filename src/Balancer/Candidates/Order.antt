-- ===== src/Balancer/Candidates/Order.antt =====
-- crates/xrouter-balancer/src/lib.rs: the order of `candidates_ordered` as the failover loop meets it.
use mathlib.Core.List.{map-append, foldr}
use mathlib.Core.List.Perm
use xrouter.Common.{
  ℕ, suc, refl, length, ◌≡◌, ◌∙◌, sym, ap, ◌⊎◌, inl, inr, List, [], ◌∷◌, ◌++◌, append_assoc, Perm,
  All, All-append, All-map, All-imp, All-both, subst, arith, true, false, option_or, lookup,
}
use xrouter.Core.{EndpointId, ModelEntry, Tier}
use xrouter.Balancer.Health.{HealthState, healthy, is_available, snapshot_states}
use xrouter.Balancer.State.{Balancer}
use xrouter.Balancer.Candidates.{
  Group, preferred, degraded, unhealthy, Groups, enumerate, group_of, split_groups, arrange,
  entries_of, ids_of, candidates_ordered,
}
use xrouter.Balancer.Candidates.Splitting.{
  joined, split_groups-perm, arrange-perm, entries_of-enumerate, IsGrouped, split_groups-IsGrouped,
  arrange-IsGrouped, EachGroup, split_groups-EachGroup, arrange-EachGroup, enumerate-All,
}
use xrouter.Balancer.Candidates.Snapshot.{available_at, snapshot_states-available}

entries_of-joined :
    (g : Groups)
    → entries_of (joined g)
      ≡ entries_of g.healthy_entries
        ++ (entries_of g.degraded_entries ++ entries_of g.unhealthy_entries)
entries_of-joined g =
    map-append _ g.healthy_entries (g.degraded_entries ++ g.unhealthy_entries)
    ∙ ap (◌++◌ (entries_of g.healthy_entries)) (map-append _ g.degraded_entries g.unhealthy_entries)

-- The snapshot state of an entry, and the group that it gives.
abbrev state_at : Balancer → Tier → ℕ → ModelEntry → HealthState
state_at b tier now e =
    option_or (lookup e.endpoint_id (snapshot_states b.health (ids_of tier.entries) now).0) healthy

abbrev pub group_at : Balancer → Tier → ℕ → ModelEntry → Group
group_at b tier now =
    group_of (snapshot_states b.health (ids_of tier.entries) now).1
      (snapshot_states b.health (ids_of tier.entries) now).0 tier.strict

abbrev pub groups_at : Balancer → Tier → ℕ → Groups
groups_at b tier now =
    arrange tier.default_entry (split_groups (group_at b tier now) (enumerate 0 tier.entries))

pub candidates_ordered-joined :
    (b : Balancer) (tier : Tier) (now : ℕ)
    → (candidates_ordered b tier now).0 ≡ entries_of (joined (groups_at b tier now))
unfolding candidates_ordered
candidates_ordered-joined b tier now = sym (entries_of-joined (groups_at b tier now))

-- Every entry of the tier is a candidate once: none is dropped, doubled or taken from elsewhere.
pub candidates_ordered-perm :
    (b : Balancer) (tier : Tier) (now : ℕ) → Perm (candidates_ordered b tier now).0 tier.entries
candidates_ordered-perm b tier now = rw (candidates_ordered-joined b tier now) (
    subst (Perm (entries_of (joined (groups_at b tier now)))) (entries_of-enumerate 0 tier.entries)
      (Perm.map _ (
        Perm.trans (arrange-perm tier.default_entry _)
          (split_groups-perm (group_at b tier now) (enumerate 0 tier.entries)))))

abbrev one_more : ModelEntry → ℕ → ℕ
one_more e n = suc n

length-foldr : (xs : List ModelEntry) → foldr one_more 0 xs ≡ length xs
length-foldr [] = refl
length-foldr (x ∷ xs) = ap suc (length-foldr xs)

length-perm : (xs ys : List ModelEntry) → Perm xs ys → length xs ≡ length ys
length-perm xs ys p =
    sym (length-foldr xs) ∙ Perm.foldr-eq (hlevel) one_more (λ a b x. refl) p 0 ∙ length-foldr ys

pub candidates_ordered-length :
    (b : Balancer) (tier : Tier) (now : ℕ)
    → length (candidates_ordered b tier now).0 ≡ length tier.entries
candidates_ordered-length b tier now = length-perm _ _ (candidates_ordered-perm b tier now)

groups_at-IsGrouped :
    (b : Balancer) (tier : Tier) (now : ℕ) → IsGrouped (group_at b tier now) (groups_at b tier now)
groups_at-IsGrouped b tier now =
    arrange-IsGrouped (group_at b tier now) tier.default_entry _
      (split_groups-IsGrouped (group_at b tier now) (enumerate 0 tier.entries))

-- The snapshot is right about each entry.
abbrev IsRead : Balancer → Tier → ℕ → ModelEntry → Type 0
IsRead b tier now e = is_available (state_at b tier now e) ≡ available_at b.health now e.endpoint_id

All-ids :
    (Q : EndpointId → Type 0) (es : List ModelEntry)
    → All Q (ids_of es)
    → All (λ (e : ModelEntry). Q e.endpoint_id) es
All-ids Q [] h = tt
All-ids Q (e ∷ es) h = (h.0, All-ids Q es h.1)

groups_at-EachGroup :
    (b : Balancer) (tier : Tier) (now : ℕ)
    → EachGroup (λ x. IsRead b tier now x.1) (groups_at b tier now)
groups_at-EachGroup b tier now = arrange-EachGroup _ tier.default_entry _ (
    split_groups-EachGroup _ (group_at b tier now) (enumerate 0 tier.entries) (
      enumerate-All (IsRead b tier now) 0 tier.entries
        (All-ids _ tier.entries (snapshot_states-available b.health (ids_of tier.entries) now))))

group_up :
    (b : Balancer) (tier : Tier) (now : ℕ) (e : ModelEntry)
    → (group_at b tier now e ≡ preferred) ⊎ (group_at b tier now e ≡ degraded)
    → IsRead b tier now e
    → available_at b.health now e.endpoint_id ≡ true
unfolding group_of
group_up b tier now e k h = ground (arith, k, h)

group_down :
    (b : Balancer) (tier : Tier) (now : ℕ) (e : ModelEntry)
    → group_at b tier now e ≡ unhealthy
    → IsRead b tier now e
    → available_at b.health now e.endpoint_id ≡ false
unfolding group_of
group_down b tier now e k h = ground (arith, k, h)

-- The candidates are the entries whose endpoints are available when the request comes, and behind
-- them those whose endpoints are not: a cooling endpoint is never tried before a usable one.
pub candidates_ordered-available_first :
    (b : Balancer) (tier : Tier) (now : ℕ)
    → (front back : List ModelEntry) × ((candidates_ordered b tier now).0 ≡ front ++ back)
      × All (λ (e : ModelEntry). available_at b.health now e.endpoint_id ≡ true) front
      × All (λ (e : ModelEntry). available_at b.health now e.endpoint_id ≡ false) back
candidates_ordered-available_first b tier now =
    let g = groups_at b tier now in
    let v = groups_at-IsGrouped b tier now in
    let w = groups_at-EachGroup b tier now in
    (
      entries_of g.healthy_entries ++ entries_of g.degraded_entries,
      entries_of g.unhealthy_entries,
      candidates_ordered-joined b tier now
          ∙ entries_of-joined g
          ∙ sym (append_assoc (entries_of g.healthy_entries) _ _),
      All-append _ (entries_of g.healthy_entries) _
          (All-map _ _ g.healthy_entries (
            All-imp (λ x h. group_up b tier now x.1 (inl h.0) h.1) g.healthy_entries
              (All-both _ _ g.healthy_entries v.up w.up)))
          (All-map _ _ g.degraded_entries (
            All-imp (λ x h. group_up b tier now x.1 (inr h.0) h.1) g.degraded_entries
              (All-both _ _ g.degraded_entries v.low w.low))),
      All-map _ _ g.unhealthy_entries (
          All-imp (λ x h. group_down b tier now x.1 h.0 h.1) g.unhealthy_entries
            (All-both _ _ g.unhealthy_entries v.down w.down)),
    )
