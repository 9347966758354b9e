-- ===== src/Balancer/Candidates/Splitting.antt =====
-- crates/xrouter-balancer/src/lib.rs: the three groups of `candidates_ordered`.
use mathlib.Core.List.{perm_middle}
use mathlib.Core.List.Perm
use xrouter.Common.{ℕ, ◌+◌, ◌≡◌, refl, ap, ◌⊎◌, inl, inr, List, [], ◌∷◌, ◌++◌, Perm, All}
use xrouter.Core.{ModelEntry}
use xrouter.Balancer.Candidates.{
  Indexed, Group, preferred, degraded, unhealthy, Groups, enumerate, push_entry, split_groups,
  arrange, entries_of,
}
use xrouter.Balancer.Candidates.Sorting.{
  rotate_default-perm, sort_desc-perm, rotate_default-All, sort_desc-All,
}

abbrev pub joined : Groups → List Indexed
joined g = g.healthy_entries ++ (g.degraded_entries ++ g.unhealthy_entries)

pub Group-cases : (g : Group) → (g ≡ preferred) ⊎ (g ≡ degraded) ⊎ (g ≡ unhealthy)
Group-cases preferred = inl refl
Group-cases degraded = inr (inl refl)
Group-cases unhealthy = inr (inr refl)

push_entry-perm :
    (k : Group) (x : Indexed) (g : Groups) → Perm (joined (push_entry k x g)) (x ∷ joined g)
push_entry-perm preferred x g = Perm.refl (x ∷ joined g)
push_entry-perm degraded x g =
    perm_middle g.healthy_entries (g.degraded_entries ++ g.unhealthy_entries)
push_entry-perm unhealthy x g =
    Perm.trans
      (Perm.append_left g.healthy_entries (perm_middle g.degraded_entries g.unhealthy_entries))
      (perm_middle g.healthy_entries (g.degraded_entries ++ g.unhealthy_entries))

pub split_groups-perm :
    (group : ModelEntry → Group) (xs : List Indexed) → Perm (joined (split_groups group xs)) xs
unfolding split_groups
split_groups-perm group [] = Perm.nil
split_groups-perm group ((i, e) ∷ xs) =
    Perm.trans (push_entry-perm (group e) (i, e) (split_groups group xs))
      (Perm.cons (i, e) (split_groups-perm group xs))

pub arrange-perm : (d : ℕ) (g : Groups) → Perm (joined (arrange d g)) (joined g)
unfolding arrange
arrange-perm d g =
    Perm.append (Perm.trans (sort_desc-perm _) (rotate_default-perm d g.healthy_entries)) (
      Perm.append_right g.unhealthy_entries
        (Perm.trans (sort_desc-perm _) (rotate_default-perm d g.degraded_entries)))

pub entries_of-enumerate : (i : ℕ) (es : List ModelEntry) → entries_of (enumerate i es) ≡ es
unfolding enumerate
entries_of-enumerate i [] = refl
entries_of-enumerate i (e ∷ es) = ap (◌∷◌ e) (entries_of-enumerate (i + 1) es)

-- Every entry of a list is in the group of its own.
pub record IsGrouped (group : ModelEntry → Group) (g : Groups) : Type 0 where
  pub up : All (λ (x : Indexed). group x.1 ≡ preferred) g.healthy_entries
  pub low : All (λ (x : Indexed). group x.1 ≡ degraded) g.degraded_entries
  pub down : All (λ (x : Indexed). group x.1 ≡ unhealthy) g.unhealthy_entries

pub split_groups-IsGrouped :
    (group : ModelEntry → Group) (xs : List Indexed) → IsGrouped group (split_groups group xs)
unfolding split_groups
split_groups-IsGrouped group [] = record { up = tt; low = tt; down = tt }
split_groups-IsGrouped group ((i, e) ∷ xs) =
    let v = split_groups-IsGrouped group xs in
    elim (Group-cases (group e)) [
      | inl k ↦ rw (k, push_entry) (record { up = (k, v.up); low = v.low; down = v.down })
      | inr (inl k) ↦ rw (k, push_entry) (record { up = v.up; low = (k, v.low); down = v.down })
      | inr (inr k) ↦ rw (k, push_entry) (record { up = v.up; low = v.low; down = (k, v.down) })
    ]

pub arrange-IsGrouped :
    (group : ModelEntry → Group) (d : ℕ) (g : Groups)
    → IsGrouped group g
    → IsGrouped group (arrange d g)
unfolding arrange
arrange-IsGrouped group d g v = record {
  up = sort_desc-All _ _ (rotate_default-All _ d g.healthy_entries v.up);
  low = sort_desc-All _ _ (rotate_default-All _ d g.degraded_entries v.low);
  down = v.down;
}

-- What holds of every entry of the tier holds in each group.
module _ (P : Indexed → Type 0) where
  pub record EachGroup (g : Groups) : Type 0 where
    pub up : All P g.healthy_entries
    pub low : All P g.degraded_entries
    pub down : All P g.unhealthy_entries

  push_entry-EachGroup :
      (k : Group) (x : Indexed) (g : Groups) → P x → EachGroup g → EachGroup (push_entry k x g)
  push_entry-EachGroup preferred x g p v = record { up = (p, v.up); low = v.low; down = v.down }
  push_entry-EachGroup degraded x g p v = record { up = v.up; low = (p, v.low); down = v.down }
  push_entry-EachGroup unhealthy x g p v = record { up = v.up; low = v.low; down = (p, v.down) }

  pub split_groups-EachGroup :
      (group : ModelEntry → Group) (xs : List Indexed)
      → All P xs
      → EachGroup (split_groups group xs)
  unfolding split_groups
  split_groups-EachGroup group [] h = record { up = tt; low = tt; down = tt }
  split_groups-EachGroup group ((i, e) ∷ xs) h =
      push_entry-EachGroup (group e) (i, e) _ h.0 (split_groups-EachGroup group xs h.1)

  pub arrange-EachGroup : (d : ℕ) (g : Groups) → EachGroup g → EachGroup (arrange d g)
  unfolding arrange
  arrange-EachGroup d g v = record {
    up = sort_desc-All P _ (rotate_default-All P d g.healthy_entries v.up);
    low = sort_desc-All P _ (rotate_default-All P d g.degraded_entries v.low);
    down = v.down;
  }

pub enumerate-All :
    (Q : ModelEntry → Type 0) (i : ℕ) (es : List ModelEntry)
    → All Q es
    → All (λ (x : Indexed). Q x.1) (enumerate i es)
unfolding enumerate
enumerate-All Q i [] h = tt
enumerate-All Q i (e ∷ es) h = (h.0, enumerate-All Q (i + 1) es h.1)
