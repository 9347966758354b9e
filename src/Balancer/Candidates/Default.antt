-- ===== src/Balancer/Candidates/Default.antt =====
-- crates/xrouter-balancer/src/lib.rs: the place of a tier's default entry in `candidates_ordered`.
use xrouter.Common.{
  ℕ, zero, suc, ◌+◌, ◌≤◌, ◌≡◌, refl, ◌≢◌, ◌∙◌, ap, ◌⊎◌, inl, inr, List, [], ◌∷◌, ◌++◌, All,
  All-append, All-take, All-drop, arith, some, get_elem?, take, drop,
}
use xrouter.Core.{ModelEntry, Tier}
use xrouter.Balancer.State.{Balancer}
use xrouter.Balancer.Candidates.{
  Indexed, weight_of, Group, preferred, degraded, unhealthy, enumerate, push_entry, split_groups,
  position, rotate_default, insert_desc, sort_desc, arrange, entries_of, candidates_ordered,
}
use xrouter.Balancer.Candidates.Sorting.{sort_desc-All}
use xrouter.Balancer.Candidates.Splitting.{Group-cases, split_groups-EachGroup, enumerate-All}
use xrouter.Balancer.Candidates.Order.{group_at, groups_at, candidates_ordered-joined}

-- The heaviest entry is put in front by the sort.
insert_desc-first :
    (x : Indexed) (ys : List Indexed)
    → All (λ y. weight_of y ≤ weight_of x) ys
    → insert_desc x ys ≡ x ∷ ys
unfolding insert_desc
insert_desc-first x [] h = refl
insert_desc-first x (y ∷ ys) h = ground arith

sort_desc-first :
    (x : Indexed) (ys : List Indexed)
    → All (λ y. weight_of y ≤ weight_of x) ys
    → sort_desc (x ∷ ys) ≡ x ∷ sort_desc ys
unfolding sort_desc
sort_desc-first x ys h = insert_desc-first x (sort_desc ys) (sort_desc-All _ ys h)

abbrev ups : (ModelEntry → Group) → ℕ → List ModelEntry → List Indexed
ups group i es = (split_groups group (enumerate i es)).healthy_entries

StandsAt : ℕ → ModelEntry → List Indexed → Type 0
StandsAt d e xs =
    (pos : ℕ) × (ys : List Indexed) × (position d xs ≡ some pos) × (drop pos xs ≡ (d, e) ∷ ys)

StandsAt-cons :
    (d i : ℕ) (e k : ModelEntry) (xs : List Indexed)
    → i ≢ d
    → StandsAt d e xs
    → StandsAt d e ((i, k) ∷ xs)
unfolding StandsAt position
StandsAt-cons d i e k xs differ (pos, ys, p, q) = (suc pos, ys, ground (arith, p), q)

module _ (group : ModelEntry → Group) (i : ℕ) (k : ModelEntry) (es : List ModelEntry) where
  ups-preferred : group k ≡ preferred → ups group i (k ∷ es) ≡ (i, k) ∷ ups group (i + 1) es
  unfolding split_groups enumerate
  ups-preferred g =
      ap (λ c. (push_entry c (i, k) (split_groups group (enumerate (i + 1) es))).healthy_entries) g

  ups-other :
      (group k ≡ degraded) ⊎ (group k ≡ unhealthy) → ups group i (k ∷ es) ≡ ups group (i + 1) es
  unfolding split_groups enumerate
  ups-other (inl g) =
      ap (λ c. (push_entry c (i, k) (split_groups group (enumerate (i + 1) es))).healthy_entries) g
  ups-other (inr g) =
      ap (λ c. (push_entry c (i, k) (split_groups group (enumerate (i + 1) es))).healthy_entries) g

StandsAt-head :
    (d i : ℕ) (e k : ModelEntry) (xs : List Indexed) → i ≡ d → k ≡ e → StandsAt d e ((i, k) ∷ xs)
unfolding StandsAt position
StandsAt-head d i e k xs same is = (0, xs, ground arith, rw (same, is) refl)

-- A preferred default entry is found in its group by its index in the tier.
ups-StandsAt :
    (group : ModelEntry → Group) (i n : ℕ) (es : List ModelEntry) (e : ModelEntry)
    → get_elem? es n ≡ some e
    → group e ≡ preferred
    → StandsAt (i + n) e (ups group i es)
ups-StandsAt group i n [] e at up = cc
ups-StandsAt group i zero (k ∷ es) e at up =
    let same : k ≡ e = cc in
    rw (ups-preferred group i k es (rw same up)) (StandsAt-head (i + 0) i e k _ (omega arith) same)
ups-StandsAt group i (suc n) (k ∷ es) e at up =
    let shifted : i + 1 + n ≡ i + suc n = omega arith in
    let later : StandsAt (i + suc n) e (ups group (i + 1) es) =
      rw shifted at (ups-StandsAt group (i + 1) n es e at up) in
    elim (Group-cases (group k)) [
      | inl g ↦
          rw (ups-preferred group i k es g) (StandsAt-cons (i + suc n) i e k _ (omega arith) later)
      | inr other ↦ rw (ups-other group i k es other) later
    ]

rotate_default-first :
    (d : ℕ) (e : ModelEntry) (xs : List Indexed)
    → StandsAt d e xs
    → All (λ x. weight_of x ≤ e.weight) xs
    → (ys : List Indexed) × (sort_desc (rotate_default d xs) ≡ (d, e) ∷ ys)
unfolding StandsAt rotate_default
rotate_default-first d e xs (pos, ys, p, q) light =
    let rest : All (λ x. weight_of x ≤ e.weight) ys =
      (rw q at (All-drop (λ x. weight_of x ≤ e.weight) pos xs light)).1 in
    let tail = ys ++ take pos xs in
    let all_light : All (λ x. weight_of x ≤ e.weight) tail =
      All-append _ ys (take pos xs) rest (All-take _ pos xs light) in
    (sort_desc tail, rw (p, rotate_default) (rw q (sort_desc-first (d, e) tail all_light)))

-- The default entry of a tier is the first candidate, if it is there, its endpoint is
-- available, its provider is not degraded where the tier is strict, and no entry of the tier
-- outweighs it.
pub candidates_ordered-default_first :
    (b : Balancer) (tier : Tier) (now : ℕ) (e : ModelEntry)
    → get_elem? tier.entries tier.default_entry ≡ some e
    → group_at b tier now e ≡ preferred
    → All (λ (k : ModelEntry). k.weight ≤ e.weight) tier.entries
    → (rest : List ModelEntry) × ((candidates_ordered b tier now).0 ≡ e ∷ rest)
unfolding arrange
candidates_ordered-default_first b tier now e at up light =
    let group = group_at b tier now in
    let start : 0 + tier.default_entry ≡ tier.default_entry = omega arith in
    let stands : StandsAt tier.default_entry e (ups group 0 tier.entries) =
      rw start at (ups-StandsAt group 0 tier.default_entry tier.entries e at up) in
    let light' : All (λ x. weight_of x ≤ e.weight) (ups group 0 tier.entries) =
      (split_groups-EachGroup (λ x. weight_of x ≤ e.weight) group (enumerate 0 tier.entries)
        (enumerate-All (λ (k : ModelEntry). k.weight ≤ e.weight) 0 tier.entries light)).up in
    let g = groups_at b tier now in
    let (ys, first) = rotate_default-first tier.default_entry e _ stands light' in
    (
      _,
      candidates_ordered-joined b tier now
          ∙ ap (λ xs. entries_of (xs ++ (g.degraded_entries ++ g.unhealthy_entries))) first,
    )
