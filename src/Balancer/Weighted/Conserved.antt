-- ===== src/Balancer/Weighted/Conserved.antt =====
-- crates/xrouter-balancer/src/lib.rs: the sum of the weights that `Balancer::pick_weighted` stores.
use native.Mathlib.Nat.{mod-eq_of_lt, add_left_comm}
use mathlib.Core.List.{foldr}
use mathlib.Core.List.Perm
use mathlib.Core.Option.{some-injective}
use xrouter.Common.{
  ℕ, zero, suc, ◌+◌, ◌%◌, ◌<◌, ◌≤◌, ◌≡◌, refl, sym, ap, ◌∙◌, subst, Bool, true, false, Option, none,
  some, List, [], ◌∷◌, Text, lookup, insert, lookup-insert, lookup-insert_self, text_eq, length,
  get_elem?, get_elem?-lt, all, ◌==◌, if◌then◌else◌, option_or, is_some, All, Perm, ltb, arith,
  Bool-cases, Option-cases, inl, inr,
}
use xrouter.Core.{EndpointId, ModelEntry, Tier}
use xrouter.Balancer.Health.{u32_mod}
use xrouter.Balancer.State.{Balancer, Weight, WrrState}
use xrouter.Balancer.Candidates.{candidates_ordered}
use xrouter.Balancer.Candidates.Order.{candidates_ordered-perm, candidates_ordered-length}
use xrouter.Balancer.Weighted.{
  Weights, sum_weights, raised, select, charge, wrr_weights, pick_from, pick_ordered, pick_weighted,
  exceeds, zero_weight,
}

unfoldable pub credits : Weights → ℕ
credits [] = 0
credits ((id, w) ∷ m) = w.credit + credits m

unfoldable pub debits : Weights → ℕ
debits [] = 0
debits ((id, w) ∷ m) = w.debit + debits m

-- What a key had before.
abbrev found : EndpointId → Weights → Weight
found id m = option_or (lookup id m) zero_weight

credits-insert :
    (id : EndpointId) (w : Weight) (m : Weights)
    → credits (insert id w m) + (found id m).credit ≡ credits m + w.credit
unfolding credits lookup insert
credits-insert id w [] = omega arith
credits-insert id w ((j, v) ∷ m) = elim (Bool-cases (text_eq j id)) [
  | inl e ↦ rw e (omega arith)
  | inr e ↦ rw e (omega (arith, credits-insert id w m))
]

debits-insert :
    (id : EndpointId) (w : Weight) (m : Weights)
    → debits (insert id w m) + (found id m).debit ≡ debits m + w.debit
unfolding debits lookup insert
debits-insert id w [] = omega arith
debits-insert id w ((j, v) ∷ m) = elim (Bool-cases (text_eq j id)) [
  | inl e ↦ rw e (omega arith)
  | inr e ↦ rw e (omega (arith, debits-insert id w m))
]

select-credits :
    (i : ℕ) (es : List ModelEntry) (m : Weights) (best : ℕ) (best_val : Option Weight)
    → (credits (select i es m best best_val).1 ≡ credits m + sum_weights es)
      × (debits (select i es m best best_val).1 ≡ debits m)
unfolding select sum_weights
select-credits i [] m best best_val = (omega arith, refl)
select-credits i (e ∷ es) m best best_val =
    let rest =
      select-credits (suc i) es (insert e.endpoint_id (raised e m) m)
        (if exceeds (raised e m) best_val then i else best)
        (if exceeds (raised e m) best_val then some (raised e m) else best_val) in
    (
      omega (arith, rest.0, credits-insert e.endpoint_id (raised e m) m),
      omega (arith, rest.1, debits-insert e.endpoint_id (raised e m) m),
    )

abbrev IsHeld : Weights → ModelEntry → Type 0
IsHeld m e = is_some (lookup e.endpoint_id m) ≡ true

-- A key that is there stays, and each candidate's key is there after the loop.
select-held :
    (i : ℕ) (es : List ModelEntry) (m : Weights) (best : ℕ) (best_val : Option Weight)
    (e : ModelEntry)
    → IsHeld m e
    → IsHeld (select i es m best best_val).1 e
unfolding select
select-held i [] m best best_val e h = h
select-held i (x ∷ es) m best best_val e h =
    select-held (suc i) es (insert x.endpoint_id (raised x m) m)
      (if exceeds (raised x m) best_val then i else best)
      (if exceeds (raised x m) best_val then some (raised x m) else best_val) e
      (ground (arith, h, lookup-insert x.endpoint_id e.endpoint_id (raised x m) m))

select-All_held :
    (i : ℕ) (es : List ModelEntry) (m : Weights) (best : ℕ) (best_val : Option Weight)
    → All (IsHeld (select i es m best best_val).1) es
unfolding select
select-All_held i [] m best best_val = tt
select-All_held i (x ∷ es) m best best_val = (
  select-held (suc i) es (insert x.endpoint_id (raised x m) m)
      (if exceeds (raised x m) best_val then i else best)
      (if exceeds (raised x m) best_val then some (raised x m) else best_val) x
      (ap is_some (lookup-insert_self x.endpoint_id (raised x m) m)),
  select-All_held (suc i) es (insert x.endpoint_id (raised x m) m)
      (if exceeds (raised x m) best_val then i else best)
      (if exceeds (raised x m) best_val then some (raised x m) else best_val),
)

select-lt :
    (n i : ℕ) (es : List ModelEntry) (m : Weights) (best : ℕ) (best_val : Option Weight)
    → best < n
    → i + length es ≤ n
    → (select i es m best best_val).0 < n
unfolding select
select-lt n i [] m best best_val h k = h
select-lt n i (e ∷ es) m best best_val h k =
    select-lt n (suc i) es _ _ _ (if_lt (exceeds (raised e m) best_val)) (omega arith)
  where
    if_lt : (b : Bool) → (if b then i else best) < n
    if_lt true = omega arith
    if_lt false = h

get_elem?-All :
    (P : ModelEntry → Type 0) (es : List ModelEntry) (n : ℕ) (e : ModelEntry)
    → All P es
    → get_elem? es n ≡ some e
    → P e
get_elem?-All P [] n e held at = cc
get_elem?-All P (x ∷ es) zero e held at = subst P (some-injective x e at) held.0
get_elem?-All P (x ∷ es) (suc n) e held at = get_elem?-All P es n e held.1 at

charge-balance :
    (id : EndpointId) (total : ℕ) (m : Weights)
    → is_some (lookup id m) ≡ true
    → (credits (charge id total m) ≡ credits m) × (debits (charge id total m) ≡ debits m + total)
unfolding charge
charge-balance id total m h = elim (Option-cases (lookup id m)) [
  | inl e ↦ cc
  | inr (w, e) ↦
      let c = credits-insert id (record w { debit = w.debit + total }) m in
      let d = debits-insert id (record w { debit = w.debit + total }) m in
      rw (e, charge) (omega (arith, (rw e at c)), omega (arith, (rw e at d)))
]

abbrev IsZero : Weights → Type 0
IsZero m = credits m ≡ debits m

-- What is stored: for every tier as much was added to the weights as was taken off.
abbrev pub IsBalanced : Balancer → Type 0
IsBalanced b = (key : Text) (s : WrrState) → lookup key b.wrr ≡ some s → IsZero s.weights

wrr_weights-IsZero :
    (o : Option WrrState) (n : ℕ)
    → ((s : WrrState) → o ≡ some s → IsZero s.weights)
    → IsZero (wrr_weights o n)
unfolding wrr_weights credits debits
wrr_weights-IsZero none n h = refl
wrr_weights-IsZero (some s) n h = elim (Bool-cases (s.len == n)) [
  | inl e ↦ rw (e, wrr_weights) (h s refl)
  | inr e ↦ rw (e, wrr_weights) refl
]

module _ (b : Balancer) (key : Text) (candidates : List ModelEntry) where
  abbrev started : Weights
  started = wrr_weights (lookup key b.wrr) (length candidates)

  abbrev chosen : ℕ × Weights
  chosen = select 0 candidates started 0 none

  -- The state that a choice stores.
  charged-IsZero :
      (e : ModelEntry)
      → sum_weights candidates < u32_mod
      → IsZero started
      → get_elem? candidates chosen.0 ≡ some e
      → IsZero (charge e.endpoint_id (sum_weights candidates % u32_mod) chosen.1)
  charged-IsZero e small h at =
      let s = select-credits 0 candidates started 0 none in
      let held =
        get_elem?-All (IsHeld chosen.1) candidates chosen.0 e
          (select-All_held 0 candidates started 0 none) at in
      let c = charge-balance e.endpoint_id (sum_weights candidates % u32_mod) chosen.1 held in
      let same : sum_weights candidates % u32_mod ≡ sum_weights candidates = mod-eq_of_lt small in
      omega (arith, s.0, s.1, c.0, c.1, same, h)

  stored-IsBalanced :
      (st : WrrState)
      → IsZero st.weights
      → IsBalanced b
      → IsBalanced (record b { wrr = insert key st b.wrr })
  stored-IsBalanced st zero_sum h k s at =
      let read = lookup-insert key k st b.wrr in
      elim (Bool-cases (text_eq key k)) [
        | inl e ↦
            let same : some st ≡ some s = sym (rw e at read) ∙ at in
            subst (λ (x : WrrState). IsZero x.weights) (some-injective st s same) zero_sum
        | inr e ↦ h k s (sym (rw e at read) ∙ at)
      ]

  pick_from-IsBalanced :
      sum_weights candidates < u32_mod → IsBalanced b → IsBalanced (pick_from b key candidates).1
  unfolding pick_from
  pick_from-IsBalanced small h = elim (Option-cases (get_elem? candidates chosen.0)) [
    | inl e ↦ rw (e, pick_from) h
    | inr (x, e) ↦
        rw (e, pick_from)
          (stored-IsBalanced _
            (charged-IsZero x small
              (wrr_weights-IsZero (lookup key b.wrr) (length candidates) (h key)) e)
            h)
  ]

  pick_from-is_some : 0 < length candidates → is_some (pick_from b key candidates).0 ≡ true
  unfolding pick_from
  pick_from-is_some h =
      let (x, e) =
        get_elem?-lt candidates chosen.0
          (select-lt (length candidates) 0 candidates started 0 none h (omega arith)) in
      rw (e, pick_from) refl

-- The candidates of a tier in order, with what is picked among them.
pick_ordered_sound :
    (b : Balancer) (key : Text) (candidates : List ModelEntry)
    → sum_weights candidates < u32_mod
    → IsBalanced b
    → IsBalanced (pick_ordered b key candidates).1
      × (is_some (pick_ordered b key candidates).0 ≡ ltb 0 (length candidates))
unfolding pick_ordered
pick_ordered_sound b key [] small h = (h, refl)
pick_ordered_sound b key (e ∷ es) small h =
    elim (Bool-cases (all (λ (c : ModelEntry). c.weight == 1) (e ∷ es))) [
      | inl one ↦ rw (one, pick_ordered) (h, ground arith)
      | inr one ↦
          rw (one, pick_ordered)
            (
              pick_from-IsBalanced b key (e ∷ es) small h,
              pick_from-is_some b key (e ∷ es) (omega arith) ∙ ground arith,
            )
    ]

-- The order of the candidates does not matter for the sum of their weights.
abbrev add_weight : ModelEntry → ℕ → ℕ
add_weight e n = e.weight + n

sum_weights-foldr : (xs : List ModelEntry) → foldr add_weight 0 xs ≡ sum_weights xs
unfolding sum_weights
sum_weights-foldr [] = refl
sum_weights-foldr (x ∷ xs) = ap (λ n. x.weight + n) (sum_weights-foldr xs)

sum_weights-perm : (xs ys : List ModelEntry) → Perm xs ys → sum_weights xs ≡ sum_weights ys
sum_weights-perm xs ys p =
    sym (sum_weights-foldr xs)
    ∙ Perm.foldr-eq (hlevel) add_weight (λ x y n. add_left_comm x.weight y.weight n) p 0
    ∙ sum_weights-foldr ys

-- If the weights of a tier's entries add up to less than 2 ^ 32, and the stored weights of every tier
-- add up to 0 before a call for that tier, then they add up to 0 after it, and the call picks an entry
-- just where the tier has one.
pub pick_weighted-IsBalanced :
    (b : Balancer) (tier : Tier) (now : ℕ)
    → sum_weights tier.entries < u32_mod
    → IsBalanced b
    → IsBalanced (pick_weighted b tier now).1
      × (is_some (pick_weighted b tier now).0 ≡ ltb 0 (length tier.entries))
unfolding pick_weighted candidates_ordered
pick_weighted-IsBalanced b tier now small h =
    let found = candidates_ordered b tier now in
    let n = candidates_ordered-length b tier now in
    let total = sum_weights-perm found.0 tier.entries (candidates_ordered-perm b tier now) in
    let r = pick_ordered_sound found.1 tier.name found.0 (rw total small) h in (r.0, rw n at r.1)
