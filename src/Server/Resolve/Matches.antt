-- ===== src/Server/Resolve/Matches.antt =====
-- crates/xrouter-server/src/resolve.rs: the sorting and the removal of equal candidates of an id.
use xrouter.Common.{
  ◌≡◌, refl, sym, ap, ◌∙◌, ◌≢◌, inl, inr, Bool, true, false, ◌||◌, Option, List, [], ◌∷◌, Text,
  text_eq_iff, arith, if◌then◌else◌, Bool-cases, text_eq_refl, subst, true-ne-false,
}
use xrouter.Config.{Config}
use xrouter.Providers.Cache.{ModelCache}
use xrouter.Server.Resolve.{
  Candidate, pair_eq, pair_le, insert_pair, sort, dedup_from, dedup, collect_bare_candidates,
  matches_of,
}

-- Whether a candidate is in a list.
abbrev pub has : Candidate → List Candidate → Bool
has x [] = false
has x (y ∷ ys) = pair_eq y x || has x ys

pub pair_eq_iff : (x y : Candidate) → (pair_eq x y ≡ true) → x ≡ y
pair_eq_iff (p, m) (q, n) h = ground (arith, text_eq_iff p q, text_eq_iff m n)

pub pair_eq_refl : (x : Candidate) → pair_eq x x ≡ true
pair_eq_refl (p, m) = ground (arith, text_eq_refl p, text_eq_refl m)

or_swap : (a b c : Bool) → (a || (b || c)) ≡ (b || (a || c))
or_swap a b c = ground arith

or_again : (a b : Bool) → (a || b) ≡ (a || (a || b))
or_again a b = ground arith

has-insert_pair :
    (x y : Candidate) (ys : List Candidate) → has x (insert_pair y ys) ≡ (pair_eq y x || has x ys)
unfolding insert_pair
has-insert_pair x y [] = refl
has-insert_pair x y (z ∷ zs) = elim (Bool-cases (pair_le y z)) [
  | inl e ↦ rw (e, insert_pair) refl
  | inr e ↦
      rw (e, insert_pair, has-insert_pair x y zs) (or_swap (pair_eq z x) (pair_eq y x) (has x zs))
]

has-sort : (x : Candidate) (xs : List Candidate) → has x (sort xs) ≡ has x xs
unfolding sort
has-sort x [] = refl
has-sort x (y ∷ ys) = has-insert_pair x y (sort ys) ∙ ap (λ b. pair_eq y x || b) (has-sort x ys)

has-dedup_from :
    (x y : Candidate) (ys : List Candidate) → has x (dedup_from y ys) ≡ (pair_eq y x || has x ys)
unfolding dedup_from
has-dedup_from x y [] = refl
has-dedup_from x y (z ∷ zs) = elim (Bool-cases (pair_eq y z)) [
  | inl e ↦
      rw (e, dedup_from, has-dedup_from x y zs)
        (subst
          (λ (w : Candidate).
            (pair_eq y x || has x zs) ≡ (pair_eq y x || (pair_eq w x || has x zs)))
          (pair_eq_iff y z e) (or_again (pair_eq y x) (has x zs)))
  | inr e ↦ rw (e, dedup_from, has-dedup_from x z zs) refl
]

has-dedup : (x : Candidate) (xs : List Candidate) → has x (dedup xs) ≡ has x xs
unfolding dedup
has-dedup x [] = refl
has-dedup x (y ∷ ys) = has-dedup_from x y ys

-- A candidate is collected just if an entry of a tier or a cached model is a match.
pub has-collect_bare_candidates :
    (x : Candidate) (cfg : Config) (model : Text) (known : Option ModelCache)
    → has x (collect_bare_candidates cfg model known) ≡ has x (matches_of cfg model known)
unfolding collect_bare_candidates
has-collect_bare_candidates x cfg model known =
    has-dedup x (sort (matches_of cfg model known)) ∙ has-sort x (matches_of cfg model known)

cons_head : (x y : Candidate) (xs ys : List Candidate) → x ∷ xs ≡ y ∷ ys → x ≡ y
cons_head x y xs ys h = cc

cons_tail : (x y : Candidate) (xs ys : List Candidate) → x ∷ xs ≡ y ∷ ys → xs ≡ ys
cons_tail x y xs ys h = cc

dedup_from-head : (x y : Candidate) (xs ys : List Candidate) → dedup_from x xs ≡ y ∷ ys → y ≡ x
unfolding dedup_from
dedup_from-head x y [] ys h = cc
dedup_from-head x y (w ∷ ws) ys h = elim (Bool-cases (pair_eq x w)) [
  | inl e ↦
      dedup_from-head x y ws ys
        (sym (ap (λ b. if b then dedup_from x ws else x ∷ dedup_from w ws) e) ∙ h)
  | inr e ↦
      cons_head y x ys (dedup_from w ws)
        (sym h ∙ ap (λ b. if b then dedup_from x ws else x ∷ dedup_from w ws) e)
]

-- What follows an element that stays is another one.
dedup_from-distinct :
    (x y z : Candidate) (xs zs : List Candidate)
    → dedup_from x xs ≡ y ∷ z ∷ zs
    → pair_eq y z ≡ false
unfolding dedup_from
dedup_from-distinct x y z [] zs h = cc
dedup_from-distinct x y z (w ∷ ws) zs h = elim (Bool-cases (pair_eq x w)) [
  | inl e ↦
      dedup_from-distinct x y z ws zs
        (sym (ap (λ b. if b then dedup_from x ws else x ∷ dedup_from w ws) e) ∙ h)
  | inr e ↦
      let both = sym h ∙ ap (λ b. if b then dedup_from x ws else x ∷ dedup_from w ws) e in
      let z_w = dedup_from-head w z ws zs (sym (cons_tail y x (z ∷ zs) (dedup_from w ws) both)) in
      subst (λ (v : Candidate). pair_eq y v ≡ false) (sym z_w)
        (subst (λ (v : Candidate). pair_eq v w ≡ false)
          (sym (cons_head y x (z ∷ zs) (dedup_from w ws) both)) e)
]

dedup-distinct :
    (xs : List Candidate) (y z : Candidate) (zs : List Candidate)
    → dedup xs ≡ y ∷ z ∷ zs
    → pair_eq y z ≡ false
unfolding dedup
dedup-distinct [] y z zs h = cc
dedup-distinct (x ∷ xs) y z zs h = dedup_from-distinct x y z xs zs h

-- Two candidates that are collected one after the other differ.
pub collect-distinct :
    (cfg : Config) (model : Text) (known : Option ModelCache) (y z : Candidate)
    (zs : List Candidate)
    → collect_bare_candidates cfg model known ≡ y ∷ z ∷ zs
    → y ≢ z
unfolding collect_bare_candidates
collect-distinct cfg model known y z zs h same = true-ne-false (
    sym (pair_eq_refl y)
    ∙ ap (pair_eq y) same
    ∙ dedup-distinct (sort (matches_of cfg model known)) y z zs h)
