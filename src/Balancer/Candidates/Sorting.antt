-- ===== src/Balancer/Candidates/Sorting.antt =====
-- crates/xrouter-balancer/src/lib.rs: the rotation and the stable sort of `candidates_ordered`.
use native.Mathlib.Nat.{le_trans}
use mathlib.Core.List.{perm_append_comm}
use mathlib.Core.List.Perm
use xrouter.Common.{
  ℕ, ◌≤◌, List, [], ◌∷◌, ◌++◌, Perm, take, drop, take-append-drop, leb, arith, All, All-append,
  All-take, All-drop, All-imp, Bool-cases, Option-cases, inl, inr, subst,
}
use xrouter.Balancer.Candidates.{
  Indexed, weight_of, position, rotate_default, insert_desc, sort_desc,
}

abbrev pub Descending : List Indexed → Type 0
Descending [] = Unit
Descending (x ∷ xs) = All (λ y. weight_of y ≤ weight_of x) xs × Descending xs

-- `rotate_left` puts nothing in and leaves nothing out.
pub rotate_default-perm : (d : ℕ) (xs : List Indexed) → Perm (rotate_default d xs) xs
unfolding rotate_default
rotate_default-perm d xs = elim (Option-cases (position d xs)) [
  | inl e ↦ rw (e, rotate_default) (Perm.refl xs)
  | inr (pos, e) ↦
      rw (e, rotate_default)
        (subst (Perm (drop pos xs ++ take pos xs)) (take-append-drop pos xs)
          (perm_append_comm (drop pos xs) (take pos xs)))
]

insert_desc-perm : (x : Indexed) (ys : List Indexed) → Perm (insert_desc x ys) (x ∷ ys)
unfolding insert_desc
insert_desc-perm x [] = Perm.refl (x ∷ [])
insert_desc-perm x (y ∷ ys) = elim (Bool-cases (leb (weight_of y) (weight_of x))) [
  | inl e ↦ rw e (Perm.refl (x ∷ y ∷ ys))
  | inr e ↦ rw e (Perm.trans (Perm.cons y (insert_desc-perm x ys)) (Perm.swap x y ys))
]

pub sort_desc-perm : (xs : List Indexed) → Perm (sort_desc xs) xs
unfolding sort_desc
sort_desc-perm [] = Perm.nil
sort_desc-perm (x ∷ xs) =
    Perm.trans (insert_desc-perm x (sort_desc xs)) (Perm.cons x (sort_desc-perm xs))

-- What holds of every entry of a group still does after the rotation and the sort.
module _ (P : Indexed → Type 0) where
  insert_desc-All : (x : Indexed) (ys : List Indexed) → P x → All P ys → All P (insert_desc x ys)
  unfolding insert_desc
  insert_desc-All x [] h k = (h, tt)
  insert_desc-All x (y ∷ ys) h k = elim (Bool-cases (leb (weight_of y) (weight_of x))) [
    | inl e ↦ rw e (h, k)
    | inr e ↦ rw e (k.0, insert_desc-All x ys h k.1)
  ]

  pub sort_desc-All : (xs : List Indexed) → All P xs → All P (sort_desc xs)
  unfolding sort_desc
  sort_desc-All [] h = tt
  sort_desc-All (x ∷ xs) h = insert_desc-All x (sort_desc xs) h.0 (sort_desc-All xs h.1)

  pub rotate_default-All : (d : ℕ) (xs : List Indexed) → All P xs → All P (rotate_default d xs)
  unfolding rotate_default
  rotate_default-All d xs h = elim (Option-cases (position d xs)) [
    | inl e ↦ rw (e, rotate_default) h
    | inr (pos, e) ↦
        rw (e, rotate_default)
          (All-append P (drop pos xs) (take pos xs) (All-drop P pos xs h) (All-take P pos xs h))
  ]

insert_desc-Descending :
    (x : Indexed) (ys : List Indexed) → Descending ys → Descending (insert_desc x ys)
unfolding insert_desc
insert_desc-Descending x [] h = (tt, tt)
insert_desc-Descending x (y ∷ ys) h = elim (Bool-cases (leb (weight_of y) (weight_of x))) [
  | inl e ↦
      let le : weight_of y ≤ weight_of x = ground arith in
      rw e ((le, All-imp (λ z k. le_trans k le) ys h.0), h)
  | inr e ↦ rw e (
    insert_desc-All (λ z. weight_of z ≤ weight_of y) x ys (ground arith) h.0,
    insert_desc-Descending x ys h.1,
  )
]

-- The sort puts higher weights first.
pub sort_desc-Descending : (xs : List Indexed) → Descending (sort_desc xs)
unfolding sort_desc
sort_desc-Descending [] = tt
sort_desc-Descending (x ∷ xs) = insert_desc-Descending x (sort_desc xs) (sort_desc-Descending xs)
