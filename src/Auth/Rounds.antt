-- ===== src/Auth/Rounds.antt =====
-- crates/xrouter-auth/src/lib.rs: the turns of the accounts of a provider in `DeviceStore`.
use native.Mathlib.Nat.{mod-lt, mod-add-mod}
use xrouter.Common.{
  ℕ, zero, suc, ◌+◌, ◌%◌, ◌<◌, ◌≡◌, refl, ap, ◌∙◌, false, some, List, [], ◌∷◌, ◌++◌, Text, lookup,
  lookup-insert_self, length, get_elem?, get_elem?-lt, keep, ◌==◌, option_or, arith, inl, inr,
  length-append, append_assoc, Bool-cases,
}
use xrouter.Auth.Store.{
  DeviceAccountConfig, DeviceStore, is_of, count_for, indices, at_index, next_account,
}

-- The accounts of one provider.
abbrev pub own : DeviceStore → Text → List DeviceAccountConfig
own s p = keep (is_of p) s.accounts

abbrev pub cursor : DeviceStore → Text → ℕ
cursor s p = option_or (lookup p s.rr) 0

length-indices :
    (p : Text) (i : ℕ) (xs : List DeviceAccountConfig)
    → length (indices p i xs) ≡ length (keep (is_of p) xs)
unfolding indices
length-indices p i [] = refl
length-indices p i (a ∷ xs) = elim (Bool-cases (is_of p a)) [
  | inl e ↦ rw e (ap suc (length-indices p (i + 1) xs))
  | inr e ↦ rw e (length-indices p (i + 1) xs)
]

get_elem?-length :
    (pre xs : List DeviceAccountConfig) (a : DeviceAccountConfig)
    → get_elem? (pre ++ a ∷ xs) (length pre) ≡ some a
get_elem?-length [] xs a = refl
get_elem?-length (b ∷ pre) xs a = get_elem?-length pre xs a

-- The accounts before `xs` stand in front of the indices.
at_index-indices :
    (p : Text) (xs pre : List DeviceAccountConfig) (n : ℕ)
    → at_index (pre ++ xs) (get_elem? (indices p (length pre) xs) n)
      ≡ get_elem? (keep (is_of p) xs) n
unfolding indices
at_index-indices p [] pre n = refl
at_index-indices p (a ∷ xs) pre n =
    let longer : length (pre ++ a ∷ []) ≡ length pre + 1 = length-append pre (a ∷ []) in
    let shift : (m : ℕ)
        → at_index (pre ++ a ∷ xs) (get_elem? (indices p (length pre + 1) xs) m)
          ≡ get_elem? (keep (is_of p) xs) m =
      λ m.
        (rw (longer, append_assoc pre (a ∷ []) xs) at (at_index-indices p xs (pre ++ a ∷ []) m)) in
    elim (Bool-cases (is_of p a)) [ inl e ↦ rw e (start shift n) | inr e ↦ rw e (shift n) ]
  where
    start :
        ((m : ℕ)
          → at_index (pre ++ a ∷ xs) (get_elem? (indices p (length pre + 1) xs) m)
            ≡ get_elem? (keep (is_of p) xs) m)
        → (m : ℕ)
        → at_index (pre ++ a ∷ xs) (get_elem? (length pre ∷ indices p (length pre + 1) xs) m)
          ≡ get_elem? (a ∷ keep (is_of p) xs) m
    start shift zero = get_elem?-length pre xs a
    start shift (suc m) = shift m

-- What a call returns, and the place it leaves.
next_account-own :
    (s : DeviceStore) (p : Text)
    → 0 < count_for s p
    → ((next_account s p).0 ≡ get_elem? (own s p) (cursor s p % count_for s p))
      × ((next_account s p).1.accounts ≡ s.accounts)
      × (cursor (next_account s p).1 p ≡ (cursor s p + 1) % count_for s p)
unfolding next_account count_for
next_account-own s p h =
    rw (length-indices p 0 s.accounts, nonzero)
      (
        at_index-indices p s.accounts [] (cursor s p % length (own s p)),
        refl,
        rw (lookup-insert_self p ((cursor s p + 1) % length (own s p)) s.rr) refl,
      )
  where
    nonzero : (length (own s p) == 0) ≡ false
    nonzero = ground arith

-- The store after `n` calls.
unfoldable pub after_calls : ℕ → DeviceStore → Text → DeviceStore
after_calls zero s p = s
after_calls (suc n) s p = after_calls n (next_account s p).1 p

-- The accounts of a provider that has any come in turn: the call after `n` others returns the one
-- `n` places after the cursor, in the order of the store, and no call changes the accounts.
pub next_account-rotates :
    (n : ℕ) (s : DeviceStore) (p : Text)
    → 0 < count_for s p
    → (a : DeviceAccountConfig) × (get_elem? (own s p) ((cursor s p + n) % count_for s p) ≡ some a)
      × ((next_account (after_calls n s p) p).0 ≡ some a)
      × ((after_calls n s p).accounts ≡ s.accounts)
unfolding after_calls count_for
next_account-rotates zero s p h =
    let n_below : cursor s p % count_for s p < count_for s p = mod-lt (cursor s p) h in
    let (a, at) = get_elem?-lt (own s p) (cursor s p % count_for s p) n_below in
    let start : cursor s p + 0 ≡ cursor s p = omega arith in
    (a, rw start at, (next_account-own s p h).0 ∙ at, refl)
next_account-rotates (suc n) s p h =
    let (_, kept, moved) = next_account-own s p h in
    let same : own (next_account s p).1 p ≡ own s p = ap (keep (is_of p)) kept in
    let count : count_for (next_account s p).1 p ≡ count_for s p =
      ap (λ xs. length (keep (is_of p) xs)) kept in
    let (a, at, out, kept') = next_account-rotates n (next_account s p).1 p (rw count h) in
    let step : ((cursor s p + 1) % count_for s p + n) % count_for s p
        ≡ (cursor s p + suc n) % count_for s p =
      mod-add-mod (cursor s p + 1) (count_for s p) n ∙ ap (λ x. x % count_for s p) (omega arith) in
    (a, rw (same, moved, step) at at, out, kept' ∙ kept)
