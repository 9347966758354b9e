-- ===== src/Auth/Accounts.antt =====
-- crates/xrouter-auth/src/lib.rs: `add_account`, `remove_account` and `remove_accounts_for_provider` of
-- `DeviceStore` as a dictionary's operations.
use xrouter.Common.{
  ◌≡◌, refl, sym, ◌∙◌, Bool, true, false, not, ◌&&◌, Option, none, some, List, [], ◌∷◌, Text,
  text_eq, text_eq_iff, keep, if◌then◌else◌, arith, inl, inr, All, All-imp, Bool-cases,
}
use xrouter.Auth.Store.{
  DeviceAccountConfig, DeviceStore, is_same, is_account, put_account, add_account, remove_account,
  remove_accounts_for_provider,
}

-- No two accounts have the same provider and id.
unfoldable pub IsKeyed : List DeviceAccountConfig → Type 0
IsKeyed [] = Unit
IsKeyed (a ∷ xs) = All (λ b. is_same a b ≡ false) xs × IsKeyed xs

is_same_sym : (a b : DeviceAccountConfig) → is_same a b ≡ is_same b a
is_same_sym a b = ground (
  arith,
  text_eq_iff a.provider b.provider,
  text_eq_iff b.provider a.provider,
  text_eq_iff a.account_id b.account_id,
  text_eq_iff b.account_id a.account_id,
)

is_same_trans : (a b c : DeviceAccountConfig) → is_same a b ≡ true → is_same b c ≡ is_same a c
is_same_trans a b c h = ground (
  arith,
  text_eq_iff b.provider a.provider,
  text_eq_iff b.account_id a.account_id,
  text_eq_iff c.provider b.provider,
  text_eq_iff c.account_id b.account_id,
  text_eq_iff c.provider a.provider,
  text_eq_iff c.account_id a.account_id,
)

put_account-All :
    (a acct : DeviceAccountConfig) (xs : List DeviceAccountConfig)
    → is_same a acct ≡ false
    → All (λ b. is_same a b ≡ false) xs
    → All (λ b. is_same a b ≡ false) (put_account acct xs)
unfolding put_account
put_account-All a acct [] h all = (h, tt)
put_account-All a acct (b ∷ xs) h all = elim (Bool-cases (is_same acct b)) [
  | inl e ↦ rw e (h, all.1)
  | inr e ↦ rw e (all.0, put_account-All a acct xs h all.1)
]

put_account-IsKeyed :
    (acct : DeviceAccountConfig) (xs : List DeviceAccountConfig)
    → IsKeyed xs
    → IsKeyed (put_account acct xs)
unfolding IsKeyed put_account
put_account-IsKeyed acct [] h = (tt, tt)
put_account-IsKeyed acct (b ∷ xs) h = elim (Bool-cases (is_same acct b)) [
  | inl e ↦ rw e (All-imp (λ c k. sym (is_same_trans acct b c e) ∙ k) xs h.0, h.1)
  | inr e ↦
      rw e (put_account-All b acct xs (is_same_sym b acct ∙ e) h.0, put_account-IsKeyed acct xs h.1)
]

keep-All :
    (P : DeviceAccountConfig → Type 0) (f : DeviceAccountConfig → Bool)
    (xs : List DeviceAccountConfig)
    → All P xs
    → All P (keep f xs)
keep-All P f [] h = tt
keep-All P f (a ∷ xs) h = elim (Bool-cases (f a)) [
  | inl e ↦ rw e (h.0, keep-All _ f xs h.1)
  | inr e ↦ rw e (keep-All _ f xs h.1)
]

keep-IsKeyed :
    (f : DeviceAccountConfig → Bool) (xs : List DeviceAccountConfig)
    → IsKeyed xs
    → IsKeyed (keep f xs)
unfolding IsKeyed
keep-IsKeyed f [] h = tt
keep-IsKeyed f (a ∷ xs) h = elim (Bool-cases (f a)) [
  | inl e ↦ rw e (keep-All _ f xs h.0, keep-IsKeyed f xs h.1)
  | inr e ↦ rw e (keep-IsKeyed f xs h.1)
]

-- The account of a provider with an id, the first of them if there are several.
unfoldable pub find_account : List DeviceAccountConfig → Text → Text → Option DeviceAccountConfig
find_account [] p account = none
find_account (a ∷ xs) p account =
    if is_account p account a then some a else find_account xs p account

find_account-put_account :
    (xs : List DeviceAccountConfig) (acct : DeviceAccountConfig) (p account : Text)
    → find_account (put_account acct xs) p account
      ≡ (if is_account p account acct then some acct else find_account xs p account)
unfolding find_account put_account
find_account-put_account [] acct p account = refl
find_account-put_account (a ∷ xs) acct p account = ground (
  arith,
  find_account-put_account xs acct p account,
  text_eq_iff a.provider p,
  text_eq_iff a.account_id account,
  text_eq_iff acct.provider p,
  text_eq_iff acct.account_id account,
  text_eq_iff a.provider acct.provider,
  text_eq_iff a.account_id acct.account_id,
)

find_account-keep :
    (xs : List DeviceAccountConfig) (q other p account : Text)
    → find_account (keep (λ a. not (is_account q other a)) xs) p account
      ≡ (if text_eq q p && text_eq other account then none else find_account xs p account)
unfolding find_account
find_account-keep [] q other p account = ground arith
find_account-keep (a ∷ xs) q other p account = ground (
  arith,
  find_account-keep xs q other p account,
  text_eq_iff a.provider p,
  text_eq_iff a.account_id account,
  text_eq_iff a.provider q,
  text_eq_iff a.account_id other,
  text_eq_iff q p,
  text_eq_iff other account,
)

-- A store is a dictionary from a provider and an id to an account: while no two accounts have the
-- same provider and id, `add_account`, `remove_account` and `remove_accounts_for_provider` keep it
-- so; an account that was added is found in its place, one that was removed is not found, and the
-- first two calls change what is found under no other provider and id.
pub accounts-dictionary :
    (s : DeviceStore) (acct : DeviceAccountConfig) (q other p account : Text)
    → IsKeyed s.accounts
    → IsKeyed (add_account s acct).accounts
      × IsKeyed (remove_account s q other).accounts
      × IsKeyed (remove_accounts_for_provider s q).accounts
      × (find_account (add_account s acct).accounts p account
          ≡ (if is_account p account acct then some acct else find_account s.accounts p account))
      × (find_account (remove_account s q other).accounts p account ≡ (
          if text_eq q p && text_eq other account then none else find_account s.accounts p account))
unfolding add_account remove_account remove_accounts_for_provider
accounts-dictionary s acct q other p account h = (
  put_account-IsKeyed acct s.accounts h,
  keep-IsKeyed _ s.accounts h,
  keep-IsKeyed _ s.accounts h,
  find_account-put_account s.accounts acct p account,
  find_account-keep s.accounts q other p account,
)
