-- ===== src/Auth/Store.antt =====
-- crates/xrouter-auth/src/lib.rs: `DeviceAccountConfig` and `DeviceStore`, the accounts of device
-- logins. Times are seconds. `load` and `save`, the file of the store, are not modelled.
use xrouter.Common.{
  ℕ, ◌+◌, ◌%◌, Bool, false, not, ◌&&◌, Option, none, some, List, [], ◌∷◌, ◌++◌, Text, codes,
  text_eq, lookup, insert, length, get_elem?, keep, take, starts_with, ◌==◌, leb, if◌then◌else◌,
  option_or,
}

pub record DeviceAccountConfig : Type 0 where
  pub account_id : Text
  pub display_name : Option Text
  pub provider : Text
  pub access_token : Text
  pub refresh_token : Option Text
  pub expires_at : Option ℕ
  pub client_id : Option Text
  pub client_secret : Option Text
  pub profile_arn : Option Text

-- The token as logs show it.
unfoldable pub masked_access_token : DeviceAccountConfig → Text
masked_access_token a =
    if starts_with (codes "eyJ") a.access_token
    then take 3 a.access_token ++ codes "…"
    else codes "<device-token>"

unfoldable pub needs_refresh : DeviceAccountConfig → ℕ → Bool
needs_refresh a now = elim a.expires_at [ some exp ↦ leb exp (now + 60) | none ↦ false ]

-- `rr` has the place of the next account of each provider.
pub record DeviceStore : Type 0 where
  pub accounts : List DeviceAccountConfig
  pub rr : List (Text × ℕ)

abbrev pub empty : DeviceStore
empty = record { accounts = []; rr = [] }

abbrev pub is_same : DeviceAccountConfig → DeviceAccountConfig → Bool
is_same acct a = text_eq a.provider acct.provider && text_eq a.account_id acct.account_id

-- The account at the first position with the same provider and id is replaced, else it is added.
unfoldable pub put_account :
    DeviceAccountConfig → List DeviceAccountConfig → List DeviceAccountConfig
put_account acct [] = acct ∷ []
put_account acct (a ∷ rest) = if is_same acct a then acct ∷ rest else a ∷ put_account acct rest

unfoldable pub add_account : DeviceStore → DeviceAccountConfig → DeviceStore
unfolding put_account
add_account s acct = record s { accounts = put_account acct s.accounts }

abbrev pub is_of : Text → DeviceAccountConfig → Bool
is_of p a = text_eq a.provider p

abbrev pub is_account : Text → Text → DeviceAccountConfig → Bool
is_account p account a = text_eq a.provider p && text_eq a.account_id account

unfoldable pub remove_account : DeviceStore → Text → Text → DeviceStore
remove_account s p account = record s {
  accounts = keep (λ a. not (is_account p account a)) s.accounts;
}

unfoldable pub remove_accounts_for_provider : DeviceStore → Text → DeviceStore
remove_accounts_for_provider s p = record s { accounts = keep (λ a. not (is_of p a)) s.accounts }

unfoldable pub count_for : DeviceStore → Text → ℕ
count_for s p = length (keep (is_of p) s.accounts)

-- The indices of the accounts of a provider, in a list that starts at `i`.
unfoldable pub indices : Text → ℕ → List DeviceAccountConfig → List ℕ
indices p i [] = []
indices p i (a ∷ rest) = if is_of p a then i ∷ indices p (i + 1) rest else indices p (i + 1) rest

abbrev pub at_index : List DeviceAccountConfig → Option ℕ → Option DeviceAccountConfig
at_index accounts none = none
at_index accounts (some i) = get_elem? accounts i

-- An index out of range would panic.
unfoldable pub next_account : DeviceStore → Text → Option DeviceAccountConfig × DeviceStore
unfolding indices
next_account s p =
    let idxs = indices p 0 s.accounts in
    let next = option_or (lookup p s.rr) 0 in
    if length idxs == 0 then (none, s) else (
      at_index s.accounts (get_elem? idxs (next % length idxs)),
      record s { rr = insert p ((next + 1) % length idxs) s.rr },
    )
