-- ===== src/Auth/Tests.antt =====
-- Runs of the store of device accounts.
use xrouter.Common.{
  ◌≡◌, refl, ◌<◌, ◌%◌, ◌+◌, none, some, [], ◌∷◌, Text, codes, get_elem?, arith, text_eq,
}
use xrouter.Auth.Store.{
  DeviceAccountConfig, DeviceStore, next_account, count_for, add_account, remove_account,
  remove_accounts_for_provider,
}
use xrouter.Auth.Rounds.{own, cursor, after_calls, next_account-rotates}
use xrouter.Auth.Accounts.{IsKeyed, find_account, accounts-dictionary}

abbrev account : Text → Text → DeviceAccountConfig
account p id = record {
  account_id = id;
  display_name = none;
  provider = p;
  access_token = codes "eyJ1";
  refresh_token = none;
  expires_at = none;
  client_id = none;
  client_secret = none;
  profile_arn = none;
}

abbrev store : DeviceStore
store = record {
  accounts =
      account (codes "kiro") (codes "a")
      ∷ account (codes "antigravity") (codes "a")
      ∷ account (codes "kiro") (codes "b")
      ∷ [];
  rr = [];
}

store-count : 0 < count_for store (codes "kiro")
unfolding count_for text_eq
store-count = omega arith

next_account-rotates_example :
    (a : DeviceAccountConfig) × (get_elem?
        (own store (codes "kiro"))
        ((cursor store (codes "kiro") + 3) % count_for store (codes "kiro"))
      ≡ some a)
    × ((next_account (after_calls 3 store (codes "kiro")) (codes "kiro")).0 ≡ some a)
    × ((after_calls 3 store (codes "kiro")).accounts ≡ store.accounts)
next_account-rotates_example = next_account-rotates 3 store (codes "kiro") store-count

store-IsKeyed : IsKeyed store.accounts
unfolding IsKeyed text_eq
store-IsKeyed = ((refl, (refl, tt)), ((refl, tt), (tt, tt)))

accounts-dictionary_example :
    IsKeyed (add_account store (account (codes "kiro") (codes "b"))).accounts
    × IsKeyed (remove_account store (codes "kiro") (codes "a")).accounts
    × IsKeyed (remove_accounts_for_provider store (codes "kiro")).accounts
    × (find_account
          (add_account store (account (codes "kiro") (codes "b"))).accounts
          (codes "kiro")
          (codes "b")
        ≡ some (account (codes "kiro") (codes "b")))
    × (find_account
          (remove_account store (codes "kiro") (codes "a")).accounts
          (codes "kiro")
          (codes "b")
        ≡ find_account store.accounts (codes "kiro") (codes "b"))
unfolding text_eq
accounts-dictionary_example =
    accounts-dictionary store (account (codes "kiro") (codes "b")) (codes "kiro") (codes "a")
      (codes "kiro") (codes "b") store-IsKeyed
