-- ===== src/Auth/Refresh.antt =====
-- crates/xrouter-auth/src/lib.rs: `refresh_if_needed` and `device_provider_name`. The network is a
-- parameter: `exchange` is `do_token_refresh`, with the answer or the message of its error,
-- `register` is `register_kiro_client`, `identity` is `derive_identity`, `arn` is
-- `discover_kiro_profile_arn`. The clock is read once.
use xrouter.Common.{
  ℕ, ◌+◌, Bool, not, ◌&&◌, ◌||◌, Option, none, some, Text, codes, text_eq, contains, if◌then◌else◌,
}
use xrouter.Json.{Value, get, as_str, as_u64}
use xrouter.Auth.{normalize_provider}
use xrouter.Auth.Store.{DeviceAccountConfig, needs_refresh}

unfoldable pub is_grant_expired_error : Text → Bool
is_grant_expired_error msg =
    contains (codes "InvalidGrantException") msg
    || contains (codes "ExpiredTokenException") msg
    || contains (codes "invalid_grant") msg

pub data Answer : Type 0 where
  ok : Value → Answer
  err : Text → Answer

pub record Network : Type 0 where
  pub exchange : DeviceAccountConfig → Text → Answer
  pub register : Option (Text × Text)
  pub identity : Text → Text → Text
  pub arn : DeviceAccountConfig → Option Text

abbrev set_access : Option Text → DeviceAccountConfig → DeviceAccountConfig
set_access none a = a
set_access (some t) a = record a { access_token = t }

abbrev set_refresh : Option Text → DeviceAccountConfig → DeviceAccountConfig
set_refresh none a = a
set_refresh (some t) a = record a { refresh_token = some t }

abbrev set_expiry : ℕ → Option ℕ → DeviceAccountConfig → DeviceAccountConfig
set_expiry now none a = a
set_expiry now (some secs) a = record a { expires_at = some (now + secs) }

-- A new access token may belong to another account.
unfoldable pub rename : Network → Text → DeviceAccountConfig → DeviceAccountConfig
rename net old a =
    let id = net.identity a.provider a.access_token in
    if text_eq a.access_token old
    then a
    else if text_eq id a.account_id
    then a
    else record a { account_id = id; display_name = some id }

abbrev set_arn : Option Text → DeviceAccountConfig → DeviceAccountConfig
set_arn none a = a
set_arn (some t) a = record a { profile_arn = some t }

-- What the token endpoint's answer does to the account.
unfoldable pub accept : Network → ℕ → DeviceAccountConfig → Value → DeviceAccountConfig
unfolding rename
accept net now a v =
    let a1 = set_access (as_str (get v (codes "access_token"))) a in
    let a2 = set_refresh (as_str (get v (codes "refresh_token"))) a1 in
    let a3 = set_expiry now (as_u64 (get v (codes "expires_in"))) a2 in
    let a4 = rename net a.access_token a3 in set_arn (net.arn a4) a4

-- The answer to the second request, of a client that was registered again.
abbrev retry : Network → ℕ → DeviceAccountConfig → Text → Option (Text × Text) → DeviceAccountConfig
retry net now a token none = a
retry net now a token (some (id, secret)) =
    let a' = record a { client_id = some id; client_secret = some secret } in
    elim (net.exchange a' token) [ ok v ↦ accept net now a' v | err msg ↦ a' ]

-- The account as the call leaves it. Its error is only logged.
unfoldable pub refresh_if_needed : Network → ℕ → DeviceAccountConfig → DeviceAccountConfig
unfolding accept
refresh_if_needed net now a = elim a.refresh_token [
  | none ↦ a
  | some token ↦ if not (needs_refresh a now) then a else elim (net.exchange a token) [
    | ok v ↦ accept net now a v
    | err msg ↦
        if is_grant_expired_error msg && text_eq (normalize_provider a.provider) (codes "kiro")
        then retry net now a token net.register
        else a
  ]
]
