-- ===== src/Server/Failover/Draws.antt =====
-- crates/xrouter-server/src/lib.rs: the choice of a key or an account in `route_openai_request`.
use xrouter.Common.{ℕ, Option, none, some, Text, Option-cases, Bool-cases, inl, inr}
use xrouter.Core.{ModelEntry}
use xrouter.Config.{ProviderConfig}
use xrouter.Auth.{is_device_kind}
use xrouter.Auth.Store.{DeviceStore, next_account}
use xrouter.Balancer.Keys.{next_key}
use xrouter.Balancer.Keys.Draws.{IsDrawn, IsDrawn-refl, next_key-IsDrawn}
use xrouter.Server.Failover.{World, App, credential, device_credential, key_credential}

device_credential-IsDrawn :
    (w : World) (i : ℕ) (name : Text) (app : App) (s : Option DeviceStore)
    → IsDrawn app.balancer (device_credential w i name app s).1.balancer
unfolding device_credential
device_credential-IsDrawn w i name app none = IsDrawn-refl app.balancer
device_credential-IsDrawn w i name app (some s) = elim (Option-cases (next_account s name).0) [
  | inl e ↦ rw (e, device_credential) (IsDrawn-refl app.balancer)
  | inr (a, e) ↦ rw (e, device_credential) (IsDrawn-refl app.balancer)
]

key_credential-IsDrawn :
    (w : World) (i : ℕ) (provider : Text) (app : App)
    → IsDrawn app.balancer (key_credential w i provider app).1.balancer
unfolding key_credential
key_credential-IsDrawn w i provider app =
    let drawn = next_key-IsDrawn app.balancer provider (w.before i) in
    elim (Option-cases (next_key app.balancer provider (w.before i)).0) [
      | inl e ↦ rw (e, key_credential) drawn
      | inr (k, e) ↦ rw (e, key_credential) drawn
    ]

pub credential-IsDrawn :
    (w : World) (i : ℕ) (p : ProviderConfig) (e : ModelEntry) (app : App)
    → IsDrawn app.balancer (credential w i p e app).1.balancer
unfolding credential
credential-IsDrawn w i p e app = elim (Bool-cases (is_device_kind p.kind)) [
  | inl d ↦ rw (d, credential) (device_credential-IsDrawn w i _ app app.device_store)
  | inr d ↦ rw (d, credential) (key_credential-IsDrawn w i e.provider app)
]
