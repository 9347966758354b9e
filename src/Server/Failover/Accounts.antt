-- ===== src/Server/Failover/Accounts.antt =====
-- What a request adds to the metrics and the tracker.
use xrouter.Common.{
  ℕ, ◌≡◌, refl, ap, ◌∙◌, true, Option, none, some, Text, Bool-cases, Option-cases, inl, inr, leb,
}
use xrouter.Core.{ModelEntry}
use xrouter.Config.{ProviderConfig}
use xrouter.Auth.{is_device_kind}
use xrouter.Auth.Store.{DeviceAccountConfig, DeviceStore, next_account}
use xrouter.Balancer.Keys.{next_key}
use xrouter.Balancer.Health.{is_half_open}
use xrouter.Server.Metrics.{fetch_add}
use xrouter.Server.Track.{TrackEntry, record_entry}
use xrouter.Server.Failover.{
  World, App, Loop, UpstreamResponse, credential, device_credential, key_credential,
}
use xrouter.Server.Failover.Attempt.{
  Flow, next, leave, answer, is_success, next_or_leave, put_back, claim_probe,
}

-- The counters that only the end of a request changes, and the tracker.
pub record IsQuiet (app app' : App) : Type 0 where
  pub total : app'.metrics.requests_total ≡ app.metrics.requests_total
  pub success : app'.metrics.requests_success ≡ app.metrics.requests_success
  pub tracker : app'.tracker ≡ app.tracker

pub IsQuiet-refl : (app : App) → IsQuiet app app
IsQuiet-refl app = record { total = refl; success = refl; tracker = refl }

pub IsQuiet-trans : {a b c : App} → IsQuiet a b → IsQuiet b c → IsQuiet a c
IsQuiet-trans s t = record {
  total = t.total ∙ s.total;
  success = t.success ∙ s.success;
  tracker = t.tracker ∙ s.tracker;
}

device_credential-IsQuiet :
    (w : World) (i : ℕ) (name : Text) (app : App) (s : Option DeviceStore)
    → IsQuiet app (device_credential w i name app s).1
unfolding device_credential
device_credential-IsQuiet w i name app none = IsQuiet-refl app
device_credential-IsQuiet w i name app (some s) = elim (Option-cases (next_account s name).0) [
  | inl e ↦ rw (e, device_credential) (record { total = refl; success = refl; tracker = refl })
  | inr (a, e) ↦ rw (e, device_credential) (record { total = refl; success = refl; tracker = refl })
]

key_credential-IsQuiet :
    (w : World) (i : ℕ) (provider : Text) (app : App)
    → IsQuiet app (key_credential w i provider app).1
unfolding key_credential
key_credential-IsQuiet w i provider app =
    elim (Option-cases (next_key app.balancer provider (w.before i)).0) [
      | inl e ↦ rw (e, key_credential) (record { total = refl; success = refl; tracker = refl })
      | inr (k, e) ↦
          rw (e, key_credential) (record { total = refl; success = refl; tracker = refl })
    ]

pub credential-IsQuiet :
    (w : World) (i : ℕ) (p : ProviderConfig) (e : ModelEntry) (app : App)
    → IsQuiet app (credential w i p e app).1
unfolding credential
credential-IsQuiet w i p e app = elim (Bool-cases (is_device_kind p.kind)) [
  | inl d ↦ rw (d, credential) (device_credential-IsQuiet w i _ app app.device_store)
  | inr d ↦ rw (d, credential) (key_credential-IsQuiet w i e.provider app)
]

pub claim_probe-IsQuiet :
    (w : World) (i : ℕ) (id : Text) (app : App) → IsQuiet app (claim_probe w i id app)
claim_probe-IsQuiet w i id app = elim (Bool-cases (is_half_open app.balancer.health id)) [
  | inl e ↦ rw e (record { total = refl; success = refl; tracker = refl })
  | inr e ↦ rw e (IsQuiet-refl app)
]

pub put_back-IsQuiet :
    (w : World) (i : ℕ) (acct : Option DeviceAccountConfig) (app : App)
    → IsQuiet app (put_back w i acct app)
unfolding put_back
put_back-IsQuiet w i none app = IsQuiet-refl app
put_back-IsQuiet w i (some a) app = record { total = refl; success = refl; tracker = refl }

-- A request that an upstream served: its answer is one of success, it is counted as such once, and
-- one success is recorded.
pub record IsServed (w : World) (app app' : App) (u : UpstreamResponse) : Type 0 where
  pub status : is_success u.status ≡ true
  pub total : app'.metrics.requests_total ≡ app.metrics.requests_total
  pub success : app'.metrics.requests_success ≡ fetch_add app.metrics.requests_success
  pub tracked :
      (t : TrackEntry) × (t.is_success ≡ true)
      × (app'.tracker ≡ record_entry w.encode app.tracker t)

pub IsServed-after :
    {w : World} {a b c : App} {u : UpstreamResponse}
    → IsQuiet a b
    → IsServed w b c u
    → IsServed w a c u
IsServed-after {w} q s = record {
  status = s.status;
  total = s.total ∙ q.total;
  success = s.success ∙ ap fetch_add q.success;
  tracked = (
    s.tracked.0,
    s.tracked.1,
    s.tracked.2 ∙ ap (λ t. record_entry w.encode t s.tracked.0) q.tracker,
  );
}

-- What a round does.
unfoldable pub IsCounted : World → App → Flow → Type 0
IsCounted w app (next st) = IsQuiet app st.app
IsCounted w app (leave st) = IsQuiet app st.app
IsCounted w app (answer app' u) = IsServed w app app' u

pub next-IsCounted :
    (w : World) (app : App) (st : Loop) → IsQuiet app st.app → IsCounted w app (next st)
unfolding IsCounted
next-IsCounted w app st h = h

pub next_or_leave-IsCounted :
    (w : World) (app : App) (cap : ℕ) (st : Loop)
    → IsQuiet app st.app
    → IsCounted w app (next_or_leave cap st)
unfolding IsCounted next_or_leave
next_or_leave-IsCounted w app cap st h = elim (Bool-cases (leb cap st.attempt)) [
  | inl e ↦ rw e h
  | inr e ↦ rw e h
]

pub IsCounted-after :
    (w : World) (a b : App) (f : Flow) → IsQuiet a b → IsCounted w b f → IsCounted w a f
unfolding IsCounted
IsCounted-after w a b (next st) q h = IsQuiet-trans q h
IsCounted-after w a b (leave st) q h = IsQuiet-trans q h
IsCounted-after w a b (answer c u) q h = IsServed-after q h
