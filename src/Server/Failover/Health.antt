-- ===== src/Server/Failover/Health.antt =====
-- crates/xrouter-server/src/lib.rs: the calls on `HealthRegistry` that one round of the loop makes.
use xrouter.Common.{
  ℕ, suc, ◌≡◌, refl, Option, none, some, List, [], ◌∷◌, Text, insert, length, arith, Bool-cases,
  inl, inr, leb, true, ◌==◌,
}
use xrouter.Core.{EndpointId, ModelEntry, ApiKey}
use xrouter.Config.{ProviderConfig}
use xrouter.Auth.{is_device_kind}
use xrouter.Auth.Store.{DeviceAccountConfig}
use xrouter.Balancer.Health.{HealthRegistry, is_half_open, snapshot_from, HealthState, health_state}
use xrouter.Balancer.Health.History
use xrouter.Balancer.Health.History.{Call, reads, probes, retries_after, kills, step, run}
use xrouter.Balancer.Keys.{ban_key}
use xrouter.Server.Failover.Steps.{Classified, succeeds, rejects, limits, fails, others}
use xrouter.Server.Failover.{World, App, Request, Loop, UpstreamResponse, RequestCtx, answered}
use xrouter.Server.Failover.Calls.{
  IsCaused, claims, serves, rejects_key, limits_rate, tells_when, breaks, IsRead, Reaches,
  Reaches-imp, Reaches-refl, Reaches-step, Reaches-win, Reaches-trans,
}
use xrouter.Server.Failover.Attempt.{
  Flow, next, leave, answer, next_or_leave, succeeded, unauthorized, over_quota, unavailable,
  other_status, quota, put_back, claim_probe, ctx_of,
}

pub snapshot_from-Reaches :
    (out : List (Text × HealthState)) (r : HealthRegistry) (ids : List Text) (now : ℕ)
    → Reaches (IsRead now ids) (length ids) [] r (snapshot_from out r ids now).1
unfolding snapshot_from step
snapshot_from-Reaches out r [] now = Reaches-refl (IsRead now []) 0 r
snapshot_from-Reaches out r (id ∷ ids) now =
    Reaches-trans (IsRead now (id ∷ ids)) 1 (length ids) (suc (length ids)) [] [] r _ _
      (Reaches-step (IsRead now (id ∷ ids)) r (now, reads id) (inl refl) refl)
      (Reaches-imp (length ids) [] _ _ (λ c h. inr h)
        (snapshot_from-Reaches (insert id (health_state r id now).0 out) (health_state r id now).1
          ids now))
      (omega arith)

-- The health that an application state has.
abbrev pub health_of : App → HealthRegistry
health_of app = app.balancer.health

abbrev pub app_of : Flow → App
app_of (next st) = st.app
app_of (leave st) = st.app
app_of (answer app u) = app

pub app_of-next_or_leave : (cap : ℕ) (st : Loop) → app_of (next_or_leave cap st) ≡ st.app
unfolding next_or_leave
app_of-next_or_leave cap st = elim (Bool-cases (leb cap st.attempt)) [
  | inl e ↦ rw (e, next_or_leave) refl
  | inr e ↦ rw (e, next_or_leave) refl
]

pub put_back-balancer :
    (w : World) (i : ℕ) (acct : Option DeviceAccountConfig) (app : App)
    → (put_back w i acct app).balancer ≡ app.balancer
unfolding put_back
put_back-balancer w i none app = refl
put_back-balancer w i (some a) app = refl

-- The endpoint whose success a round records.
abbrev pub won_in : ModelEntry → Flow → List EndpointId
won_in e (next st) = []
won_in e (leave st) = []
won_in e (answer app u) = e.endpoint_id ∷ []

pub won_in-next_or_leave :
    (e : ModelEntry) (cap : ℕ) (st : Loop) → won_in e (next_or_leave cap st) ≡ []
unfolding next_or_leave
won_in-next_or_leave e cap st = elim (Bool-cases (leb cap st.attempt)) [
  | inl h ↦ rw (h, next_or_leave) refl
  | inr h ↦ rw (h, next_or_leave) refl
]

module _ (w : World) (i : ℕ) (e : ModelEntry) where
  pub claim_probe-Reaches :
      (app : App)
      → Reaches
          (IsCaused w i e)
          1
          []
          (health_of app)
          (health_of (claim_probe w i e.endpoint_id app))
  unfolding step
  claim_probe-Reaches app = elim (Bool-cases (is_half_open app.balancer.health e.endpoint_id)) [
    | inl h ↦ rw h (
        Reaches-step (IsCaused w i e) (health_of app) (w.before i, probes e.endpoint_id) claims
          refl)
    | inr h ↦ rw h (Reaches-refl (IsCaused w i e) 1 (health_of app))
  ]

  -- A failure of the endpoint.
  pub fails-Reaches :
      (r : HealthRegistry)
      → IsCaused w i e (w.after i, History.fails (w.jitter i) e.endpoint_id)
      → Reaches
          (IsCaused w i e)
          1
          []
          r
          (step r (w.after i, History.fails (w.jitter i) e.endpoint_id))
  fails-Reaches r c = Reaches-step (IsCaused w i e) r _ c refl

  quota-Reaches :
      (p : ProviderConfig) (key : ApiKey) (ctx : RequestCtx) (u : UpstreamResponse)
      (after : Option (Option ℕ)) (app : App)
      → w.send i ctx ≡ answered u
      → (u.status == 429) ≡ true
      → u.retry_after ≡ after
      → Reaches (IsCaused w i e) 1 [] (health_of app) (health_of (quota w i p e key u app))
  unfolding quota step ban_key
  quota-Reaches p key ctx u none app s k h =
      rw (h, quota) (fails-Reaches (health_of app) (limits_rate ctx u s k h))
  quota-Reaches p key ctx u (some secs) app s k h =
      rw (h, quota)
        (Reaches-step (IsCaused w i e) (health_of app) (w.after i, retries_after e.endpoint_id secs)
          (tells_when ctx u secs s k h) refl)

  device-Reaches :
      (acct : Option DeviceAccountConfig) (app : App)
      → Reaches (IsCaused w i e) 1 [] (health_of app) (put_back w i acct app).balancer.health
  device-Reaches acct app =
      rw (put_back-balancer w i acct app) (Reaches-refl (IsCaused w i e) 1 (health_of app))

  module _ (req : Request) (cap : ℕ) (tier_name : Text) (st : Loop) where
    pub Classified-Reaches :
        (p : ProviderConfig) (key : ApiKey) (acct : Option DeviceAccountConfig)
        (u : UpstreamResponse) (st' : Loop) (f : Flow)
        → w.send i (ctx_of w req p e key) ≡ answered u
        → Classified w req cap i tier_name e st p key acct u st' f
        → Reaches (IsCaused w i e) 1 (won_in e f) (health_of st'.app) (health_of (app_of f))
    unfolding step succeeded unauthorized over_quota unavailable other_status
    Classified-Reaches p key acct u st' f s (succeeds h) =
        Reaches-win (IsCaused w i e) (health_of st'.app) (w.after i) e.endpoint_id
          (serves (ctx_of w req p e key) u s h)
    Classified-Reaches p key acct u st' f s (rejects h) =
        elim (Bool-cases (is_device_kind p.kind)) [
          | inl d ↦ rw (d, unauthorized) (device-Reaches acct st'.app)
          | inr d ↦
              rw (d, unauthorized)
                (Reaches-step (IsCaused w i e) (health_of st'.app) (w.after i, kills key)
                  (rejects_key (ctx_of w req p e key) u s h) refl)
        ]
    Classified-Reaches p key acct u st' f s (limits h) = elim (Bool-cases (is_device_kind p.kind)) [
      | inl d ↦ rw (d, over_quota) (device-Reaches acct st'.app)
      | inr d ↦
          rw (d, over_quota)
            (quota-Reaches p key (ctx_of w req p e key) u u.retry_after st'.app s h refl)
    ]
    Classified-Reaches p key acct u st' f s (fails h) =
        rw (app_of-next_or_leave, won_in-next_or_leave)
          (fails-Reaches (health_of st'.app) (breaks (ctx_of w req p e key) u s h))
    Classified-Reaches p key acct u st' f s others =
        Reaches-refl (IsCaused w i e) 1 (health_of st'.app)
