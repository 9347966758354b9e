-- ===== src/Server/Failover/Bans.antt =====
-- crates/xrouter-server/src/lib.rs: the dead keys and the bans of keys in `route_openai_request`.
use xrouter.Common.{
  ℕ, suc, ◌≡◌, refl, sym, ap, ◌∙◌, subst, ◌||◌, false, Option, some, List, [], ◌∷◌, Text, take,
  lookup, insert, arith, Bool-cases, inl, inr, ◌==◌, true-ne-false,
}
use xrouter.Core.{ModelEntry, ApiKey, Tier}
use xrouter.Config.{Config, ProviderConfig}
use xrouter.Auth.Store.{DeviceAccountConfig}
use xrouter.Balancer.Health.{
  HealthRegistry, HealthState, is_half_open, health_state, snapshot_from, register, mark_success,
  mark_failure, mark_probing,
}
use xrouter.Balancer.Candidates.{candidates_ordered, ids_of}
use xrouter.Server.Failover.{
  World, App, Request, Loop, UpstreamResponse, RequestCtx, answered, Credential, credential,
}
use xrouter.Server.Failover.Attempt.{
  Flow, next, leave, answer, succeeded, unavailable, other_status, send_failed, send_timed_out,
  adapter_panicked, try_entry, claim_probe,
}
use xrouter.Server.Failover.Steps.{
  Step, skips, refuses, panics, errs, times_out, replies, Classified, succeeds, rejects, limits,
  fails, others, try_entry-Step, ready,
}
use xrouter.Server.Failover.Draws.{credential-IsDrawn}
use xrouter.Server.Failover.Health.{app_of, app_of-next_or_leave}
use xrouter.Server.Failover.Refinement.{ending_app}
use xrouter.Server.Failover.Route.{
  Ending, exhausted, replied, run_candidates, conclude, serve_candidates, serve, start,
  max_attempts,
}

-- No key was marked dead, and every ban was there before.
pub record IsSpared (app app' : App) : Type 0 where
  pub dead_keys : app'.balancer.health.dead_keys ≡ app.balancer.health.dead_keys
  pub bans :
      (id : Text) (t : ℕ)
      → lookup id app'.balancer.banned_keys ≡ some t
      → lookup id app.balancer.banned_keys ≡ some t

IsSpared-refl : (app : App) → IsSpared app app
IsSpared-refl app = record { dead_keys = refl; bans = λ id t h. h }

IsSpared-trans : {a b c : App} → IsSpared a b → IsSpared b c → IsSpared a c
IsSpared-trans s t = record {
  dead_keys = t.dead_keys ∙ s.dead_keys;
  bans = λ id x h. s.bans id x (t.bans id x h);
}

mark_success-dead_keys :
    (r : HealthRegistry) (id : Text) → (mark_success r id).dead_keys ≡ r.dead_keys
unfolding mark_success register
mark_success-dead_keys r id = ground arith

mark_failure-dead_keys :
    (scale : ℕ → ℕ) (r : HealthRegistry) (id : Text) (now : ℕ)
    → (mark_failure scale r id now).dead_keys ≡ r.dead_keys
unfolding mark_failure register
mark_failure-dead_keys scale r id now = ground arith

mark_probing-dead_keys :
    (r : HealthRegistry) (id : Text) (now : ℕ) → (mark_probing r id now).dead_keys ≡ r.dead_keys
unfolding mark_probing
mark_probing-dead_keys r id now = ground arith

health_state-dead_keys :
    (r : HealthRegistry) (id : Text) (now : ℕ) → (health_state r id now).1.dead_keys ≡ r.dead_keys
unfolding health_state
health_state-dead_keys r id now = ground arith

snapshot_from-dead_keys :
    (out : List (Text × HealthState)) (r : HealthRegistry) (ids : List Text) (now : ℕ)
    → (snapshot_from out r ids now).1.dead_keys ≡ r.dead_keys
unfolding snapshot_from
snapshot_from-dead_keys out r [] now = refl
snapshot_from-dead_keys out r (id ∷ ids) now =
    snapshot_from-dead_keys (insert id (health_state r id now).0 out) (health_state r id now).1 ids
      now
    ∙ health_state-dead_keys r id now

claim_probe-IsSpared :
    (w : World) (i : ℕ) (id : Text) (app : App) → IsSpared app (claim_probe w i id app)
claim_probe-IsSpared w i id app = elim (Bool-cases (is_half_open app.balancer.health id)) [
  | inl e ↦ rw e (record {
    dead_keys = mark_probing-dead_keys app.balancer.health id (w.before i);
    bans = λ j t h. h;
  })
  | inr e ↦ rw e (IsSpared-refl app)
]

-- The upstreams answer no request with 401, 403 or 429.
abbrev pub HasNoRejection : World → Type 0
HasNoRejection w =
    (i : ℕ) (ctx : RequestCtx) (u : UpstreamResponse)
    → w.send i ctx ≡ answered u
    → ((u.status == 401 || u.status == 403) ≡ false) × ((u.status == 429) ≡ false)

module _ (w : World) (req : Request) (cap i : ℕ) (tier_name : Text) (e : ModelEntry)
    (st : Loop) where
  Classified-IsSpared :
      (p : ProviderConfig) (key : ApiKey) (acct : Option DeviceAccountConfig) (u : UpstreamResponse)
      (st' : Loop) (f : Flow)
      → (u.status == 401 || u.status == 403) ≡ false
      → (u.status == 429) ≡ false
      → Classified w req cap i tier_name e st p key acct u st' f
      → IsSpared st'.app (app_of f)
  unfolding succeeded unavailable other_status
  Classified-IsSpared p key acct u st' f no_auth no_quota (succeeds h) = record {
    dead_keys = mark_success-dead_keys st'.app.balancer.health e.endpoint_id;
    bans = λ j t k. k;
  }
  Classified-IsSpared p key acct u st' f no_auth no_quota (rejects h) =
      absurd (true-ne-false (sym h ∙ no_auth))
  Classified-IsSpared p key acct u st' f no_auth no_quota (limits h) =
      absurd (true-ne-false (sym h ∙ no_quota))
  Classified-IsSpared p key acct u st' f no_auth no_quota (fails n) =
      rw app_of-next_or_leave (record {
        dead_keys =
            mark_failure-dead_keys (w.jitter i) st'.app.balancer.health e.endpoint_id (w.after i);
        bans = λ j t k. k;
      })
  Classified-IsSpared p key acct u st' f no_auth no_quota others = record {
    dead_keys = refl;
    bans = λ j t k. k;
  }

  granted-IsSpared :
      (p : ProviderConfig) (app : App) {c : Credential}
      → credential w i p e st.app ≡ (c, app)
      → IsSpared st.app app
  granted-IsSpared p app c =
      let drawn = credential-IsDrawn w i p e st.app in
      subst (λ x. IsSpared st.app x.1) c
        (record {
          dead_keys = ap (λ (r : HealthRegistry). r.dead_keys) drawn.health;
          bans = drawn.bans;
        })

  ready-IsSpared :
      (p : ProviderConfig) (app : App) {c : Credential}
      → credential w i p e st.app ≡ (c, app)
      → IsSpared st.app (ready w i e app st).app
  ready-IsSpared p app c =
      IsSpared-trans (granted-IsSpared p app c) (claim_probe-IsSpared w i e.endpoint_id app)

  Step-IsSpared :
      (f : Flow) → HasNoRejection w → Step w req cap i tier_name e st f → IsSpared st.app (app_of f)
  unfolding adapter_panicked send_failed send_timed_out
  Step-IsSpared f ok skips = IsSpared-refl st.app
  Step-IsSpared f ok (refuses p msg app c) =
      IsSpared-trans (granted-IsSpared p app c) (record { dead_keys = refl; bans = λ j t h. h })
  Step-IsSpared f ok (panics p key acct app c) =
      rw app_of-next_or_leave
        (IsSpared-trans (ready-IsSpared p app c) (record { dead_keys = refl; bans = λ j t h. h }))
  Step-IsSpared f ok (errs p key acct app msg c s) = rw app_of-next_or_leave (
      IsSpared-trans (ready-IsSpared p app c) (record {
        dead_keys = mark_failure-dead_keys (w.jitter i) _ e.endpoint_id (w.after i);
        bans = λ j t h. h;
      }))
  Step-IsSpared f ok (times_out p key acct app c s) = rw app_of-next_or_leave (
      IsSpared-trans (ready-IsSpared p app c) (record {
        dead_keys = mark_failure-dead_keys (w.jitter i) _ e.endpoint_id (w.after i);
        bans = λ j t h. h;
      }))
  Step-IsSpared f ok (replies p key acct app u g c s k) =
      IsSpared-trans (ready-IsSpared p app c)
        (Classified-IsSpared p key acct u _ g (ok i _ u s).0 (ok i _ u s).1 k)

module _ (w : World) (cfg : Config) (req : Request) where
  run_candidates-IsSpared :
      (cap : ℕ) (tier_name : Text) (i : ℕ) (es : List ModelEntry) (st : Loop)
      → HasNoRejection w
      → IsSpared st.app (ending_app (run_candidates w cfg req cap i tier_name es st))
  unfolding run_candidates
  run_candidates-IsSpared cap tier_name i [] st ok = IsSpared-refl st.app
  run_candidates-IsSpared cap tier_name i (e ∷ es) st ok =
      go (λ st'. run_candidates-IsSpared cap tier_name (suc i) es st' ok)
        (try_entry w cfg req cap i tier_name e st)
        (Step-IsSpared w req cap i tier_name e st _ ok
          (try_entry-Step w req cap i tier_name e st cfg))
    where
      go :
          ((st' : Loop)
            → IsSpared st'.app (ending_app (run_candidates w cfg req cap (suc i) tier_name es st')))
          → (f : Flow) → IsSpared st.app (app_of f)
          → IsSpared st.app (
              ending_app (elim f [
                | next st' ↦ run_candidates w cfg req cap (suc i) tier_name es st'
                | leave st' ↦ exhausted st'
                | answer app u ↦ replied app e u
              ]))
      go rest (next st') h = IsSpared-trans h (rest st')
      go rest (leave st') h = h
      go rest (answer app u) h = h

  conclude-IsSpared :
      (tier_name : Text) (o : Ending) → IsSpared (ending_app o) (conclude w cfg req tier_name o).1
  unfolding conclude
  conclude-IsSpared tier_name (exhausted st) = record { dead_keys = refl; bans = λ j t h. h }
  conclude-IsSpared tier_name (replied app e u) = IsSpared-refl app

  serve_candidates-IsSpared :
      (tier_name : Text) (cap : ℕ) (es : List ModelEntry) (app : App)
      → HasNoRejection w
      → IsSpared app (serve_candidates w cfg req tier_name cap es app).1
  unfolding serve_candidates
  serve_candidates-IsSpared tier_name cap [] app ok = record { dead_keys = refl; bans = λ j t h. h }
  serve_candidates-IsSpared tier_name cap (e ∷ es) app ok =
      IsSpared-trans
        (run_candidates-IsSpared cap tier_name 0 (take cap (e ∷ es)) (start w cfg req app) ok)
        (conclude-IsSpared tier_name
          (run_candidates w cfg req cap 0 tier_name (take cap (e ∷ es)) (start w cfg req app)))

  -- A request costs no key unless an upstream answers 401, 403 or 429: if none does, the keys that
  -- are marked dead stay the same and every ban that is there afterwards was there before, whatever
  -- times out, fails or answers with another status.
  pub serve-IsSpared :
      (tier_name : Text) (t : Tier) (app : App)
      → HasNoRejection w
      → IsSpared app (serve w cfg req tier_name t app).1
  unfolding serve candidates_ordered
  serve-IsSpared tier_name t app ok =
      let now = w.before 0 in
      let found = candidates_ordered app.balancer t now in
      let app' : App = record app { balancer = found.1 } in
      IsSpared-trans {b = app'}
        (record {
          dead_keys = snapshot_from-dead_keys [] app.balancer.health (ids_of t.entries) now;
          bans = λ j x h. h;
        })
        (serve_candidates-IsSpared tier_name (max_attempts cfg app' found.0) found.0 app' ok)
