-- ===== src/Server/Failover/Outcomes.antt =====
-- How a request ends, and what is counted and recorded for it.
use xrouter.Common.{
  ℕ, suc, ◌≤◌, ◌≡◌, refl, ap, ◌∙◌, subst, ◌⊎◌, Bool, false, Option, none, some, List, [], ◌∷◌, Text,
  take, arith, Bool-cases, Option-cases, inl, inr,
}
use xrouter.Core.{ModelEntry, ApiKey, Tier}
use xrouter.Config.{Config, ProviderConfig}
use xrouter.Auth.{is_device_kind}
use xrouter.Auth.Store.{DeviceAccountConfig}
use xrouter.Providers.Cache.{ModelCache}
use xrouter.Balancer.Candidates.{candidates_ordered}
use xrouter.Server.Metrics.{inc_requests, inc_error}
use xrouter.Server.Track.{TrackEntry, record_entry}
use xrouter.Server.Resolve.{
  Resolution, ok, err, ResolutionError, ambiguous, not_found, resolve_model,
}
use xrouter.Server.Failover.{
  World, App, Request, Loop, UpstreamResponse, Credential, credential, count, check_auth,
  extract_tier_name, track_entry,
}
use xrouter.Server.Failover.Attempt.{
  Flow, next, leave, answer, succeeded, unauthorized, over_quota, unavailable, other_status,
  send_failed, send_timed_out, adapter_panicked, try_entry, quota,
}
use xrouter.Server.Failover.Steps.{
  Step, skips, refuses, panics, errs, times_out, replies, Classified, succeeds, rejects, limits,
  fails, others, try_entry-Step, ready,
}
use xrouter.Server.Failover.Accounts.{
  IsQuiet, IsQuiet-refl, IsQuiet-trans, credential-IsQuiet, claim_probe-IsQuiet, put_back-IsQuiet,
  IsServed, IsServed-after, IsCounted, next-IsCounted, next_or_leave-IsCounted, IsCounted-after,
}
use xrouter.Server.Failover.Route.{
  Ending, exhausted, replied, run_candidates, Outcome, rejected, relayed, failure_status,
  failure_code, conclude, serve_candidates, serve, start, resolution_error_response,
  route_openai_request, max_attempts, serve_target, reject,
}

module _ (w : World) (req : Request) (cap i : ℕ) (tier_name : Text) (e : ModelEntry)
    (st : Loop) where
  Classified-IsCounted :
      (p : ProviderConfig) (key : ApiKey) (acct : Option DeviceAccountConfig) (u : UpstreamResponse)
      (st' : Loop) (f : Flow)
      → Classified w req cap i tier_name e st p key acct u st' f
      → IsCounted w st'.app f
  unfolding IsCounted succeeded unauthorized over_quota unavailable other_status quota
  Classified-IsCounted p key acct u st' f (succeeds h) = record {
    status = h;
    total = refl;
    success = refl;
    tracked = (_, refl, refl);
  }
  Classified-IsCounted p key acct u st' f (rejects h) = elim (Bool-cases (is_device_kind p.kind)) [
    | inl d ↦
        rw (d, unauthorized)
          (IsQuiet-trans (put_back-IsQuiet w i acct st'.app)
            (record { total = refl; success = refl; tracker = refl }))
    | inr d ↦ rw (d, unauthorized) (record { total = refl; success = refl; tracker = refl })
  ]
  Classified-IsCounted p key acct u st' f (limits h) = elim (Bool-cases (is_device_kind p.kind)) [
    | inl d ↦
        rw (d, over_quota)
          (IsQuiet-trans (put_back-IsQuiet w i acct st'.app)
            (record { total = refl; success = refl; tracker = refl }))
    | inr d ↦ rw (d, over_quota) (record { total = refl; success = refl; tracker = refl })
  ]
  Classified-IsCounted p key acct u st' f (fails n) =
      next_or_leave-IsCounted w st'.app cap _
        (record { total = refl; success = refl; tracker = refl })
  Classified-IsCounted p key acct u st' f others = record {
    total = refl;
    success = refl;
    tracker = refl;
  }

  granted-IsQuiet :
      (p : ProviderConfig) (app : App) {c : Credential}
      → credential w i p e st.app ≡ (c, app)
      → IsQuiet st.app app
  granted-IsQuiet p app c = subst (λ x. IsQuiet st.app x.1) c (credential-IsQuiet w i p e st.app)

  ready-IsQuiet :
      (p : ProviderConfig) (app : App) {c : Credential}
      → credential w i p e st.app ≡ (c, app)
      → IsQuiet st.app (ready w i e app st).app
  ready-IsQuiet p app c =
      IsQuiet-trans (granted-IsQuiet p app c) (claim_probe-IsQuiet w i e.endpoint_id app)

  Step-IsCounted : (f : Flow) → Step w req cap i tier_name e st f → IsCounted w st.app f
  unfolding adapter_panicked send_failed send_timed_out
  Step-IsCounted f skips = next-IsCounted w st.app _ (IsQuiet-refl st.app)
  Step-IsCounted f (refuses p msg app c) = next-IsCounted w st.app _ (
      IsQuiet-trans (granted-IsQuiet p app c)
        (record { total = refl; success = refl; tracker = refl }))
  Step-IsCounted f (panics p key acct app c) =
      IsCounted-after w st.app (ready w i e app st).app _ (ready-IsQuiet p app c) (
        next_or_leave-IsCounted w _ cap _ (record { total = refl; success = refl; tracker = refl }))
  Step-IsCounted f (errs p key acct app msg c s) =
      IsCounted-after w st.app (ready w i e app st).app _ (ready-IsQuiet p app c) (
        next_or_leave-IsCounted w _ cap _ (record { total = refl; success = refl; tracker = refl }))
  Step-IsCounted f (times_out p key acct app c s) =
      IsCounted-after w st.app (ready w i e app st).app _ (ready-IsQuiet p app c) (
        next_or_leave-IsCounted w _ cap _ (record { total = refl; success = refl; tracker = refl }))
  Step-IsCounted f (replies p key acct app u g c s k) =
      IsCounted-after w st.app (ready w i e app st).app g (ready-IsQuiet p app c)
        (Classified-IsCounted p key acct u _ g k)

-- How the loop ends.
unfoldable pub IsEnded : World → App → Ending → Type 0
IsEnded w app (exhausted st) = IsQuiet app st.app
IsEnded w app (replied app' e u) = IsServed w app app' u

IsEnded-after : (w : World) (a b : App) (o : Ending) → IsQuiet a b → IsEnded w b o → IsEnded w a o
unfolding IsEnded
IsEnded-after w a b (exhausted st) q h = IsQuiet-trans q h
IsEnded-after w a b (replied c e u) q h = IsServed-after q h

module _ (w : World) (cfg : Config) (req : Request) (cap : ℕ) (tier_name : Text) where
  run_candidates-IsEnded :
      (i : ℕ) (es : List ModelEntry) (st : Loop)
      → IsEnded w st.app (run_candidates w cfg req cap i tier_name es st)
  unfolding run_candidates IsEnded IsCounted
  run_candidates-IsEnded i [] st = IsQuiet-refl st.app
  run_candidates-IsEnded i (e ∷ es) st =
      go (λ st'. run_candidates-IsEnded (suc i) es st') (try_entry w cfg req cap i tier_name e st)
        (Step-IsCounted w req cap i tier_name e st _
          (try_entry-Step w req cap i tier_name e st cfg))
    where
      go :
          ((st' : Loop) → IsEnded w st'.app (run_candidates w cfg req cap (suc i) tier_name es st'))
          → (f : Flow) → IsCounted w st.app f
          → IsEnded w st.app (elim f [
            | next st' ↦ run_candidates w cfg req cap (suc i) tier_name es st'
            | leave st' ↦ exhausted st'
            | answer app u ↦ replied app e u
          ])
      go rest (next st') h = IsEnded-after w st.app st'.app _ h (rest st')
      go rest (leave st') h = h
      go rest (answer app u) h = h

-- What the caller of the router sees, and what is counted and recorded for it: an upstream's answer,
-- or an error, that is recorded at most once and never as a success.
unfoldable pub IsSettled : World → App → Outcome × App → Type 0
IsSettled w app (relayed e u, app') = IsServed w app app' u
IsSettled w app (rejected code v, app') =
    (400 ≤ code)
    × (app'.metrics.requests_total ≡ app.metrics.requests_total)
    × (app'.metrics.requests_success ≡ app.metrics.requests_success)
    × ((app'.tracker ≡ app.tracker)
        ⊎ ((t : TrackEntry) × (t.is_success ≡ false)
            × (app'.tracker ≡ record_entry w.encode app.tracker t)))

IsSettled-after :
    (w : World) (a b : App) (r : Outcome × App) → IsQuiet a b → IsSettled w b r → IsSettled w a r
unfolding IsSettled
IsSettled-after w a b (relayed e u, c) q h = IsServed-after q h
IsSettled-after w a b (rejected code v, c) q h = (
  h.0,
  h.1 ∙ q.total,
  h.2 ∙ q.success,
  elim h.3 [
    | inl same ↦ inl (same ∙ q.tracker)
    | inr (t, failed, e) ↦ inr (t, failed, e ∙ ap (λ x. record_entry w.encode x t) q.tracker)
  ],
)

failure_status-le : (last : Option (ℕ × Text)) → 400 ≤ failure_status last
unfolding failure_status
failure_status-le none = omega arith
failure_status-le (some (c, body)) = ground arith

module _ (w : World) (cfg : Config) (req : Request) where
  conclude-IsSettled :
      (tier_name : Text) (app : App) (o : Ending)
      → IsEnded w app o
      → IsSettled w app (conclude w cfg req tier_name o)
  unfolding conclude IsEnded IsSettled
  conclude-IsSettled tier_name app (replied c e u) h = h
  conclude-IsSettled tier_name app (exhausted st) h = (
    failure_status-le st.last_error,
    h.total,
    h.success,
    inr (
      track_entry w tier_name st.last_provider st.last_model false (failure_code st.last_error),
      refl,
      ap
          (λ t. record_entry w.encode t (
            track_entry w tier_name st.last_provider st.last_model false
              (failure_code st.last_error)))
          h.tracker,
    ),
  )

  serve_candidates-IsSettled :
      (tier_name : Text) (cap : ℕ) (es : List ModelEntry) (app : App)
      → IsSettled w app (serve_candidates w cfg req tier_name cap es app)
  unfolding serve_candidates IsSettled
  serve_candidates-IsSettled tier_name cap [] app = (omega arith, refl, refl, inl refl)
  serve_candidates-IsSettled tier_name cap (e ∷ es) app =
      conclude-IsSettled tier_name app _
        (run_candidates-IsEnded w cfg req cap tier_name 0 (take cap (e ∷ es)) (start w cfg req app))

  serve-IsSettled :
      (tier_name : Text) (t : Tier) (app : App) → IsSettled w app (serve w cfg req tier_name t app)
  unfolding serve candidates_ordered
  serve-IsSettled tier_name t app =
      let found = candidates_ordered app.balancer t (w.before 0) in
      let app' : App = record app { balancer = found.1 } in
      IsSettled-after w app app' _ (record { total = refl; success = refl; tracker = refl })
        (serve_candidates-IsSettled tier_name (max_attempts cfg app' found.0) found.0 app')

  error-IsSettled :
      (e : ResolutionError) (model : Text) (names : List Text) (anthropic : Bool) (app : App)
      → IsSettled w app (
          reject w cfg req
            (count inc_error app)
            model
            404
            (resolution_error_response e model names anthropic))
  unfolding resolution_error_response IsSettled
  error-IsSettled (ambiguous opts) model names anthropic app =
      (omega arith, refl, refl, inr (track_entry w _ [] [] false _, refl, refl))
  error-IsSettled not_found model names anthropic app =
      (omega arith, refl, refl, inr (track_entry w _ [] [] false _, refl, refl))

  serve_target-IsSettled :
      (model : Text) (app : App) (r : Resolution)
      → IsSettled w app (serve_target w cfg req model app r)
  unfolding serve_target
  serve_target-IsSettled model app (ok target) = serve-IsSettled _ _ app
  serve_target-IsSettled model app (err e) = error-IsSettled e model _ _ app

  -- Every request is counted once. If the caller gets an upstream's answer, its status is one of
  -- success, the request is counted as a success once, and one success is recorded; any other reply
  -- has a status of 400 or more, counts no success, and at most one failure is recorded.
  pub route_openai_request-IsSettled :
      (cache : ModelCache) (app : App)
      → IsSettled w (count inc_requests app) (route_openai_request w cfg req cache app)
  unfolding route_openai_request IsSettled
  route_openai_request-IsSettled cache app = elim (Bool-cases (check_auth cfg req.authorization)) [
    | inr a ↦
        rw (a, route_openai_request)
          (omega arith, refl, refl, inr (track_entry w _ [] [] false _, refl, refl))
    | inl a ↦ elim (Option-cases (extract_tier_name req.body)) [
      | inl b ↦
          rw (a, route_openai_request, b)
            (omega arith, refl, refl, inr (track_entry w _ [] [] false _, refl, refl))
      | inr (model, b) ↦
          rw (a, route_openai_request, b)
            (serve_target-IsSettled model (count inc_requests app)
              (resolve_model cfg model (some cache)))
    ]
  ]
