-- ===== src/Server/Failover/Route.antt =====
-- crates/xrouter-server/src/lib.rs: `route_openai_request`, `resolution_error_response`. The body of a
-- request of the Responses API is translated before `req` is made. The counts and their products
-- are below 2 ^ 64.
use xrouter.Common.{
  ℕ, suc, ◌*◌, max, Bool, true, false, ◌||◌, Option, none, some, List, [], ◌∷◌, ◌++◌, map, Text,
  codes, lookup, length, take, ◌==◌, if◌then◌else◌, option_or,
}
use xrouter.Json.{Value, string, obj, arr}
use xrouter.Core.{ModelEntry, Tier, new_tier}
use xrouter.Core.Bodies.{tier_exhausted_body}
use xrouter.Config.{Config, ProviderConfig}
use xrouter.Providers.Cache.{ModelCache}
use xrouter.Auth.{is_device_kind, normalize_provider}
use xrouter.Auth.Store.{DeviceStore, count_for}
use xrouter.Balancer.State.{Balancer}
use xrouter.Balancer.Keys.{keys_len}
use xrouter.Balancer.Candidates.{candidates_ordered}
use xrouter.Server.Metrics.{inc_requests, inc_error, inc_tier_exhausted}
use xrouter.Server.Track.Codes.{error_code_for_status}
use xrouter.Server.Resolve.{
  Resolution, ResolvedTarget, tier, direct, ResolutionError, ambiguous, not_found, ok, err,
  resolve_model,
}
use xrouter.Server.Failover.{
  World, App, Request, Loop, UpstreamResponse, count, record_track, check_auth, extract_tier_name,
  body_is_quota,
}
use xrouter.Server.Failover.Attempt.{next, leave, answer, try_entry}

-- A JSON answer with its status, or the answer of the upstream that a candidate led to.
pub data Outcome : Type 0 where
  rejected : ℕ → Value → Outcome
  relayed : ModelEntry → UpstreamResponse → Outcome

abbrev pub error_fields : Bool → Text → Text → List (Text × Value) → Value
error_fields is_anthropic_ingress kind msg more =
    let error = obj ((codes "type", string kind) ∷ (codes "message", string msg) ∷ more) in
    if is_anthropic_ingress
    then obj ((codes "type", string (codes "error")) ∷ (codes "error", error) ∷ [])
    else obj ((codes "error", error) ∷ [])

-- `join(", ")`
unfoldable join_comma : List Text → Text
join_comma [] = []
join_comma (t ∷ []) = t
join_comma (t ∷ u ∷ ts) = t ++ (codes ", " ++ join_comma (u ∷ ts))

-- The fields of an object have no order: `tier` and `available` come last here.
unfoldable pub resolution_error_response : ResolutionError → Text → List Text → Bool → Outcome
unfolding join_comma
resolution_error_response (ambiguous opts) model available is_anthropic_ingress =
    let options = map (λ (o : Text × Text). o.0 ++ (codes "/" ++ o.1)) opts in
    let msg =
      codes "model id '"
      ++ (model
          ++ (codes
                "' is ambiguous across multiple providers; disambiguate using the 'provider/model' format. Options: "
              ++ join_comma options)) in
    rejected 400 (
      error_fields is_anthropic_ingress
        (if is_anthropic_ingress then codes "invalid_request_error" else codes "ambiguous_model")
        msg ((codes "options", arr (map string options)) ∷ []))
resolution_error_response not_found model available is_anthropic_ingress =
    let hint =
      codes "unknown model/tier '"
      ++ (model
          ++ (codes
                "'. Address a model directly with the 'provider/model' format (e.g. 'opencode-zen/mimo-v2.5-free') or use a bare model id configured in a tier. Known tiers: "
              ++ join_comma available)) in
    rejected 404 (
      if is_anthropic_ingress
      then error_fields true (codes "not_found_error") hint []
      else error_fields false (codes "unknown_tier") hint
          ((codes "tier", string model) ∷ (codes "available", arr (map string available)) ∷ []))

-- The number of accounts of each provider with a device login.
unfoldable pub device_counts : DeviceStore → List (Text × ProviderConfig) → List (Text × ℕ)
device_counts s [] = []
device_counts s ((prov, p) ∷ ps) =
    if is_device_kind p.kind
    then (prov, count_for s (normalize_provider p.kind)) ∷ device_counts s ps
    else device_counts s ps

abbrev counts_of : Config → Option DeviceStore → List (Text × ℕ)
counts_of cfg none = []
counts_of cfg (some s) = device_counts s cfg.providers

-- The largest number of keys or accounts of a candidate's provider, 0 without candidates.
unfoldable pub most_keys : List (Text × ℕ) → Balancer → List ModelEntry → ℕ
most_keys counts b [] = 0
most_keys counts b (e ∷ es) =
    max (option_or (lookup e.provider counts) (keys_len b e.provider)) (most_keys counts b es)

unfoldable pub max_attempts : Config → App → List ModelEntry → ℕ
unfolding device_counts most_keys
max_attempts cfg app candidates =
    max
      (length candidates
        * max (most_keys (counts_of cfg app.device_store) app.balancer candidates) 1)
      1

-- How the loop ends: by `break` or at the end of the list, or by a return.
pub data Ending : Type 0 where
  exhausted : Loop → Ending
  replied : App → ModelEntry → UpstreamResponse → Ending

-- The code that is recorded for a request that no candidate served.
unfoldable pub failure_code : Option (ℕ × Text) → ℕ
failure_code none = 503
failure_code (some (c, body)) =
    if c == 429 || body_is_quota body then 429 else error_code_for_status c

unfoldable pub failure_status : Option (ℕ × Text) → ℕ
failure_status none = 503
failure_status (some (c, body)) =
    if c == 401 || c == 403 then 401 else if c == 504 then 504 else if c == 429 then 429 else 503

abbrev pub all_failed : Text → Text
all_failed tier_name = codes "all models/providers for tier '" ++ (tier_name ++ codes "' failed")

abbrev pub failure_body : Bool → ℕ → Text → Value
failure_body true status tier_name =
    if status == 401
    then error_fields true (codes "authentication_error") (codes "no valid keys") []
    else error_fields true (codes "overloaded_error") (all_failed tier_name) []
failure_body false status tier_name =
    if status == 401
    then error_fields false (codes "no_valid_keys") (codes "no valid keys") []
    else if status == 504
    then error_fields false (codes "upstream_timeout") (codes "upstream timeout") []
    else tier_exhausted_body tier_name

module _ (w : World) (cfg : Config) (req : Request) where
  -- The loop, from place `i` of the list.
  unfoldable pub run_candidates : ℕ → ℕ → Text → List ModelEntry → Loop → Ending
  unfolding try_entry
  run_candidates cap i tier_name [] st = exhausted st
  run_candidates cap i tier_name (e ∷ es) st = elim (try_entry w cfg req cap i tier_name e st) [
    | next st' ↦ run_candidates cap (suc i) tier_name es st'
    | leave st' ↦ exhausted st'
    | answer app u ↦ replied app e u
  ]

  abbrev pub start : App → Loop
  start app = record {
    app = app;
    last_error = none;
    last_provider = [];
    last_model = [];
    attempt = 0;
  }

  -- What follows the loop.
  unfoldable pub conclude : Text → Ending → Outcome × App
  unfolding failure_code failure_status
  conclude tier_name (replied app e u) = (relayed e u, app)
  conclude tier_name (exhausted st) =
      let app = count inc_error (count inc_tier_exhausted st.app) in
      let status = failure_status st.last_error in
      (
        rejected status (failure_body req.is_anthropic_ingress status tier_name),
        record_track w app tier_name st.last_provider st.last_model false
            (failure_code st.last_error),
      )

  unfoldable pub serve_candidates : Text → ℕ → List ModelEntry → App → Outcome × App
  unfolding conclude run_candidates
  serve_candidates tier_name cap [] app = (
    rejected 503 (
        if req.is_anthropic_ingress
        then error_fields true (codes "overloaded_error") (all_failed tier_name) []
        else tier_exhausted_body tier_name),
    count inc_tier_exhausted app,
  )
  serve_candidates tier_name cap (e ∷ es) app =
      conclude tier_name (run_candidates cap 0 tier_name (take cap (e ∷ es)) (start app))

  -- From the choice of the candidates on.
  unfoldable pub serve : Text → Tier → App → Outcome × App
  unfolding serve_candidates max_attempts
  serve tier_name t app =
      let (candidates, b) = candidates_ordered app.balancer t (w.before 0) in
      let app' = record app { balancer = b } in
      serve_candidates tier_name (max_attempts cfg app' candidates) candidates app'

  abbrev pub reject : App → Text → ℕ → Outcome → Outcome × App
  reject app tier_name code o = (o, record_track w app tier_name [] [] false code)

  -- A direct model is a tier of one entry, reported by the request's own `model`.
  abbrev pub target_tier : ResolvedTarget → Tier
  target_tier (tier t) = t
  target_tier (direct e) = new_tier (codes "__direct__") (e ∷ [])

  abbrev pub target_name : Text → ResolvedTarget → Text
  target_name model (tier t) = t.name
  target_name model (direct e) = model

  -- What follows the resolution of the model.
  unfoldable pub serve_target : Text → App → Resolution → Outcome × App
  unfolding serve resolution_error_response
  serve_target model app (ok target) = serve (target_name model target) (target_tier target) app
  serve_target model app (err e) = reject (count inc_error app) model 404 (
      resolution_error_response e model (map (λ (t : Tier). t.name) cfg.tiers)
        req.is_anthropic_ingress)

  unfoldable pub route_openai_request : ModelCache → App → Outcome × App
  unfolding serve_target
  route_openai_request cache app0 =
      let app = count inc_requests app0 in
      if check_auth cfg req.authorization
      then elim (extract_tier_name req.body) [
        | none ↦ reject (count inc_error app) [] 400 (
            rejected 400 (
              error_fields req.is_anthropic_ingress (codes "invalid_request_error")
                (codes "missing model field") []))
        | some model ↦ serve_target model app (resolve_model cfg model (some cache))
      ]
      else reject app [] 401 (
          rejected 401
            (error_fields false (codes "authentication_error") (codes "invalid token") []))
