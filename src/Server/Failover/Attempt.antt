-- ===== src/Server/Failover/Attempt.antt =====
-- crates/xrouter-server/src/lib.rs: one round of the loop of `route_openai_request`.
use xrouter.Common.{
  ℕ, ◌+◌, Bool, true, ◌&&◌, ◌||◌, Option, none, some, List, [], ◌∷◌, ◌++◌, Text, codes, text_eq,
  lookup, leb, ltb, ◌==◌, if◌then◌else◌,
}
use xrouter.Core.{ApiKey, EndpointId, ModelEntry}
use xrouter.Config.{Config, ProviderConfig}
use xrouter.Auth.{is_device_kind}
use xrouter.Auth.Store.{DeviceAccountConfig, DeviceStore, add_account}
use xrouter.Auth.Refresh.{refresh_if_needed}
use xrouter.Balancer.Health.{
  HealthRegistry, is_half_open, mark_probing, mark_failure, mark_success, mark_key_dead,
  apply_retry_after,
}
use xrouter.Balancer.Keys.{ban_key}
use xrouter.Server.Metrics.{inc_error, inc_retries, inc_timeouts, inc_success}
use xrouter.Server.Failover.{
  Credential, World, App, Request, Loop, answered, failed, timed_out, RequestCtx, UpstreamResponse,
  granted, refused, with_health, count, record_track, credential, translated_body, is_streaming,
}

-- `continue`, `break`, or the return of an upstream's answer.
pub data Flow : Type 0 where
  next : Loop → Flow
  leave : Loop → Flow
  answer : App → UpstreamResponse → Flow

-- `last_error = Some((code, body)); attempt += 1;`
abbrev pub missed : App → ℕ → Text → Loop → Loop
missed app code body st = record st {
  app = app;
  last_error = some (code, body);
  attempt = st.attempt + 1;
}

-- `if attempt >= max_attempts { break; } continue;`
unfoldable pub next_or_leave : ℕ → Loop → Flow
next_or_leave max_attempts st = if leb max_attempts st.attempt then leave st else next st

abbrev joined_chunks : List Text → Text
joined_chunks [] = []
joined_chunks (c ∷ cs) = c ++ joined_chunks cs

abbrev pub is_success : ℕ → Bool
is_success status = leb 200 status && ltb status 300

-- A refreshed account goes into the store under its provider and id.
abbrev store_account : World → ℕ → DeviceAccountConfig → Option DeviceStore → Option DeviceStore
store_account w i acct none = none
store_account w i acct (some s) =
    some (add_account s (refresh_if_needed (w.network i) (w.wall i) acct))

unfoldable pub put_back : World → ℕ → Option DeviceAccountConfig → App → App
put_back w i none app = app
put_back w i (some acct) app = record app { device_store = store_account w i acct app.device_store }

-- The endpoint's health after a 429: by the header if there is one, whether or not it can be read.
abbrev quota_health : World → ℕ → EndpointId → Option (Option ℕ) → HealthRegistry → HealthRegistry
quota_health w i id none r = mark_failure (w.jitter i) r id (w.after i)
quota_health w i id (some secs) r = apply_retry_after r id secs (w.after i)

unfoldable pub quota :
    World → ℕ → ProviderConfig → ModelEntry → ApiKey → UpstreamResponse → App → App
quota w i p entry key u app =
    let banned = record app {
      balancer = ban_key app.balancer entry.provider key p.quota_ban_secs (w.after i);
    } in
    count inc_retries
      (with_health banned (quota_health w i entry.endpoint_id u.retry_after banned.balancer.health))

-- What an answer leads to: a status of success, 401 or 403, 429, 5xx or 408, and any other.
module _ (w : World) (i : ℕ) (entry : ModelEntry) where
  unfoldable pub succeeded : Text → UpstreamResponse → App → Flow
  succeeded tier_name u app =
      let app' = with_health app (mark_success app.balancer.health entry.endpoint_id) in
      answer (record_track w (count inc_success app') tier_name entry.provider entry.model true 200)
        u

  abbrev body_of : UpstreamResponse → Text
  body_of u = w.lossy (joined_chunks u.chunks)

  unfoldable pub unauthorized :
      ProviderConfig → ApiKey → Option DeviceAccountConfig → UpstreamResponse → Loop → Flow
  unfolding put_back
  unauthorized p key acct u st =
      let dead = with_health st.app (mark_key_dead st.app.balancer.health key (w.after i)) in
      if is_device_kind p.kind
      then next (record st {
        app = count inc_retries (put_back w i acct st.app);
        attempt = st.attempt + 1;
      })
      else next (missed (count inc_retries dead) u.status (body_of u) st)

  unfoldable pub over_quota :
      ProviderConfig → ApiKey → Option DeviceAccountConfig → UpstreamResponse → Loop → Flow
  unfolding put_back quota
  over_quota p key acct u st =
      if is_device_kind p.kind
      then next (missed (count inc_retries (put_back w i acct st.app)) u.status (body_of u) st)
      else next (missed (quota w i p entry key u st.app) u.status (body_of u) st)

  abbrev pub failing : App → App
  failing app =
      with_health app (mark_failure (w.jitter i) app.balancer.health entry.endpoint_id (w.after i))

  unfoldable pub unavailable : ℕ → UpstreamResponse → Loop → Flow
  unfolding next_or_leave
  unavailable max_attempts u st =
      next_or_leave max_attempts
        (missed (count inc_retries (failing st.app)) u.status (body_of u) st)

  unfoldable pub other_status : UpstreamResponse → Loop → Flow
  other_status u st = next (missed (count inc_retries st.app) u.status (body_of u) st)

  unfoldable pub classify :
      ℕ
      → Text
      → ProviderConfig
      → ApiKey
      → Option DeviceAccountConfig
      → UpstreamResponse
      → Loop
      → Flow
  unfolding succeeded unauthorized over_quota unavailable other_status
  classify max_attempts tier_name p key acct u st =
      if is_success u.status
      then succeeded tier_name u st.app
      else if u.status == 401 || u.status == 403
      then unauthorized p key acct u st
      else if u.status == 429
      then over_quota p key acct u st
      else if leb 500 u.status || u.status == 408
      then unavailable max_attempts u st
      else other_status u st

  unfoldable pub send_failed : ℕ → Text → Loop → Flow
  unfolding next_or_leave
  send_failed max_attempts e st =
      next_or_leave max_attempts (missed (count inc_retries (failing st.app)) 502 e st)

  unfoldable pub send_timed_out : ℕ → Loop → Flow
  unfolding next_or_leave
  send_timed_out max_attempts st = next_or_leave max_attempts (
      missed (count inc_retries (count inc_timeouts (failing st.app))) 504
        (codes "upstream timeout") st)

  unfoldable pub adapter_panicked : ℕ → Loop → Flow
  unfolding next_or_leave
  adapter_panicked max_attempts st =
      next_or_leave max_attempts
        (missed (count inc_error st.app) 502 (codes "provider adapter construction panicked") st)

  -- The call of the upstream and its outcome.
  unfoldable pub attempt_send :
      ℕ → Text → ProviderConfig → ApiKey → Option DeviceAccountConfig → RequestCtx → Loop → Flow
  unfolding classify send_failed send_timed_out adapter_panicked
  attempt_send max_attempts tier_name p key acct ctx st =
      if w.panics i then adapter_panicked max_attempts st else elim (w.send i ctx) [
        | answered u ↦ classify max_attempts tier_name p key acct u st
        | failed e ↦ send_failed max_attempts e st
        | timed_out ↦ send_timed_out max_attempts st
      ]

-- The one probe of a half-open endpoint is claimed.
abbrev pub claim_probe : World → ℕ → EndpointId → App → App
claim_probe w i id app =
    if is_half_open app.balancer.health id
    then with_health app (mark_probing app.balancer.health id (w.before i))
    else app

-- The request that a candidate gets.
abbrev pub ctx_of : World → Request → ProviderConfig → ModelEntry → ApiKey → RequestCtx
ctx_of w req p entry key = record {
  provider = entry.provider;
  base_url = p.base_url;
  model = entry.model;
  api_key = key;
  body =
      translated_body w req.is_anthropic_ingress (text_eq p.kind (codes "anthropic")) req.body
        entry.model;
  stream = is_streaming req.body;
}

-- A candidate without a key or an account is left at once.
unfoldable pub attempt_with :
    World → Request → ℕ → ℕ → Text → ProviderConfig → ModelEntry → Loop → Credential × App → Flow
unfolding attempt_send
attempt_with w req max_attempts i tier_name p entry st (refused msg, app) =
    next (record st { app = count inc_error app; last_error = some (401, msg) })
attempt_with w req max_attempts i tier_name p entry st (granted key acct, app) =
    attempt_send w i entry max_attempts tier_name p key acct (ctx_of w req p entry key)
      (record st { app = claim_probe w i entry.endpoint_id app })

unfoldable pub attempt_provider :
    World → Request → ℕ → ℕ → Text → ProviderConfig → ModelEntry → Loop → Flow
unfolding attempt_with
attempt_provider w req max_attempts i tier_name p entry st =
    attempt_with w req max_attempts i tier_name p entry st (credential w i p entry st.app)

-- One candidate, at place `i` of the list.
unfoldable pub try_entry : World → Config → Request → ℕ → ℕ → Text → ModelEntry → Loop → Flow
unfolding attempt_provider
try_entry w cfg req max_attempts i tier_name entry st =
    let st' = record st { last_provider = entry.provider; last_model = entry.model } in
    elim (lookup entry.provider cfg.providers) [
      | none ↦ next st'
      | some p ↦
          if p.enabled
          then attempt_provider w req max_attempts i tier_name p entry st'
          else next st'
    ]
