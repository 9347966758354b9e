-- ===== src/Server/Failover.antt =====
-- crates/xrouter-server/src/lib.rs: `AppState` and what `route_openai_request` reads and changes. The
-- model is of one request: other requests do not run between its steps. What the request meets on
-- its way is a `World`: for the candidate at each place of the list, the clock's readings before
-- and after the upstream answers, the random factor of the backoff, and the upstream's answer.
-- `wall` is the clock of the accounts' expiry, `lossy` is `String::from_utf8_lossy`. The client's `reqwest` is in `send`.
pub mod Attempt
pub mod Route
pub mod Steps
pub mod Bounds
pub mod Draws
pub mod Accounts
pub mod Outcomes
pub mod Calls
pub mod Health
pub mod Refinement
pub mod Bans
mod Tests
use xrouter.Common.{
  ℕ, Bool, true, false, not, ◌&&◌, ◌||◌, Option, none, some, List, [], ◌∷◌, ◌++◌, Text, codes,
  text_eq, contains, lookup, trim, strip_prefix, ◌==◌, if◌then◌else◌,
}
use xrouter.Json.{Value, string, get, as_str, as_bool, put}
use xrouter.Core.{ApiKey, ModelEntry}
use xrouter.Core.Free.{to_lowercase}
use xrouter.Config.{Config, ProviderConfig}
use xrouter.Auth.{is_device_kind, normalize_provider}
use xrouter.Auth.Store.{DeviceAccountConfig, DeviceStore, next_account}
use xrouter.Auth.Refresh.{Network, refresh_if_needed}
use xrouter.Balancer.Health.{HealthRegistry}
use xrouter.Balancer.State.{Balancer}
use xrouter.Balancer.Keys.{next_key}
use xrouter.Server.Metrics.{Metrics, inc_error}
use xrouter.Server.Track.{Tracker, TrackEntry, record_entry}
use xrouter.Server.Requests.Anthropic.{openai_to_anthropic}
use xrouter.Server.Requests.Openai.{anthropic_to_openai}

pub record RequestCtx : Type 0 where
  pub provider : Text
  pub base_url : Text
  pub model : Text
  pub api_key : ApiKey
  pub body : Value
  pub stream : Bool

-- `retry_after` is none without the header, and has the header as `parse::<u64>` reads it.
pub record UpstreamResponse : Type 0 where
  pub status : ℕ
  pub retry_after : Option (Option ℕ)
  pub chunks : List Text

-- What the 15 seconds of `timeout` give.
pub data Sent : Type 0 where
  answered : UpstreamResponse → Sent
  failed : Text → Sent
  timed_out : Sent

pub record World : Type 0 where
  pub before : ℕ → ℕ
  pub after : ℕ → ℕ
  pub wall : ℕ → ℕ
  pub jitter : ℕ → ℕ → ℕ
  pub network : ℕ → Network
  pub panics : ℕ → Bool
  pub send : ℕ → RequestCtx → Sent
  pub timestamp : ℕ
  pub latency : ℕ
  pub encode : List TrackEntry → Option (List ℕ)
  pub print : Value → Text
  pub lossy : Text → Text

-- The part of `AppState` that requests change.
pub record App : Type 0 where
  pub balancer : Balancer
  pub metrics : Metrics
  pub tracker : Tracker
  pub device_store : Option DeviceStore

-- A request whose body was read: `authorization` is the first header of that name, empty if there
-- is none or it is no text.
pub record Request : Type 0 where
  pub body : Value
  pub authorization : Text
  pub is_anthropic_ingress : Bool
  pub is_responses_ingress : Bool

-- The variables of the loop over the candidates.
pub record Loop : Type 0 where
  pub app : App
  pub last_error : Option (ℕ × Text)
  pub last_provider : Text
  pub last_model : Text
  pub attempt : ℕ

abbrev pub with_health : App → HealthRegistry → App
with_health app r = record app { balancer = record app.balancer { health = r } }

abbrev pub count : (Metrics → Metrics) → App → App
count inc app = record app { metrics = inc app.metrics }

unfoldable pub body_is_quota : Text → Bool
body_is_quota body =
    let lower = to_lowercase body in
    contains (codes "quota") lower
    || contains (codes "resource_exhausted") lower
    || contains (codes "insufficient_quota") lower
    || contains (codes "billing_quota") lower
    || contains (codes "rate_limit_exceeded") lower

-- The bearer token: `Bearer ` or `bearer ` is cut off.
abbrev pub bearer : Text → Text
bearer trimmed = elim (strip_prefix (codes "Bearer ") trimmed) [
  | some t ↦ trim t
  | none ↦ elim (strip_prefix (codes "bearer ") trimmed) [ some t ↦ trim t | none ↦ trimmed ]
]

-- Whether the request is let in. `ct_eq` compares as `==` does.
unfoldable pub check_auth : Config → Text → Bool
check_auth cfg authorization = elim cfg.settings.api_token [
  | none ↦ true
  | some [] ↦ true
  | some (c ∷ expected) ↦ text_eq (bearer (trim authorization)) (c ∷ expected)
]

abbrev pub extract_tier_name : Value → Option Text
extract_tier_name body = as_str (get body (codes "model"))

abbrev pub track_entry : World → Text → Text → Text → Bool → ℕ → TrackEntry
track_entry w tier provider model success code = record {
  error_code = code;
  timestamp = w.timestamp;
  provider = provider;
  model = model;
  tier = tier;
  latency_ms = w.latency;
  is_success = success;
}

abbrev pub record_track : World → App → Text → Text → Text → Bool → ℕ → App
record_track w app tier provider model success code = record app {
  tracker = record_entry w.encode app.tracker (track_entry w tier provider model success code);
}

-- A key or an access token with its account, or the text of an error.
pub data Credential : Type 0 where
  granted : ApiKey → Option DeviceAccountConfig → Credential
  refused : Text → Credential

-- The account is a copy: what the refresh changes is not put back here.
unfoldable pub device_credential : World → ℕ → Text → App → Option DeviceStore → Credential × App
device_credential w i name app none = (refused (codes "device store unavailable"), app)
device_credential w i name app (some s) =
    let (acct, s') = next_account s name in
    elim acct [
      | none ↦
          (refused (codes "no device accounts for " ++ name), record app { device_store = some s' })
      | some a ↦
          let fresh = refresh_if_needed (w.network i) (w.wall i) a in
          (granted fresh.access_token (some fresh), record app { device_store = some s' })
    ]

unfoldable pub key_credential : World → ℕ → Text → App → Credential × App
key_credential w i provider app =
    let (key, b) = next_key app.balancer provider (w.before i) in
    let app' = record app { balancer = b } in
    elim key [
      | none ↦ (refused (codes "no valid keys"), app')
      | some (k, idx) ↦ (granted k none, app')
    ]

unfoldable pub credential : World → ℕ → ProviderConfig → ModelEntry → App → Credential × App
unfolding device_credential key_credential
credential w i p entry app =
    if is_device_kind p.kind
    then device_credential w i (normalize_provider p.kind) app app.device_store
    else key_credential w i entry.provider app

-- The body in the protocol of the upstream, for the model of the candidate.
unfoldable pub translated_body : World → Bool → Bool → Value → Text → Value
translated_body w is_anthropic_ingress upstream_is_anthropic body model =
    if is_anthropic_ingress && not upstream_is_anthropic
    then anthropic_to_openai w.print body model
    else if not is_anthropic_ingress && upstream_is_anthropic
    then openai_to_anthropic body model
    else put body (codes "model") (string model)

abbrev pub is_streaming : Value → Bool
is_streaming body = elim (as_bool (get body (codes "stream"))) [ some b ↦ b | none ↦ false ]
