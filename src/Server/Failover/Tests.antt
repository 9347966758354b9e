-- ===== src/Server/Failover/Tests.antt =====
-- Requests that are run: a tier of two providers, the first of which fails.
use xrouter.Common.{
  ℕ, ◌*◌, length, zero, suc, ◌≡◌, refl, true, false, none, List, [], ◌∷◌, Text, codes, subst,
  lookup, insert, text_eq, strip_prefix, ◌||◌, ◌==◌,
}
use xrouter.Json.{string, obj}
use xrouter.Core.{ModelEntry, Tier, new_tier}
use xrouter.Core.Endpoint
use xrouter.Config.{Config, ProviderConfig}
use xrouter.Auth.Refresh.{Network}
use xrouter.Balancer.State.{new_balancer}
use xrouter.Balancer.Keys.{
  update_keys, keys_len, next_key, scan, try_key, is_key_banned, ban_id, new_ring,
}
use xrouter.Balancer.Candidates.{
  candidates_ordered, sort_desc, rotate_default, position, split_groups, enumerate, group_of,
  insert_desc, arranged, arrange,
}
use xrouter.Auth.{is_device_kind}
use xrouter.Server.Failover.Attempt.{
  try_entry, attempt_provider, attempt_with, attempt_send, classify, succeeded, unavailable,
  next_or_leave,
}
use xrouter.Balancer.Health.{
  new_registry, snapshot_from, health_state, is_provider_degraded, is_key_dead, is_half_open,
  mark_failure,
}
use xrouter.Server.Metrics.{new_metrics, inc_requests}
use xrouter.Server.Track
use xrouter.Auth.Refresh
use xrouter.Server.Failover.{
  World, App, Request, RequestCtx, Sent, answered, failed, timed_out, count, credential,
  key_credential,
}
use xrouter.Server.Failover.Route.{
  Outcome, rejected, relayed, max_attempts, run_candidates, serve, serve_candidates, most_keys,
  conclude, route_openai_request,
}
use xrouter.Server.Failover.Outcomes.{IsSettled, route_openai_request-IsSettled}
use xrouter.Server.Failover.Bans.{IsSpared, HasNoRejection, serve-IsSpared}
use xrouter.Server.Failover.Refinement.{serve-Reaches, served_by, IsAllowed}
use xrouter.Server.Failover.Calls.{Reaches}
use xrouter.Server.Failover.Health.{health_of}
use xrouter.Providers.Cache.{ModelCache}

abbrev network : Network
network = record {
  exchange = λ a t. Refresh.err (codes "no network");
  register = none;
  identity = λ p t. t;
  arn = λ a. none;
}

abbrev reply : ℕ → Sent
reply status = answered (record { status = status; retry_after = none; chunks = codes "{}" ∷ [] })

-- The first upstream answers with 500, the others with 200.
abbrev send : ℕ → RequestCtx → Sent
send zero ctx = reply 500
send (suc i) ctx = reply 200

abbrev world : World
world = record {
  before = λ i. i;
  after = λ i. i;
  wall = λ i. i;
  jitter = λ i d. d;
  network = λ i. network;
  panics = λ i. false;
  send = send;
  timestamp = 7;
  latency = 5;
  encode = λ es. none;
  print = λ v. [];
  lossy = λ t. t;
}

abbrev provider : ProviderConfig
provider = record {
  kind = codes "openai-compat";
  base_url = codes "u";
  enabled = true;
  keys = codes "k" ∷ [];
  quota_ban_secs = 300;
}

abbrev entry : Text → ModelEntry
entry p = record {
  provider = p;
  model = codes "m";
  is_default = false;
  weight = 1;
  endpoint_id = Endpoint.new p (codes "m");
}

abbrev two_providers : List ModelEntry
two_providers = entry (codes "a") ∷ entry (codes "b") ∷ []

abbrev two : Tier
two = new_tier (codes "two") two_providers

abbrev cfg : Config
cfg = record {
  settings = record { default_tier = none; api_token = none };
  providers = (codes "a", provider) ∷ (codes "b", provider) ∷ [];
  tiers = two ∷ [];
}

abbrev app : App
app = record {
  balancer =
      update_keys (update_keys new_balancer (codes "a") (codes "k" ∷ [])) (codes "b")
        (codes "l" ∷ []);
  metrics = new_metrics;
  tracker = Track.new true [];
  device_store = none;
}

abbrev request : Request
request = record {
  body = obj ((codes "model", string (codes "two")) ∷ []);
  authorization = [];
  is_anthropic_ingress = false;
  is_responses_ingress = false;
}

abbrev no_models : ModelCache
no_models = record { models = [] }

app_health : health_of app ≡ new_registry
unfolding update_keys
app_health = refl

route_openai_request-IsSettled_example :
    IsSettled world (count inc_requests app) (route_openai_request world cfg request no_models app)
route_openai_request-IsSettled_example =
    route_openai_request-IsSettled world cfg request no_models app

abbrev status_of : Sent → ℕ
status_of (answered u) = u.status
status_of (failed e) = 502
status_of timed_out = 504

abbrev HasSpareStatus : Sent → Type 0
HasSpareStatus s =
    ((status_of s == 401 || status_of s == 403) ≡ false) × ((status_of s == 429) ≡ false)

no_rejection : HasNoRejection world
no_rejection zero ctx u h = subst HasSpareStatus h (refl, refl)
no_rejection (suc i) ctx u h = subst HasSpareStatus h (refl, refl)

serve-IsSpared_example : IsSpared app (serve world cfg request (codes "two") two app).1
serve-IsSpared_example = serve-IsSpared world cfg request (codes "two") two app no_rejection

-- The code of a reply.
abbrev code_of : Outcome → ℕ
code_of (rejected code v) = code
code_of (relayed e u) = u.status

-- The second provider serves the request.
served_run : code_of (serve world cfg request (codes "two") two app).0 ≡ 200
unfolding serve candidates_ordered sort_desc rotate_default position split_groups enumerate group_of
    lookup snapshot_from insert text_eq health_state update_keys is_provider_degraded insert_desc
    keys_len serve_candidates max_attempts most_keys run_candidates try_entry attempt_provider
    attempt_with attempt_send classify succeeded unavailable next_or_leave credential key_credential
    next_key scan try_key is_key_banned is_key_dead is_device_kind conclude is_half_open arranged
    arrange Endpoint.new ban_id new_ring strip_prefix mark_failure
served_run = refl

serve-Reaches_example :
    Reaches
      (IsAllowed world two app)
      (3 * length two.entries)
      (served_by (serve world cfg request (codes "two") two app).0)
      (health_of app)
      (health_of (serve world cfg request (codes "two") two app).1)
serve-Reaches_example = serve-Reaches world cfg request (codes "two") two app
