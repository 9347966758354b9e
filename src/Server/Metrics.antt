-- ===== src/Server/Metrics.antt =====
-- crates/xrouter-server/src/metrics.rs: the counters, which wrap at 2 ^ 64, and their JSON. The text
-- for Prometheus and the instrumentation of the `bench` feature are not modelled.
use xrouter.Common.{ℕ, ◌+◌, ◌%◌, ◌^◌, [], ◌∷◌, codes}
use xrouter.Json.{Value, number, obj}

pub record Metrics : Type 0 where
  pub requests_total : ℕ
  pub requests_success : ℕ
  pub requests_error : ℕ
  pub tier_exhausted : ℕ
  pub retries_total : ℕ
  pub upstream_timeouts : ℕ

abbrev pub new_metrics : Metrics
new_metrics = record {
  requests_total = 0;
  requests_success = 0;
  requests_error = 0;
  tier_exhausted = 0;
  retries_total = 0;
  upstream_timeouts = 0;
}

abbrev pub fetch_add : ℕ → ℕ
fetch_add n = (n + 1) % 2 ^ 64

abbrev pub inc_requests : Metrics → Metrics
inc_requests m = record m { requests_total = fetch_add m.requests_total }

abbrev pub inc_success : Metrics → Metrics
inc_success m = record m { requests_success = fetch_add m.requests_success }

abbrev pub inc_error : Metrics → Metrics
inc_error m = record m { requests_error = fetch_add m.requests_error }

abbrev pub inc_tier_exhausted : Metrics → Metrics
inc_tier_exhausted m = record m { tier_exhausted = fetch_add m.tier_exhausted }

abbrev pub inc_retries : Metrics → Metrics
inc_retries m = record m { retries_total = fetch_add m.retries_total }

abbrev pub inc_timeouts : Metrics → Metrics
inc_timeouts m = record m { upstream_timeouts = fetch_add m.upstream_timeouts }

abbrev to_json : Metrics → Value
to_json m = obj (
    (codes "requests_total", number m.requests_total)
    ∷ (codes "requests_success", number m.requests_success)
    ∷ (codes "requests_error", number m.requests_error)
    ∷ (codes "tier_exhausted", number m.tier_exhausted)
    ∷ (codes "retries_total", number m.retries_total)
    ∷ (codes "upstream_timeouts", number m.upstream_timeouts)
    ∷ [])
