-- ===== src/Serve/Metrics.antt =====
-- hydralisk/serve/proxy.py: `_ProxyMetrics`, the counters of the proxy.
-- The lock makes each method one step. A status is its number, from which the source makes the key;
-- a wall time is a number of milliseconds, so `max(wall_ms, 0)` is the time. `round` of the average is
-- left out: the average is the sum and the count that it divides.
pub mod Sums
pub mod Tests
use hydralisk.Prelude.{
  ℕ, ◌+◌, max, String, Bool, true, false, ◌||◌, Option, none, some, List, [], ◌∷◌, leb, ◌==◌,
  str_eq, if◌then◌else◌,
}

pub record RouteMetrics : Type 0 where
  pub requests : ℕ
  pub responses : ℕ
  pub errors : ℕ

pub record ProxyMetrics : Type 0 where
  pub requests_total : ℕ
  pub responses_total : ℕ
  pub errors_total : ℕ
  pub latency_count : ℕ
  pub latency_total_ms : ℕ
  pub latency_max_ms : ℕ
  pub by_route : List (String × RouteMetrics)
  pub by_status : List (ℕ × ℕ)

unfoldable pub new_metrics : ProxyMetrics
new_metrics = record {
  requests_total = 0;
  responses_total = 0;
  errors_total = 0;
  latency_count = 0;
  latency_total_ms = 0;
  latency_max_ms = 0;
  by_route = [];
  by_status = [];
}

abbrev pub no_route : RouteMetrics
no_route = record { requests = 0; responses = 0; errors = 0 }

-- `by_route.setdefault(route, …)`, and what is then added to the entry.
unfoldable pub at_route :
    String
    → (RouteMetrics → RouteMetrics)
    → List (String × RouteMetrics)
    → List (String × RouteMetrics)
at_route route f [] = (route, f no_route) ∷ []
at_route route f ((r, m) ∷ rest) =
    if str_eq r route then (r, f m) ∷ rest else (r, m) ∷ at_route route f rest

-- `by_status[key] = by_status.get(key, 0) + 1`
unfoldable pub count_status : ℕ → List (ℕ × ℕ) → List (ℕ × ℕ)
count_status code [] = (code, 1) ∷ []
count_status code ((c, n) ∷ rest) =
    if c == code then (c, n + 1) ∷ rest else (c, n) ∷ count_status code rest

unfoldable pub record_started : String → ProxyMetrics → ProxyMetrics
record_started route m = record m {
  requests_total = m.requests_total + 1;
  by_route = at_route route (λ r. record r { requests = r.requests + 1 }) m.by_route;
}

abbrev pub failed : ℕ → Bool → Bool
failed status_code error = error || leb 400 status_code

unfoldable pub record_finished : String → ℕ → ℕ → Bool → ProxyMetrics → ProxyMetrics
record_finished route status_code wall_ms error m = record m {
  responses_total = m.responses_total + 1;
  by_status = count_status status_code m.by_status;
  latency_count = m.latency_count + 1;
  latency_total_ms = m.latency_total_ms + wall_ms;
  latency_max_ms = max m.latency_max_ms wall_ms;
  by_route =
      at_route route
        (λ r. record r {
          responses = r.responses + 1;
          errors = if failed status_code error then r.errors + 1 else r.errors;
        })
        m.by_route;
  errors_total = if failed status_code error then m.errors_total + 1 else m.errors_total;
}

-- The average latency of a snapshot, if there is one: a sum and a count.
unfoldable pub average_latency : ProxyMetrics → Option (ℕ × ℕ)
average_latency m =
    if m.latency_count == 0 then none else some (m.latency_total_ms, m.latency_count)

pub data Report : Type 0 where
  started : String → Report
  finished : String → ℕ → ℕ → Bool → Report

unfoldable pub report : List Report → ProxyMetrics → ProxyMetrics
report [] m = m
report (started route ∷ rest) m = report rest (record_started route m)
report (finished route status_code wall_ms error ∷ rest) m =
    report rest (record_finished route status_code wall_ms error m)
