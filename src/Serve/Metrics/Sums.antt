-- ===== src/Serve/Metrics/Sums.antt =====
-- That the counters of hydralisk/serve/proxy.py agree with each other.
use native.Mathlib.Nat.{mul-le-mul_left}
use hydralisk.Prelude.{
  ℕ, ◌+◌, ◌*◌, ◌≤◌, max, ◌≡◌, refl, String, Bool, true, false, List, [], ◌∷◌, arith, str_eq,
  if◌then◌else◌, if_cases,
}
use hydralisk.Serve.Metrics.{
  RouteMetrics, ProxyMetrics, new_metrics, no_route, at_route, count_status, failed, record_started,
  record_finished, Report, started, finished, report,
}

-- The sum of one counter over the routes.
abbrev pub over_routes : (RouteMetrics → ℕ) → List (String × RouteMetrics) → ℕ
over_routes f [] = 0
over_routes f ((r, m) ∷ rest) = f m + over_routes f rest

abbrev pub over_statuses : List (ℕ × ℕ) → ℕ
over_statuses [] = 0
over_statuses ((c, n) ∷ rest) = n + over_statuses rest

pub record IsBalanced (m : ProxyMetrics) : Type 0 where
  pub requests : m.requests_total ≡ over_routes (λ r. r.requests) m.by_route
  pub responses : m.responses_total ≡ over_routes (λ r. r.responses) m.by_route
  pub errors : m.errors_total ≡ over_routes (λ r. r.errors) m.by_route
  pub statuses : m.responses_total ≡ over_statuses m.by_status
  pub latencies : m.latency_count ≡ m.responses_total
  pub some_fail : m.errors_total ≤ m.responses_total
  pub slowest : m.latency_max_ms ≤ m.latency_total_ms
  pub average : m.latency_total_ms ≤ m.latency_count * m.latency_max_ms

over_routes-at_route :
    (f : RouteMetrics → ℕ) (k : ℕ) (route : String) (g : RouteMetrics → RouteMetrics)
    (ms : List (String × RouteMetrics))
    → f no_route ≡ 0
    → ((m : RouteMetrics) → f (g m) ≡ f m + k)
    → over_routes f (at_route route g ms) ≡ over_routes f ms + k
unfolding at_route
over_routes-at_route f k route g [] z h = omega (arith, h no_route, z)
over_routes-at_route f k route g ((r, m) ∷ ms) z h =
    if_cases (λ l. over_routes f l ≡ over_routes f ((r, m) ∷ ms) + k) (str_eq r route) _ _
      (λ _. omega (arith, h m)) (λ _. omega (arith, over_routes-at_route f k route g ms z h))

over_statuses-count_status :
    (code : ℕ) (cs : List (ℕ × ℕ)) → over_statuses (count_status code cs) ≡ over_statuses cs + 1
unfolding count_status
over_statuses-count_status code [] = refl
over_statuses-count_status code ((c, n) ∷ cs) = ground (arith, over_statuses-count_status code cs)

record_started-IsBalanced :
    (route : String) (m : ProxyMetrics) → IsBalanced m → IsBalanced (record_started route m)
unfolding record_started
record_started-IsBalanced route m v =
    let g : RouteMetrics → RouteMetrics = λ r. record r { requests = r.requests + 1 } in
    record {
      requests = omega (
        arith,
        v.requests,
        over_routes-at_route (λ r. r.requests) 1 route g m.by_route refl (λ r. refl),
      );
      responses = omega (
        arith,
        v.responses,
        over_routes-at_route (λ r. r.responses) 0 route g m.by_route refl (λ r. omega arith),
      );
      errors = omega (
        arith,
        v.errors,
        over_routes-at_route (λ r. r.errors) 0 route g m.by_route refl (λ r. omega arith),
      );
      statuses = v.statuses;
      latencies = v.latencies;
      some_fail = v.some_fail;
      slowest = v.slowest;
      average = v.average;
    }

abbrev one_if : Bool → ℕ
one_if true = 1
one_if false = 0

slower : (n t k w : ℕ) → t ≤ n * k → t + w ≤ (n + 1) * max k w
slower n t k w h = omega (arith, h, mul-le-mul_left {m = k} {n = max k w} n (omega arith))

record_finished-IsBalanced :
    (route : String) (status_code wall_ms : ℕ) (error : Bool) (m : ProxyMetrics)
    → IsBalanced m
    → IsBalanced (record_finished route status_code wall_ms error m)
unfolding record_finished
record_finished-IsBalanced route status_code wall_ms error m v =
    let bad : Bool = failed status_code error in
    let g : RouteMetrics → RouteMetrics = λ r. record r {
      responses = r.responses + 1;
      errors = if bad then r.errors + 1 else r.errors;
    } in
    record {
      requests = omega (
        arith,
        v.requests,
        over_routes-at_route (λ r. r.requests) 0 route g m.by_route refl (λ r. omega arith),
      );
      responses = omega (
        arith,
        v.responses,
        over_routes-at_route (λ r. r.responses) 1 route g m.by_route refl (λ r. refl),
      );
      errors = ground (
        arith,
        v.errors,
        over_routes-at_route (λ r. r.errors) (one_if bad) route g m.by_route refl
            (λ r. added bad r.errors),
      );
      statuses = omega (arith, v.statuses, over_statuses-count_status status_code m.by_status);
      latencies = omega (arith, v.latencies);
      some_fail = ground (arith, v.some_fail);
      slowest = omega (arith, v.slowest);
      average = slower m.latency_count m.latency_total_ms m.latency_max_ms wall_ms v.average;
    }
  where
    added : (b : Bool) (n : ℕ) → (if b then n + 1 else n) ≡ n + one_if b
    added true n = refl
    added false n = omega arith

report-IsBalanced :
    (reports : List Report) (m : ProxyMetrics) → IsBalanced m → IsBalanced (report reports m)
unfolding report
report-IsBalanced [] m v = v
report-IsBalanced (started route ∷ rest) m v =
    report-IsBalanced rest (record_started route m) (record_started-IsBalanced route m v)
report-IsBalanced (finished route status_code wall_ms error ∷ rest) m v =
    report-IsBalanced rest (record_finished route status_code wall_ms error m)
      (record_finished-IsBalanced route status_code wall_ms error m v)

-- In any history of the proxy's counters the totals are the sums over the routes, the responses are
-- also the sum over the statuses and the number of latencies, no more responses are errors than there
-- are, and the average latency is at most the largest, which is at most their sum.
pub report_new-IsBalanced : (reports : List Report) → IsBalanced (report reports new_metrics)
report_new-IsBalanced reports = report-IsBalanced reports new_metrics fresh
  where
    fresh : IsBalanced new_metrics
    fresh =
        unfold new_metrics in
        record {
          requests = refl;
          responses = refl;
          errors = refl;
          statuses = refl;
          latencies = refl;
          some_fail = omega arith;
          slowest = omega arith;
          average = omega arith;
        }
