-- ===== src/Serve/Metrics/Tests.antt =====
-- Examples for hydralisk/serve/proxy.py: the counters.
use hydralisk.Prelude.{true, false, List, [], ◌∷◌}
use hydralisk.Serve.Metrics.{Report, started, finished, report, new_metrics}
use hydralisk.Serve.Metrics.Sums.{IsBalanced, report_new-IsBalanced}

abbrev two_requests : List Report
two_requests =
    started "chat_completions"
    ∷ started "responses"
    ∷ finished "responses" 200 40 false
    ∷ finished "chat_completions" 502 10 true
    ∷ []

report_new-IsBalanced_example : IsBalanced (report two_requests new_metrics)
report_new-IsBalanced_example = report_new-IsBalanced two_requests
