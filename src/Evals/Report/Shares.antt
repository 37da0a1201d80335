-- ===== src/Evals/Report/Shares.antt =====
-- The numbers of a receipt of hydralisk/evals/terminal_bench.py fit each other.
use hydralisk.Prelude.{
  ℕ, ◌+◌, ◌≤◌, ◌<◌, ◌≡◌, ◌∙◌, sym, ◌>>=◌, refl, ap, arith, String, Option, none, some, List,
  if_cases, Holds, Holds-bind, Holds_some, length, if◌then◌else◌,
}
use hydralisk.Prelude.Int.{pos, leb_ℤ}
use hydralisk.Json.{Items, Fields, int, arr, get}
use hydralisk.Evals.Values.{Conversions, truthy, items}
use hydralisk.Evals.Tally.{total, Tally, counts_from_tasks}
use hydralisk.Evals.Tally.Sums.{IsConsistent, counts_from_tasks-IsConsistent}
use hydralisk.Evals.Summary.{TaskSummary}
use hydralisk.Evals.Report.{
  TerminalBenchRunSettings, Rate, BenchReceipt, round_rate, rates_of, summary_of_tally, run_summary,
  bench_receipt, clean_ids, objects, summarize_payload, or_zero,
}

-- A rate from 0 to 1.
abbrev pub IsShare : Rate → Type 0
IsShare r = (n : ℕ) × (d : ℕ) × (r.numerator ≡ pos n) × (r.denominator ≡ pos d) × (n ≤ d) × (0 < d)

round_rate-IsShare : (n d : ℕ) → n ≤ d → Holds IsShare (round_rate (pos n) (pos d))
unfolding round_rate
round_rate-IsShare n d h =
    if_cases (Holds IsShare) (leb_ℤ (pos d) (pos 0)) _ _ (λ _. tt)
      (λ e. (n, d, refl, refl, h, ground (arith, e)))

pub record IsFair (r : BenchReceipt) : Type 0 where
  pub attempted : r.attempted ≡ r.counts.solved + r.counts.failing + r.counts.env_broken
  pub properly_attempted : r.properly_attempted ≡ r.counts.solved + r.counts.failing
  pub of_all : Holds IsShare r.rates.full_denominator_solved
  pub of_attempted : Holds IsShare r.rates.attempted_solved
  pub of_properly_attempted : Holds IsShare r.rates.properly_attempted_solved

module _ (py : Conversions) (settings : TerminalBenchRunSettings) where
  bench_receipt-IsFair :
      (notable : List String) (sha : Option String) (s : TaskSummary)
      → IsFair (bench_receipt py settings notable sha s)
  unfolding bench_receipt rates_of
  bench_receipt-IsFair notable sha s = record {
    attempted = omega arith;
    properly_attempted = omega arith;
    of_all = round_rate-IsShare _ _ (omega arith);
    of_attempted = round_rate-IsShare _ _ (omega arith);
    of_properly_attempted = round_rate-IsShare _ _ (omega arith);
  }

  module _ (payload : Fields) (env_ids not_started_ids notable : List String)
      (sha : Option String) where
    -- In the receipt of any payload that is not refused, the tasks attempted are those solved,
    -- failing and broken, those attempted properly are the solved and the failing ones, and each
    -- of the three shares of solved tasks that is given lies between 0 and 1.
    pub summarize_payload-IsFair :
        (r : BenchReceipt)
        → summarize_payload py payload settings env_ids not_started_ids notable sha ≡ some r
        → IsFair r
    unfolding summarize_payload
    summarize_payload-IsFair r e =
        Holds_some IsFair _ r
          (Holds-bind IsFair
            (run_summary py payload (clean_ids py env_ids) (clean_ids py not_started_ids)) _
            (λ s _. bench_receipt-IsFair notable sha s))
          e

    abbrev pub IsCounted : ℕ → BenchReceipt → Type 0
    IsCounted n r =
        Holds IsShare r.rates.known_pass_at_1
        × Holds IsShare r.rates.pass_at_n
        × (total r.counts ≡ n)
        × (r.pass_at_n_solved ≡ pos r.counts.solved)

    known_rate :
        (n d : ℕ)
        → n ≤ d
        → Holds IsShare
            (round_rate (or_zero (if truthy (int (pos d)) then some (pos n) else none)) (pos d))
    known_rate n d h =
        if_cases (λ o. Holds IsShare (round_rate (or_zero o) (pos d))) (truthy (int (pos d))) _ _
          (λ _. round_rate-IsShare n d h) (λ _. round_rate-IsShare 0 d (omega arith))

    bench_receipt-IsCounted :
        (n : ℕ) (t : Tally)
        → IsConsistent n t
        → IsCounted n (bench_receipt py settings notable sha (summary_of_tally t))
    unfolding bench_receipt rates_of summary_of_tally
    bench_receipt-IsCounted n t h = (
      known_rate t.pass_at_1_solved t.pass_at_1_known h.pass_at_1,
      round_rate-IsShare _ _ (omega (arith, h.pass_at_n)),
      h.total_all,
      ap pos h.pass_at_n,
    )

    run_summary-tasks :
        (tasks : Items) (envs nots : List String)
        → get "tasks" payload ≡ some (arr tasks)
        → run_summary py payload envs nots ≡ (
            counts_from_tasks py envs nots (objects (items tasks)) >>= λ t.
            some (summary_of_tally t))
    unfolding run_summary
    run_summary-tasks tasks envs nots g = rw (run_summary, g) refl

    -- In the receipt of a payload with a list of tasks also the pass rates that are given lie between
    -- 0 and 1, the total is the number of the tasks that are objects, and as many tasks passed in
    -- some attempt as are solved.
    pub summarize_payload-IsCounted :
        (tasks : Items) (r : BenchReceipt)
        → get "tasks" payload ≡ some (arr tasks)
        → summarize_payload py payload settings env_ids not_started_ids notable sha ≡ some r
        → IsCounted (length (objects (items tasks))) r
    unfolding summarize_payload run_summary
    summarize_payload-IsCounted tasks r g e =
        Holds_some (IsCounted n) _ r
          (Holds-bind (IsCounted n) (run_summary py payload envs nots) _ λ s f.
            Holds_some counted _ s
              (Holds-bind counted (counts_from_tasks py envs nots (objects (items tasks))) _ λ t c.
                bench_receipt-IsCounted n t
                  (counts_from_tasks-IsConsistent py envs nots (objects (items tasks)) t c))
              (sym (run_summary-tasks tasks envs nots g) ∙ f))
          e
      where
        n : ℕ
        n = length (objects (items tasks))

        envs : List String
        envs = clean_ids py env_ids

        nots : List String
        nots = clean_ids py not_started_ids

        counted : TaskSummary → Type 0
        counted s = IsCounted n (bench_receipt py settings notable sha s)
