-- ===== src/Evals/Report.antt =====
-- hydralisk/evals/terminal_bench.py: `summarize_payload`, the receipt of a run.
-- A rate is the fraction that the code rounds to six decimals. The time stamp and the fixed texts of
-- the receipt are left out; what it copies from the settings is the settings.
pub mod Shares
use hydralisk.Prelude.{
  ℕ, ◌+◌, ◌-◌, String, Bool, true, false, not, ◌&&◌, ◌||◌, Option, none, some, List, [], ◌∷◌, ◌++◌,
  map, ◌==◌, ltb, str_eq, if◌then◌else◌, ◌>>=◌,
}
use hydralisk.Prelude.Int.{ℤ, pos, leb_ℤ}
use hydralisk.Json.{Json, Fields, int, str, arr, obj, get}
use hydralisk.Text.{sorted_set}
use hydralisk.Evals.Values.{Conversions, truthy, value_at, items}
use hydralisk.Evals.TaskId.{clean_task_id}
use hydralisk.Evals.Tally.{Counts, TaskIds, total, Tally, counts_from_tasks}
use hydralisk.Evals.Summary.{TaskSummary, counts_from_summary}

pub record TerminalBenchRunSettings : Type 0 where
  pub benchmark_ref : String
  pub benchmark_version : String
  pub benchmark_repository : String
  pub harness_repository : String
  pub runner : String
  pub runner_version : String
  pub agent : String
  pub model : String
  pub model_alias : String
  pub model_profile_ref : String
  pub model_revision : String
  pub hardware_profile : String
  pub n_concurrent : ℤ
  pub max_attempts : ℤ
  pub timeout_seconds : ℤ
  pub retry_policy : String
  pub min_p : Option Json
  pub repetition_penalty : Json
  pub max_tokens : ℤ
  pub enable_thinking : Bool
  pub claim_status : String

pub record Rate : Type 0 where
  pub numerator : ℤ
  pub denominator : ℤ

unfoldable pub round_rate : ℤ → ℤ → Option Rate
round_rate numerator denominator =
    if leb_ℤ denominator (pos 0)
    then none
    else some (record { numerator = numerator; denominator = denominator })

pub record Rates : Type 0 where
  pub full_denominator_solved : Option Rate
  pub attempted_solved : Option Rate
  pub properly_attempted_solved : Option Rate
  pub known_pass_at_1 : Option Rate
  pub pass_at_n : Option Rate

pub record BenchReceipt : Type 0 where
  pub settings : TerminalBenchRunSettings
  pub counts : Counts
  pub attempted : ℕ
  pub properly_attempted : ℕ
  pub rates : Rates
  pub pass_at_1_solved : Option ℤ
  pub pass_at_1_known : ℤ
  pub pass_at_n_solved : ℤ
  pub env_broken_ids : List String
  pub not_started_ids : List String
  pub notable_solved_ids : List String
  pub input_sha256 : Option String

abbrev pub objects : List Json → List Fields
objects [] = []
objects (obj fields ∷ rest) = fields ∷ objects rest
objects (_ ∷ rest) = objects rest

unfoldable pub summary_of_tally : Tally → TaskSummary
summary_of_tally t = record {
  counts = t.counts;
  attempts_total = t.attempts_total;
  pass_at_1_known = pos t.pass_at_1_known;
  pass_at_1_solved = pos t.pass_at_1_solved;
  pass_at_n_solved = pos t.pass_at_n_solved;
  task_ids = t.task_ids;
}

-- The operator's ids, added to those of a summary.
unfoldable pub add_ids : List String → List String → TaskSummary → TaskSummary
unfolding sorted_set
add_ids env_ids not_started_ids summary = record summary {
  task_ids = record summary.task_ids {
    env_broken = sorted_set (summary.task_ids.env_broken ++ env_ids);
    not_started = sorted_set (summary.task_ids.not_started ++ not_started_ids);
  };
}

-- `pass_at_1_solved or 0`
abbrev pub or_zero : Option ℤ → ℤ
or_zero none = pos 0
or_zero (some z) = z

unfoldable pub rates_of : TaskSummary → Option ℤ → Rates
unfolding round_rate
rates_of summary pass_at_1_solved =
    let c = summary.counts in
    let all = total c in
    record {
      full_denominator_solved = round_rate (pos c.solved) (pos all);
      attempted_solved = round_rate (pos c.solved) (pos (all - c.not_started));
      properly_attempted_solved =
          round_rate (pos c.solved) (pos (all - c.not_started - c.env_broken));
      known_pass_at_1 = round_rate (or_zero pass_at_1_solved) summary.pass_at_1_known;
      pass_at_n = round_rate summary.pass_at_n_solved (pos all);
    }

module _ (py : Conversions) where
  abbrev pub clean_ids : List String → List String
  clean_ids = map (λ id. clean_task_id py (str id))

  unfoldable pub run_summary : Fields → (env_ids not_started_ids : List String) → Option TaskSummary
  unfolding summary_of_tally add_ids
  run_summary payload env_ids not_started_ids = elim (value_at "tasks" payload) [
    | arr tasks ↦ do
      tally ← counts_from_tasks py env_ids not_started_ids (objects (items tasks))
      some (summary_of_tally tally)
    | _ ↦ do
      summary ← counts_from_summary py payload
      some (add_ids env_ids not_started_ids summary)
  ]

  unfoldable pub bench_receipt :
      TerminalBenchRunSettings → List String → Option String → TaskSummary → BenchReceipt
  unfolding rates_of
  bench_receipt settings notable_solved_task_ids input_sha256 summary =
      let pass_at_1_solved =
        if truthy (int summary.pass_at_1_known) then some summary.pass_at_1_solved else none in
      record {
        settings = settings;
        counts = summary.counts;
        attempted = total summary.counts - summary.counts.not_started;
        properly_attempted =
            total summary.counts - summary.counts.not_started - summary.counts.env_broken;
        rates = rates_of summary pass_at_1_solved;
        pass_at_1_solved = pass_at_1_solved;
        pass_at_1_known = summary.pass_at_1_known;
        pass_at_n_solved = summary.pass_at_n_solved;
        env_broken_ids = summary.task_ids.env_broken;
        not_started_ids = summary.task_ids.not_started;
        notable_solved_ids = clean_ids notable_solved_task_ids;
        input_sha256 = input_sha256;
      }

  unfoldable pub summarize_payload :
      Fields
      → TerminalBenchRunSettings
      → (env_broken_task_ids not_started_task_ids notable_solved_task_ids : List String)
      → Option String
      → Option BenchReceipt
  unfolding run_summary bench_receipt
  summarize_payload payload settings env_broken_task_ids not_started_task_ids
        notable_solved_task_ids input_sha256 =
      do
        summary ←
            run_summary payload (clean_ids env_broken_task_ids) (clean_ids not_started_task_ids)
        some (bench_receipt settings notable_solved_task_ids input_sha256 summary)
