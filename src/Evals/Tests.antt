-- ===== src/Evals/Tests.antt =====
-- Examples for hydralisk/evals/terminal_bench.py.
use hydralisk.Prelude.{
  ℕ, ◌≡◌, refl, String, Bool, true, false, Option, none, some, List, [], ◌∷◌, ltb, max, ◌>>=◌,
}
use hydralisk.Prelude.Int.{pos, negsuc, ◌+ℤ◌}
use hydralisk.Json.{
  Json, Items, Fields, bool, int, float, str, arr, obj, nil, cons, end, field, get,
}
use hydralisk.Evals.Values.{Conversions}
use hydralisk.Text.{strip, less_text}
use hydralisk.Evals.TaskId.{clean_task_id, task_id_of}
use hydralisk.Evals.TaskId.Safe.{IsTaskId, clean_task_id-IsTaskId}
use hydralisk.Evals.Tasks.{
  Status, solved, failing, not_started, normalize_status, task_status, status_attempted,
  count_passed, attempt_passed, status_alone, status_named,
}
use hydralisk.Evals.Tally.{
  Counts, Tally, total, count_tasks, count_task, counts_from_tasks, count_by_status, append_id,
}
use hydralisk.Evals.Tally.Sums.{IsConsistent, counts_from_tasks-IsConsistent}
use hydralisk.Evals.Tally.Listed.{IsListed, counts_from_tasks-IsListed}
use hydralisk.Evals.Summary.{counts_from_summary, payload_from_flags}
use hydralisk.Evals.Summary.Flags.{given, counts_from_summary-payload_from_flags}
use hydralisk.Evals.Report.{TerminalBenchRunSettings, Rate, BenchReceipt, summarize_payload}
use hydralisk.Evals.Report.Shares.{IsFair, summarize_payload-IsFair}
use hydralisk.Evals.Harbor.{
  Child, Job, Attempts, group_trials, add_attempt, sort_children, sort_items, trials_of,
  harbor_trial_task_id, harbor_trial_status, task_id_from_harbor_mapping,
}
use hydralisk.Evals.Job.{
  harbor_job_to_summary_payload, attempts_by_task, job_payload, unknown_tasks,
}
use hydralisk.Evals.Job.Total.{harbor_job_total}

abbrev is_positive_number : Json → Option Bool
is_positive_number (int (pos n)) = some (ltb 0 n)
is_positive_number (int (negsuc n)) = some false
is_positive_number (float (some (pos n))) = some (ltb 0 n)
is_positive_number (float _) = some false
is_positive_number (bool b) = some b
is_positive_number _ = none

abbrev py : Conversions
py = record { print = λ v. "1"; read_int = λ v. none; is_positive = is_positive_number }

abbrev spaced : Json
spaced = str "  my task (v2)\n"

cleaned : clean_task_id py spaced ≡ "my_task_v2_"
unfolding clean_task_id strip
cleaned = refl

clean_task_id-IsTaskId_example : IsTaskId (clean_task_id py spaced)
clean_task_id-IsTaskId_example = clean_task_id-IsTaskId py spaced

alias_read : normalize_status py (str " Not Started ") ≡ not_started
unfolding normalize_status strip
alias_read = refl

abbrev retried : Fields
retried = field "task_id" (str "retried") (
    field "attempts" (arr (cons (bool false) (cons (obj (field "passed" (bool true) end)) nil)))
      end)

abbrev broken : Fields
broken = field "id" (str "broken") (field "attempts" (arr (cons (bool true) nil)) end)

abbrev run : List Fields
run = retried ∷ broken ∷ []

abbrev tally : Tally
tally = record {
  counts = record { solved = 1; failing = 0; env_broken = 1; not_started = 0 };
  task_ids = record {
    solved = "retried" ∷ [];
    failing = [];
    env_broken = "broken" ∷ [];
    not_started = [];
  };
  attempts_total = pos 2;
  pass_at_1_known = 1;
  pass_at_1_solved = 0;
  pass_at_n_solved = 1;
}

counted : counts_from_tasks py ("broken" ∷ []) [] run ≡ some tally
unfolding counts_from_tasks count_tasks task_status count_task status_attempted count_passed
    attempt_passed task_id_of clean_task_id strip count_by_status append_id get ◌+ℤ◌
counted = refl

counts_from_tasks-IsConsistent_example : IsConsistent 2 tally
counts_from_tasks-IsConsistent_example =
    counts_from_tasks-IsConsistent py ("broken" ∷ []) [] run tally counted

counts_from_tasks-IsListed_example : IsListed py ("broken" ∷ []) [] tally.task_ids
counts_from_tasks-IsListed_example =
    counts_from_tasks-IsListed py ("broken" ∷ []) [] run tally counted

abbrev five : Counts
five = record { solved = 3; failing = 1; env_broken = 1; not_started = 0 }

counts_from_summary-payload_from_flags_example :
    (payload_from_flags (given 6 five none (some (pos 2)) none) >>= counts_from_summary py) ≡ none
counts_from_summary-payload_from_flags_example =
    counts_from_summary-payload_from_flags py 6 five none (some (pos 2)) none

abbrev settings : TerminalBenchRunSettings
settings = record {
  benchmark_ref = "terminal-bench@2.0";
  benchmark_version = "2.0";
  benchmark_repository = "https://github.com/harbor-framework/terminal-bench-2";
  harness_repository = "https://github.com/harbor-framework/harbor";
  runner = "harbor";
  runner_version = "unknown";
  agent = "terminus-2";
  model = "openai/glm-5.2-reap-504b-g4";
  model_alias = "glm-5.2-reap-504b-g4";
  model_profile_ref = "profiles/glm-5.2-reap-504b-b12x-g4.json";
  model_revision = "0xSero/GLM-5.2-504B@cb6b1e0451b9d560cda864f84187869c9a679712";
  hardware_profile = "4x RTX PRO 6000 G4 on admitted 8x fallback host";
  n_concurrent = pos 1;
  max_attempts = pos 5;
  timeout_seconds = pos 3600;
  retry_policy = "pass@1 plus up to 4 queued retries for pass@5";
  min_p = some (float none);
  repetition_penalty = float none;
  max_tokens = pos 1024;
  enable_thinking = false;
  claim_status = "preliminary";
}

abbrev tasks : Items
tasks = cons (obj retried) (cons (str "no task") (cons (obj broken) nil))

abbrev payload : Fields
payload = field "tasks" (arr tasks) end

abbrev rate : ℕ → ℕ → Rate
rate n d = record { numerator = pos n; denominator = pos d }

abbrev receipt_of_run : BenchReceipt
receipt_of_run = record {
  settings = settings;
  counts = record { solved = 1; failing = 0; env_broken = 1; not_started = 0 };
  attempted = 2;
  properly_attempted = 1;
  rates = record {
    full_denominator_solved = some (rate 1 2);
    attempted_solved = some (rate 1 2);
    properly_attempted_solved = some (rate 1 1);
    known_pass_at_1 = some (rate 0 1);
    pass_at_n = some (rate 1 2);
  };
  pass_at_1_solved = some (pos 0);
  pass_at_1_known = pos 1;
  pass_at_n_solved = pos 1;
  env_broken_ids = "broken" ∷ [];
  not_started_ids = [];
  notable_solved_ids = [];
  input_sha256 = none;
}

summarized : summarize_payload py payload settings ("broken" ∷ []) [] [] none ≡ some receipt_of_run
unfolding summarize_payload get counts_from_tasks count_tasks task_status count_task
    status_attempted count_passed attempt_passed task_id_of clean_task_id strip count_by_status
    append_id
summarized = refl

summarize_payload-IsFair_example : IsFair receipt_of_run
summarize_payload-IsFair_example =
    summarize_payload-IsFair py settings payload ("broken" ∷ []) [] [] none receipt_of_run
      summarized

abbrev trials : List (String × Status)
trials = ("a", failing) ∷ ("b", solved) ∷ ("a", solved) ∷ []

abbrev passed_trial : Json
passed_trial = obj (
    field "finished_at" (str "now") (
      field "task_name" (str "t") (
        field "verifier_result" (obj (field "rewards" (obj (field "reward" (int (pos 1)) end)) end))
          end)))

abbrev failed_trial : Json
failed_trial = obj (field "finished_at" (str "now") (field "task_name" (str "t") end))

abbrev trial_dir : String → Json → Child
trial_dir name result = record {
  name = name;
  is_dir = true;
  result = some (some result);
  config = none;
}

abbrev job_result : Fields
job_result = field "n_total_trials" (int (pos 2)) (field "id" (str "j") end)

abbrev twice : Job
twice = record {
  result = some (some (obj job_result));
  config = some (some (obj end));
  children = trial_dir "t__2" passed_trial ∷ trial_dir "t__1" failed_trial ∷ [];
}

abbrev both : Attempts
both = ("t", failing ∷ solved ∷ []) ∷ []

both_read : attempts_by_task py twice ≡ some both
unfolding attempts_by_task sort_children trials_of group_trials add_attempt harbor_trial_task_id
    harbor_trial_status clean_task_id strip get less_text task_id_from_harbor_mapping
both_read = refl

abbrev job_receipt : BenchReceipt
job_receipt = record {
  settings = settings;
  counts = record { solved = 1; failing = 0; env_broken = 0; not_started = 1 };
  attempted = 1;
  properly_attempted = 1;
  rates = record {
    full_denominator_solved = some (rate 1 2);
    attempted_solved = some (rate 1 1);
    properly_attempted_solved = some (rate 1 1);
    known_pass_at_1 = some (rate 0 1);
    pass_at_n = some (rate 1 2);
  };
  pass_at_1_solved = some (pos 0);
  pass_at_1_known = pos 1;
  pass_at_n_solved = pos 1;
  env_broken_ids = [];
  not_started_ids = "j.unknown-not-started-1" ∷ [];
  notable_solved_ids = [];
  input_sha256 = none;
}

abbrev job_fields : Fields
job_fields = job_payload py job_result end "new" both (pos 2)

job_read : harbor_job_to_summary_payload py twice "new" ≡ some job_fields
unfolding harbor_job_to_summary_payload attempts_by_task sort_children trials_of group_trials
    add_attempt harbor_trial_task_id harbor_trial_status clean_task_id strip get less_text
    task_id_from_harbor_mapping
job_read = refl

job_summarized : summarize_payload py job_fields settings [] [] [] none ≡ some job_receipt
unfolding summarize_payload get counts_from_tasks count_tasks task_status count_task
    status_attempted count_passed attempt_passed task_id_of clean_task_id strip count_by_status
    append_id job_payload unknown_tasks sort_items status_alone status_named normalize_status
job_summarized = refl

-- Two attempts at one task are reported as two tasks, one of them not started.
harbor_job_total_example : total job_receipt.counts ≡ max 2 1
unfolding get
harbor_job_total_example =
    harbor_job_total py settings [] [] [] none twice "new" job_result job_fields both (pos 2)
      job_receipt refl both_read refl job_read job_summarized
