-- ===== src/Evals/Job.antt =====
-- hydralisk/evals/terminal_bench.py: `harbor_job_to_summary_payload`.
-- The id that `uuid4` makes is an argument. What raises in the code is `none`.
pub mod Groups
pub mod Total
use Prim.Native.String.{◌++◌ as append}
use hydralisk.Prelude.{
  ℕ, zero, suc, ◌+◌, ◌-◌, String, Bool, true, false, not, Option, none, some, List, [], ◌∷◌, ◌++◌,
  map, length, ◌>>=◌,
}
use hydralisk.Prelude.Int.{ℤ, pos, pos_part}
use hydralisk.Json.{Json, Items, Fields, null, bool, int, str, arr, obj, nil, cons, end, field}
use hydralisk.Evals.Values.{Conversions, truthy, either, value_at, str_of, int_from}
use hydralisk.Evals.TaskId.{clean_task_id}
use hydralisk.Evals.Tasks.{Status, solved, failing, env_broken, not_started}
use hydralisk.Evals.Harbor.{Job, Attempts, sort_items, sort_children, trials_of, group_trials}

-- A file that must be there and hold an object.
abbrev pub object_of : Option (Option Json) → Option Fields
object_of (some (some (obj fields))) = some fields
object_of _ = none

abbrev status_name : Status → String
status_name solved = "solved"
status_name failing = "failing"
status_name env_broken = "env_broken"
status_name not_started = "not_started"

abbrev pub items_of : List Json → Items
items_of [] = nil
items_of (v ∷ vs) = cons v (items_of vs)

abbrev attempt_of : Status → Json
attempt_of status = obj (field "status" (str (status_name status)) end)

abbrev task_of : String × List Status → Json
task_of (id, statuses) =
    obj (field "task_id" (str id) (field "attempts" (arr (items_of (map attempt_of statuses))) end))

-- The tasks that no trial stands for, numbered from `index`.
unfoldable pub unknown_tasks : Conversions → String → ℕ → ℕ → List Json
unknown_tasks py label index zero = []
unknown_tasks py label index (suc n) =
    obj (
      field "task_id"
        (str (append label (append ".unknown-not-started-" (py.print (int (pos index))))))
        (field "status" (str "not_started") end))
    ∷ unknown_tasks py label (index + 1) n

abbrev is_set : Json → Bool
is_set null = false
is_set _ = true

-- `max(n_total_trials - len(tasks), 0)`
abbrev pub missing : ℤ → ℕ → ℕ
missing n_total_trials tasks = pos_part n_total_trials - tasks

module _ (py : Conversions) where
  -- `attempts_by_task` at the end of the loop.
  unfoldable pub attempts_by_task : Job → Option Attempts
  attempts_by_task job = do
    trials ← trials_of py (sort_children job.children)
    some (group_trials trials [])

  -- `int(job_result.get("n_total_trials") or len(tasks))`
  abbrev pub total_trials : Fields → ℕ → Option ℤ
  total_trials job_result tasks =
      int_from py (either (value_at "n_total_trials" job_result) (int (pos tasks)))

  abbrev job_id : Fields → String → String
  job_id job_result fresh = str_of py (either (value_at "id" job_result) (str fresh))

  -- The payload of the job's two objects and its trials.
  unfoldable pub job_payload : Fields → Fields → String → Attempts → ℤ → Fields
  unfolding unknown_tasks
  job_payload job_result job_config fresh attempts n_total_trials =
      let tasks = map task_of (sort_items attempts) in
      let label =
        clean_task_id py (either (value_at "job_name" job_config) (value_at "id" job_result)) in
      field "source"
        (obj (
          field "type" (str "harbor-job") (
            field "jobName" (value_at "job_name" job_config) (
              field "jobId" (str (job_id job_result fresh)) (
                field "finished" (bool (is_set (value_at "finished_at" job_result))) (
                  field "startedAt" (value_at "started_at" job_result) (
                    field "finishedAt" (value_at "finished_at" job_result) (
                      field "nTotalTrials" (int n_total_trials)
                        (field "nCompletedTrials" (int (pos (length attempts))) end)))))))))
        (field "tasks"
          (arr
            (items_of (tasks ++ unknown_tasks py label 1 (missing n_total_trials (length tasks)))))
          end)

  unfoldable pub harbor_job_to_summary_payload : Job → String → Option Fields
  unfolding attempts_by_task job_payload
  harbor_job_to_summary_payload job fresh = do
    job_result ← object_of job.result
    job_config ← object_of job.config
    attempts ← attempts_by_task job
    n_total_trials ← total_trials job_result (length attempts)
    some (job_payload job_result job_config fresh attempts n_total_trials)
