-- ===== src/Evals/Job/Total.antt =====
-- How many tasks a report on a Harbor job counts, in hydralisk/evals/terminal_bench.py.
use hydralisk.Prelude.{
  ℕ, zero, suc, ◌+◌, ◌≡◌, ◌∙◌, ap, refl, arith, max, String, Option, some, List, [], ◌∷◌, ◌++◌, map,
  length, Holds-bind, Holds_some,
}
use hydralisk.Prelude.Int.{ℤ, pos_part}
use hydralisk.Json.{Json, Fields, get}
use hydralisk.Evals.Values.{Conversions, items, value_at, either}
use hydralisk.Evals.Tasks.{Status}
use hydralisk.Evals.TaskId.{clean_task_id}
use hydralisk.Evals.Harbor.{Job, Attempts, insert_item, sort_items}
use hydralisk.Evals.Tally.{total}
use hydralisk.Evals.Report.{TerminalBenchRunSettings, BenchReceipt, objects, summarize_payload}
use hydralisk.Evals.Report.Shares.{summarize_payload-IsCounted}
use hydralisk.Evals.Job.{
  object_of, items_of, task_of, unknown_tasks, missing, attempts_by_task, total_trials, job_payload,
  harbor_job_to_summary_payload,
}

length-insert_item :
    (id : String) (statuses : List Status) (rest : Attempts)
    → length (insert_item id statuses rest) ≡ suc (length rest)
unfolding insert_item
length-insert_item id statuses [] = refl
length-insert_item id statuses ((k, others) ∷ rest) =
    ground (arith, length-insert_item id statuses rest)

length-sort_items : (attempts : Attempts) → length (sort_items attempts) ≡ length attempts
unfolding sort_items
length-sort_items [] = refl
length-sort_items ((id, statuses) ∷ rest) =
    length-insert_item id statuses (sort_items rest) ∙ ap suc (length-sort_items rest)

items-items_of : (vs : List Json) → items (items_of vs) ≡ vs
items-items_of [] = refl
items-items_of (v ∷ vs) = ap (λ t. v ∷ t) (items-items_of vs)

objects-tasks :
    (xs : Attempts) (ys : List Json)
    → length (objects (map task_of xs ++ ys)) ≡ length xs + length (objects ys)
objects-tasks [] ys = omega arith
objects-tasks ((id, statuses) ∷ xs) ys = omega (arith, objects-tasks xs ys)

objects-unknown_tasks :
    (py : Conversions) (label : String) (i n : ℕ)
    → length (objects (unknown_tasks py label i n)) ≡ n
unfolding unknown_tasks
objects-unknown_tasks py label i zero = refl
objects-unknown_tasks py label i (suc n) = ap suc (objects-unknown_tasks py label (i + 1) n)

length-map : (xs : Attempts) → length (map task_of xs) ≡ length xs
length-map [] = refl
length-map (x ∷ xs) = ap suc (length-map xs)

module _ (py : Conversions) (settings : TerminalBenchRunSettings)
    (env_ids not_started_ids notable : List String) (sha : Option String) where
  job_payload_total :
      (job_result job_config : Fields) (fresh : String) (attempts : Attempts) (n : ℤ)
      (r : BenchReceipt)
      → summarize_payload py
          (job_payload py job_result job_config fresh attempts n)
          settings
          env_ids
          not_started_ids
          notable
          sha
        ≡ some r
      → total r.counts ≡ max (pos_part n) (length attempts)
  unfolding job_payload get
  job_payload_total job_result job_config fresh attempts n r e =
      (summarize_payload-IsCounted py settings _ env_ids not_started_ids notable sha _ r refl e).2
      ∙ ap (λ vs. length (objects vs)) (items-items_of (map task_of xs ++ unknown))
      ∙ omega (
        arith,
        objects-tasks xs unknown,
        objects-unknown_tasks py label 1 (missing n (length (map task_of xs))),
        length-map xs,
        length-sort_items attempts,
      )
    where
      xs : Attempts
      xs = sort_items attempts

      label : String
      label = clean_task_id py (either (value_at "job_name" job_config) (value_at "id" job_result))

      unknown : List Json
      unknown = unknown_tasks py label 1 (missing n (length (map task_of xs)))

  -- A report on a Harbor job counts as many tasks as the job has trials in total, or as its trials
  -- have tasks, whichever is more: trials are taken for tasks, so that a second attempt at a task
  -- adds a task that has not started.
  pub harbor_job_total :
      (job : Job) (fresh : String) (job_result payload : Fields) (attempts : Attempts) (n : ℤ)
      (r : BenchReceipt)
      → object_of job.result ≡ some job_result
      → attempts_by_task py job ≡ some attempts
      → total_trials py job_result (length attempts) ≡ some n
      → harbor_job_to_summary_payload py job fresh ≡ some payload
      → summarize_payload py payload settings env_ids not_started_ids notable sha ≡ some r
      → total r.counts ≡ max (pos_part n) (length attempts)
  unfolding harbor_job_to_summary_payload
  harbor_job_total job fresh job_result payload attempts n r er ea en ep es =
      Holds_some Counted _ payload
        (rw (er) (
          Holds-bind Counted (object_of job.config) _ λ job_config _.
            rw (ea, en) (λ q. job_payload_total job_result job_config fresh attempts n q)))
        ep r es
    where
      Counted : Fields → Type 0
      Counted p =
          (q : BenchReceipt)
          → summarize_payload py p settings env_ids not_started_ids notable sha ≡ some q
          → total q.counts ≡ max (pos_part n) (length attempts)
