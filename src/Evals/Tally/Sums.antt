-- ===== src/Evals/Tally/Sums.antt =====
-- The counts of `_counts_from_tasks` in hydralisk/evals/terminal_bench.py agree with each other.
use hydralisk.Prelude.{
  ℕ, suc, ◌+◌, ◌≤◌, ◌≡◌, refl, subst, arith, String, none, some, List, [], ◌∷◌, ltb, ◌||◌, if_cases,
  length, length-append, Holds, Holds-bind, Holds_some,
}
use hydralisk.Prelude.Int.{ℤ, pos}
use hydralisk.Text.{is_in}
use hydralisk.Json.{Json, Fields}
use hydralisk.Evals.Values.{Conversions, value_at}
use hydralisk.Evals.TaskId.{task_id_of}
use hydralisk.Evals.Tasks.{
  Status, solved, failing, env_broken, not_started, is_solved, TaskStatus, task_status_of,
  task_status, status_alone, status_named, status_attempted, attempts_of, count_passed,
  attempt_count, attempt_passed,
}
use hydralisk.Evals.Tally.{
  Counts, total, TaskIds, Tally, empty_tally, count_by_status, append_id, as_int, known_tasks,
  solved_first, count_task, count_tasks, counts_from_tasks,
}

-- A task was attempted properly if it was solved or failed.
abbrev pub attempted : Status → ℕ
attempted solved = 1
attempted failing = 1
attempted _ = 0

-- What is recorded of a task's attempts fits its status.
pub record Fits (t : TaskStatus) : Type 0 where
  pub passed : as_int (ltb 0 t.passed_attempts || is_solved t.status) ≡ as_int (is_solved t.status)
  pub first : solved_first t.first_attempt_passed ≤ known_tasks t.first_attempt_passed
  pub first_solved : solved_first t.first_attempt_passed ≤ as_int (is_solved t.status)
  pub attempt_known : known_tasks t.first_attempt_passed ≤ attempted t.status

unattempted-Fits : (status : Status) (n : ℤ) → Fits (task_status_of status n 0 none)
unattempted-Fits status n = record {
  passed = refl;
  first = omega arith;
  first_solved = omega arith;
  attempt_known = omega arith;
}

status_named-Fits :
    (py : Conversions) (task : Fields) (s : Status) → Holds Fits (status_named py task s)
unfolding status_named
status_named-Fits py task solved = Holds-bind Fits (attempt_count py task 1) _ λ n e. record {
  passed = refl;
  first = omega arith;
  first_solved = omega arith;
  attempt_known = omega arith;
}
status_named-Fits py task failing =
    Holds-bind Fits (attempt_count py task 1) _ λ n e. unattempted-Fits failing n
status_named-Fits py task env_broken =
    Holds-bind Fits (attempt_count py task 0) _ λ n e. unattempted-Fits env_broken n
status_named-Fits py task not_started = unattempted-Fits not_started (pos 0)

first_passed :
    (py : Conversions) (first : Json) (attempts : List Json)
    → as_int (attempt_passed py first) ≤ count_passed py (first ∷ attempts)
unfolding count_passed
first_passed py first attempts = ground arith

status_attempted-Fits :
    (py : Conversions) (first : Json) (attempts : List Json)
    → Fits (status_attempted py first attempts)
unfolding status_attempted
status_attempted-Fits py first attempts = record {
  passed = ground arith;
  first = ground arith;
  first_solved = ground (arith, first_passed py first attempts);
  attempt_known = ground arith;
}

module _ (py : Conversions) (env_ids not_ids : List String) where
  task_status-Fits : (task : Fields) → Holds Fits (task_status py env_ids not_ids task)
  unfolding task_status status_alone
  task_status-Fits task =
      if_cases (Holds Fits) (is_in (task_id_of py task) env_ids) _ _
        (λ _. unattempted-Fits env_broken (pos 0))
        (λ _.
          if_cases (Holds Fits) (is_in (task_id_of py task) not_ids) _ _
            (λ _. unattempted-Fits not_started (pos 0))
            (λ _. by_attempts (attempts_of (value_at "attempts" task))))
    where
      by_attempts :
          (xs : List Json)
          → Holds Fits (elim xs [
            | [] ↦ status_alone py task
            | first ∷ attempts ↦ some (status_attempted py first attempts)
          ])
      by_attempts [] = status_named-Fits py task _
      by_attempts (first ∷ attempts) = status_attempted-Fits py first attempts

-- Each status has one id for each task counted.
pub record SameLengths (c : Counts) (ids : TaskIds) : Type 0 where
  pub solved_ids : length ids.solved ≡ c.solved
  pub failing_ids : length ids.failing ≡ c.failing
  pub env_broken_ids : length ids.env_broken ≡ c.env_broken
  pub not_started_ids : length ids.not_started ≡ c.not_started

count_by_status-SameLengths :
    (s : Status) (id : String) (c : Counts) (ids : TaskIds)
    → SameLengths c ids
    → SameLengths (count_by_status s c) (append_id s id ids)
unfolding count_by_status append_id
count_by_status-SameLengths solved id c ids h = record {
  solved_ids = omega (arith, length-append ids.solved (id ∷ []), h.solved_ids);
  failing_ids = h.failing_ids;
  env_broken_ids = h.env_broken_ids;
  not_started_ids = h.not_started_ids;
}
count_by_status-SameLengths failing id c ids h = record {
  solved_ids = h.solved_ids;
  failing_ids = omega (arith, length-append ids.failing (id ∷ []), h.failing_ids);
  env_broken_ids = h.env_broken_ids;
  not_started_ids = h.not_started_ids;
}
count_by_status-SameLengths env_broken id c ids h = record {
  solved_ids = h.solved_ids;
  failing_ids = h.failing_ids;
  env_broken_ids = omega (arith, length-append ids.env_broken (id ∷ []), h.env_broken_ids);
  not_started_ids = h.not_started_ids;
}
count_by_status-SameLengths not_started id c ids h = record {
  solved_ids = h.solved_ids;
  failing_ids = h.failing_ids;
  env_broken_ids = h.env_broken_ids;
  not_started_ids = omega (arith, length-append ids.not_started (id ∷ []), h.not_started_ids);
}

total-count_by_status :
    (s : Status) (c : Counts)
    → (total (count_by_status s c) ≡ suc (total c))
      × ((count_by_status s c).solved ≡ c.solved + as_int (is_solved s))
      × ((count_by_status s c).solved + (count_by_status s c).failing
          ≡ c.solved + c.failing + attempted s)
unfolding count_by_status
total-count_by_status solved c = (omega arith, omega arith, omega arith)
total-count_by_status failing c = (omega arith, omega arith, omega arith)
total-count_by_status env_broken c = (omega arith, omega arith, omega arith)
total-count_by_status not_started c = (omega arith, omega arith, omega arith)

-- The passes are those of tasks that were attempted.
pub record IsConsistent (n : ℕ) (t : Tally) : Type 0 where
  pub total_all : total t.counts ≡ n
  pub ids : SameLengths t.counts t.task_ids
  pub pass_at_n : t.pass_at_n_solved ≡ t.counts.solved
  pub pass_at_1 : t.pass_at_1_solved ≤ t.pass_at_1_known
  pub pass_at_1_le : t.pass_at_1_solved ≤ t.counts.solved
  pub known_le : t.pass_at_1_known ≤ t.counts.solved + t.counts.failing

count_task-IsConsistent :
    (n : ℕ) (id : String) (s : TaskStatus) (t : Tally)
    → Fits s
    → IsConsistent n t
    → IsConsistent (suc n) (count_task id s t)
unfolding count_task
count_task-IsConsistent n id s t f h =
    let sums = total-count_by_status s.status t.counts in
    record {
      total_all = omega (arith, sums.0);
      ids = count_by_status-SameLengths s.status id t.counts t.task_ids h.ids;
      pass_at_n = omega (arith, sums.1);
      pass_at_1 = omega arith;
      pass_at_1_le = omega (arith, sums.1);
      known_le = omega (arith, sums.2);
    }

module _ (py : Conversions) (env_ids not_ids : List String) where
  count_tasks-IsConsistent :
      (tasks : List Fields) (n : ℕ) (t : Tally)
      → IsConsistent n t
      → Holds (IsConsistent (length tasks + n)) (count_tasks py env_ids not_ids tasks t)
  unfolding count_tasks
  count_tasks-IsConsistent [] n t h = subst (λ k. IsConsistent k t) {x = n} (omega arith) h
  count_tasks-IsConsistent (task ∷ tasks) n t h =
      Holds-bind (IsConsistent (suc (length tasks) + n)) (task_status py env_ids not_ids task) _
        λ s e.
          subst
            (λ k.
              Holds (IsConsistent k)
                (count_tasks py env_ids not_ids tasks (count_task (task_id_of py task) s t)))
            {x = length tasks + suc n} (omega arith)
            (count_tasks-IsConsistent tasks (suc n) _ (
              count_task-IsConsistent n _ s t
                (Holds_some Fits _ s (task_status-Fits py env_ids not_ids task) e) h))

  -- When a run's tasks are counted, every task is in exactly one of the four counts, each with one
  -- id per task; as many tasks passed in some attempt as are solved, those that passed at the first
  -- attempt are among them and among those whose first attempt is known, and these were attempted.
  pub counts_from_tasks-IsConsistent :
      (tasks : List Fields) (t : Tally)
      → counts_from_tasks py env_ids not_ids tasks ≡ some t
      → IsConsistent (length tasks) t
  unfolding counts_from_tasks
  counts_from_tasks-IsConsistent tasks t e =
      Holds_some (IsConsistent (length tasks)) _ t
        (subst (λ k. Holds (IsConsistent k) (count_tasks py env_ids not_ids tasks empty_tally))
          {x = length tasks + 0} (omega arith)
          (count_tasks-IsConsistent tasks 0 empty_tally empty_consistent))
        e
    where
      empty_consistent : IsConsistent 0 empty_tally
      empty_consistent = record {
        total_all = refl;
        ids = record {
          solved_ids = refl;
          failing_ids = refl;
          env_broken_ids = refl;
          not_started_ids = refl;
        };
        pass_at_n = refl;
        pass_at_1 = omega arith;
        pass_at_1_le = omega arith;
        known_le = omega arith;
      }
