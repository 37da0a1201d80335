-- ===== src/Evals/Tally/Listed.antt =====
-- Which ids `_counts_from_tasks` of hydralisk/evals/terminal_bench.py lists under which status.
use hydralisk.Prelude.{
  ◌≡◌, String, false, Option, none, some, List, [], ◌∷◌, if_cases, Holds, Holds-bind, Holds_some,
  All, All-append,
}
use hydralisk.Text.{is_in}
use hydralisk.Json.{Fields}
use hydralisk.Evals.Values.{Conversions}
use hydralisk.Evals.TaskId.{task_id_of}
use hydralisk.Evals.TaskId.Safe.{IsTaskId, task_id_of-IsTaskId}
use hydralisk.Evals.Tasks.{
  Status, solved, failing, env_broken, not_started, TaskStatus, task_status,
}
use hydralisk.Evals.Tally.{
  TaskIds, Tally, empty_tally, append_id, count_task, count_tasks, counts_from_tasks,
}

module _ (py : Conversions) (env_ids not_ids : List String) where
  -- A task that the operator calls broken or not started is not listed otherwise.
  abbrev pub MayList : Status → String → Type 0
  MayList env_broken id = IsTaskId id
  MayList not_started id = IsTaskId id × (is_in id env_ids ≡ false)
  MayList solved id = IsTaskId id × (is_in id env_ids ≡ false) × (is_in id not_ids ≡ false)
  MayList failing id = IsTaskId id × (is_in id env_ids ≡ false) × (is_in id not_ids ≡ false)

  pub record IsListed (ids : TaskIds) : Type 0 where
    pub solved_ids : All (MayList solved) ids.solved
    pub failing_ids : All (MayList failing) ids.failing
    pub env_broken_ids : All (MayList env_broken) ids.env_broken
    pub not_started_ids : All (MayList not_started) ids.not_started

  unlisted :
      (s : Status) (id : String)
      → IsTaskId id
      → is_in id env_ids ≡ false
      → is_in id not_ids ≡ false
      → MayList s id
  unlisted solved id h e n = (h, e, n)
  unlisted failing id h e n = (h, e, n)
  unlisted env_broken id h e n = h
  unlisted not_started id h e n = (h, e)

  task_status-MayList :
      (task : Fields)
      → Holds (λ s. MayList s.status (task_id_of py task)) (task_status py env_ids not_ids task)
  unfolding task_status
  task_status-MayList task =
      if_cases (Holds P) (is_in id env_ids) _ _ (λ _. safe)
        (λ e. if_cases (Holds P) (is_in id not_ids) _ _ (λ _. (safe, e)) (λ n. anywhere _ e n))
    where
      id : String
      id = task_id_of py task

      safe : IsTaskId id
      safe = task_id_of-IsTaskId py task

      P : TaskStatus → Type 0
      P s = MayList s.status id

      anywhere :
          (o : Option TaskStatus) → is_in id env_ids ≡ false → is_in id not_ids ≡ false → Holds P o
      anywhere none e n = tt
      anywhere (some s) e n = unlisted s.status id safe e n

  append_id-IsListed :
      (s : Status) (id : String) (ids : TaskIds)
      → MayList s id
      → IsListed ids
      → IsListed (append_id s id ids)
  unfolding append_id
  append_id-IsListed solved id ids m h = record {
    solved_ids = All-append (MayList solved) ids.solved (id ∷ []) h.solved_ids (m, tt);
    failing_ids = h.failing_ids;
    env_broken_ids = h.env_broken_ids;
    not_started_ids = h.not_started_ids;
  }
  append_id-IsListed failing id ids m h = record {
    solved_ids = h.solved_ids;
    failing_ids = All-append (MayList failing) ids.failing (id ∷ []) h.failing_ids (m, tt);
    env_broken_ids = h.env_broken_ids;
    not_started_ids = h.not_started_ids;
  }
  append_id-IsListed env_broken id ids m h = record {
    solved_ids = h.solved_ids;
    failing_ids = h.failing_ids;
    env_broken_ids =
        All-append (MayList env_broken) ids.env_broken (id ∷ []) h.env_broken_ids (m, tt);
    not_started_ids = h.not_started_ids;
  }
  append_id-IsListed not_started id ids m h = record {
    solved_ids = h.solved_ids;
    failing_ids = h.failing_ids;
    env_broken_ids = h.env_broken_ids;
    not_started_ids =
        All-append (MayList not_started) ids.not_started (id ∷ []) h.not_started_ids (m, tt);
  }

  count_tasks-IsListed :
      (tasks : List Fields) (t : Tally)
      → IsListed t.task_ids
      → Holds (λ u. IsListed u.task_ids) (count_tasks py env_ids not_ids tasks t)
  unfolding count_tasks count_task
  count_tasks-IsListed [] t h = h
  count_tasks-IsListed (task ∷ tasks) t h =
      Holds-bind (λ u. IsListed u.task_ids) (task_status py env_ids not_ids task) _
        λ s e. count_tasks-IsListed tasks (count_task (task_id_of py task) s t) (
          append_id-IsListed s.status (task_id_of py task) t.task_ids
            (Holds_some (λ s. MayList s.status (task_id_of py task)) _ s (task_status-MayList task)
              e)
            h)

  -- When a run's tasks are counted, no task that the operator lists as broken is reported under
  -- another status, none that the operator lists as not started is reported as solved or failing,
  -- and every id that is reported is a task id: not empty, at most 160 characters long, and of
  -- letters, digits and `_.:/-` only.
  pub counts_from_tasks-IsListed :
      (tasks : List Fields) (t : Tally)
      → counts_from_tasks py env_ids not_ids tasks ≡ some t
      → IsListed t.task_ids
  unfolding counts_from_tasks
  counts_from_tasks-IsListed tasks t e =
      Holds_some (λ u. IsListed u.task_ids) _ t
        (count_tasks-IsListed tasks empty_tally
          (record { solved_ids = tt; failing_ids = tt; env_broken_ids = tt; not_started_ids = tt }))
        e
