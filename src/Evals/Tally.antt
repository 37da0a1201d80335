-- ===== src/Evals/Tally.antt =====
-- hydralisk/evals/terminal_bench.py: `_counts_from_tasks`, the counts and the ids of a run's tasks.
pub mod Sums
pub mod Listed
use hydralisk.Prelude.{
  ℕ, suc, ◌+◌, String, Bool, true, false, Option, none, some, List, [], ◌∷◌, ◌++◌, ltb, ◌||◌,
  if◌then◌else◌, ◌>>=◌,
}
use hydralisk.Prelude.Int.{ℤ, pos, ◌+ℤ◌}
use hydralisk.Json.{Fields}
use hydralisk.Evals.Values.{Conversions}
use hydralisk.Evals.TaskId.{task_id_of}
use hydralisk.Evals.Tasks.{
  Status, solved, failing, env_broken, not_started, is_solved, TaskStatus, task_status,
}

pub record Counts : Type 0 where
  pub solved : ℕ
  pub failing : ℕ
  pub env_broken : ℕ
  pub not_started : ℕ

-- `sum(counts[key] for key in _COUNT_KEYS)`
abbrev pub total : Counts → ℕ
total c = c.solved + c.failing + c.env_broken + c.not_started

pub record TaskIds : Type 0 where
  pub solved : List String
  pub failing : List String
  pub env_broken : List String
  pub not_started : List String

-- The variables of the loop.
pub record Tally : Type 0 where
  pub counts : Counts
  pub task_ids : TaskIds
  pub attempts_total : ℤ
  pub pass_at_1_known : ℕ
  pub pass_at_1_solved : ℕ
  pub pass_at_n_solved : ℕ

abbrev pub empty_tally : Tally
empty_tally = record {
  counts = record { solved = 0; failing = 0; env_broken = 0; not_started = 0 };
  task_ids = record { solved = []; failing = []; env_broken = []; not_started = [] };
  attempts_total = pos 0;
  pass_at_1_known = 0;
  pass_at_1_solved = 0;
  pass_at_n_solved = 0;
}

unfoldable pub count_by_status : Status → Counts → Counts
count_by_status solved c = record c { solved = c.solved + 1 }
count_by_status env_broken c = record c { env_broken = c.env_broken + 1 }
count_by_status not_started c = record c { not_started = c.not_started + 1 }
count_by_status failing c = record c { failing = c.failing + 1 }

unfoldable pub append_id : Status → String → TaskIds → TaskIds
append_id solved id ids = record ids { solved = ids.solved ++ id ∷ [] }
append_id env_broken id ids = record ids { env_broken = ids.env_broken ++ id ∷ [] }
append_id not_started id ids = record ids { not_started = ids.not_started ++ id ∷ [] }
append_id failing id ids = record ids { failing = ids.failing ++ id ∷ [] }

abbrev pub as_int : Bool → ℕ
as_int true = 1
as_int false = 0

abbrev pub known_tasks : Option Bool → ℕ
known_tasks none = 0
known_tasks (some b) = 1

abbrev pub solved_first : Option Bool → ℕ
solved_first none = 0
solved_first (some b) = as_int b

-- One round of the loop.
unfoldable pub count_task : String → TaskStatus → Tally → Tally
count_task id t tally = record {
  counts = count_by_status t.status tally.counts;
  task_ids = append_id t.status id tally.task_ids;
  attempts_total = tally.attempts_total +ℤ t.attempts;
  pass_at_1_known = tally.pass_at_1_known + known_tasks t.first_attempt_passed;
  pass_at_1_solved = tally.pass_at_1_solved + solved_first t.first_attempt_passed;
  pass_at_n_solved =
      tally.pass_at_n_solved + as_int (ltb 0 t.passed_attempts || is_solved t.status);
}

module _ (py : Conversions) (env_broken_task_ids not_started_task_ids : List String) where
  unfoldable pub count_tasks : List Fields → Tally → Option Tally
  count_tasks [] tally = some tally
  count_tasks (task ∷ tasks) tally = do
    t ← task_status py env_broken_task_ids not_started_task_ids task
    count_tasks tasks (count_task (task_id_of py task) t tally)

  unfoldable pub counts_from_tasks : List Fields → Option Tally
  counts_from_tasks tasks = count_tasks tasks empty_tally
