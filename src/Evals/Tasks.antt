-- ===== src/Evals/Tasks.antt =====
-- hydralisk/evals/terminal_bench.py: what the tasks of a run count as.
-- What raises in the code is `none`. A set of ids is a list that is only asked for its members.
use hydralisk.Prelude.{
  ℕ, suc, ◌+◌, String, Bool, true, false, Option, none, some, List, [], ◌∷◌, ltb, ◌==◌,
  if◌then◌else◌, length, ◌>>=◌,
}
use hydralisk.Prelude.Int.{ℤ, pos}
use hydralisk.Text.{lower, reads_as, strip, is_in}
use hydralisk.Json.{Json, Fields, bool, int, str, arr, obj, get}
use hydralisk.Evals.Values.{Conversions, either, value_at, str_of, int_from, items}
use hydralisk.Evals.TaskId.{task_id_of}

pub data Status : Type 0 where
  solved failing env_broken not_started : Status

-- `_STATUS_ALIASES`
abbrev aliases : List (String × Status)
aliases =
    ("pass", solved)
    ∷ ("passed", solved)
    ∷ ("success", solved)
    ∷ ("solved", solved)
    ∷ ("fail", failing)
    ∷ ("failed", failing)
    ∷ ("failure", failing)
    ∷ ("failing", failing)
    ∷ ("timeout", failing)
    ∷ ("error", env_broken)
    ∷ ("errored", env_broken)
    ∷ ("env_broken", env_broken)
    ∷ ("env-broken", env_broken)
    ∷ ("environment_broken", env_broken)
    ∷ ("environment-broken", env_broken)
    ∷ ("not_started", not_started)
    ∷ ("not-started", not_started)
    ∷ ("pending", not_started)
    ∷ ("queued", not_started)
    ∷ ("skipped", not_started)
    ∷ []

-- `lower()` and `replace(" ", "_")` of a character.
abbrev underscored : ℕ → ℕ
underscored c = if c == 32 then 95 else lower c

-- `_STATUS_ALIASES.get(text, "failing")`
alias_of : List (String × Status) → String → Status
unfolding reads_as
alias_of [] s = failing
alias_of ((name, status) ∷ rest) s = if reads_as underscored s name then status else alias_of rest s

unfoldable pub normalize_status : Conversions → Json → Status
unfolding alias_of
normalize_status py value = alias_of aliases (strip (str_of py (either value (str ""))))

abbrev pub is_solved : Status → Bool
is_solved solved = true
is_solved _ = false

-- `d[name]` if `isinstance(d.get(name), bool)`
abbrev passed_flag : Option Json → Bool → Bool
passed_flag (some (bool b)) other = b
passed_flag _ other = other

unfoldable pub attempt_passed : Conversions → Json → Bool
attempt_passed py (bool b) = b
attempt_passed py (obj attempt) = passed_flag (get "passed" attempt) (
    passed_flag (get "success" attempt)
      (is_solved (normalize_status py (value_at "status" attempt))))
attempt_passed py _ = false

unfoldable pub count_passed : Conversions → List Json → ℕ
count_passed py [] = 0
count_passed py (a ∷ attempts) = (if attempt_passed py a then 1 else 0) + count_passed py attempts

pub record TaskStatus : Type 0 where
  pub status : Status
  pub attempts : ℤ
  pub passed_attempts : ℕ
  pub first_attempt_passed : Option Bool

abbrev pub task_status_of : Status → ℤ → ℕ → Option Bool → TaskStatus
task_status_of status attempts passed_attempts first_attempt_passed = record {
  status = status;
  attempts = attempts;
  passed_attempts = passed_attempts;
  first_attempt_passed = first_attempt_passed;
}

abbrev pub attempts_of : Json → List Json
attempts_of (arr attempts) = items attempts
attempts_of _ = []

-- `int(task.get("attempt_count") or other)`
abbrev pub attempt_count : Conversions → Fields → ℕ → Option ℤ
attempt_count py task other = int_from py (either (value_at "attempt_count" task) (int (pos other)))

-- `_task_status` of a task without attempts, by the status that it names.
unfoldable pub status_named : Conversions → Fields → Status → Option TaskStatus
status_named py task solved = do n ← attempt_count py task 1; some (task_status_of solved n 1 none)
status_named py task not_started = some (task_status_of not_started (pos 0) 0 none)
status_named py task env_broken = do
  n ← attempt_count py task 0
  some (task_status_of env_broken n 0 none)
status_named py task failing = do
  n ← attempt_count py task 1
  some (task_status_of failing n 0 none)

unfoldable pub status_alone : Conversions → Fields → Option TaskStatus
status_alone py task =
    status_named py task
      (normalize_status py (either (value_at "status" task) (value_at "result" task)))

-- `_task_status` of a task with attempts, the first one apart.
unfoldable pub status_attempted : Conversions → Json → List Json → TaskStatus
status_attempted py first attempts =
    let passed = count_passed py (first ∷ attempts) in
    task_status_of (if ltb 0 passed then solved else failing) (pos (suc (length attempts))) passed
      (some (attempt_passed py first))

unfoldable pub task_status : Conversions → List String → List String → Fields → Option TaskStatus
task_status py env_broken_task_ids not_started_task_ids task =
    if is_in (task_id_of py task) env_broken_task_ids
    then some (task_status_of env_broken (pos 0) 0 none)
    else if is_in (task_id_of py task) not_started_task_ids
    then some (task_status_of not_started (pos 0) 0 none)
    else elim (attempts_of (value_at "attempts" task)) [
      | [] ↦ status_alone py task
      | first ∷ attempts ↦ some (status_attempted py first attempts)
    ]
