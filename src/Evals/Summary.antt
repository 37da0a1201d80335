-- ===== src/Evals/Summary.antt =====
-- hydralisk/evals/terminal_bench.py: `_counts_from_summary`, counts that a payload brings with it, and
-- the payload that the command line's count flags make. What raises in the code is `none`.
pub mod Flags
use hydralisk.Prelude.{
  ℕ, ◌+◌, String, Bool, true, false, not, ◌||◌, Option, none, some, List, [], ◌∷◌, map, ◌==◌,
  if◌then◌else◌, ◌>>=◌,
}
use hydralisk.Prelude.Int.{ℤ, pos, negsuc}
use hydralisk.Json.{Json, Fields, null, int, str, arr, obj, end, field, get}
use hydralisk.Evals.Values.{Conversions, either, value_at, int_from, items}
use hydralisk.Evals.TaskId.{clean_task_id}
use hydralisk.Evals.Tally.{Counts, TaskIds, total}

-- What both ways of counting give.
pub record TaskSummary : Type 0 where
  pub counts : Counts
  pub attempts_total : ℤ
  pub pass_at_1_known : ℤ
  pub pass_at_1_solved : ℤ
  pub pass_at_n_solved : ℤ
  pub task_ids : TaskIds

abbrev pub non_negative : ℤ → Option ℕ
non_negative (pos n) = some n
non_negative (negsuc n) = none

-- `payload.get("counts", payload)`
abbrev pub counts_raw : Fields → Json
counts_raw payload = elim (get "counts" payload) [ none ↦ obj payload | some v ↦ v ]

abbrev pub chars : String → List Json
chars String.[] = []
chars (String.◌∷◌ c s) = str (String.◌∷◌ c String.[]) ∷ chars s

abbrev pub keys : Fields → List Json
keys end = []
keys (field k v rest) = str k ∷ keys rest

-- What `for item in value` goes through.
abbrev pub iterate : Option Json → Option (List Json)
iterate none = some []
iterate (some (arr vs)) = some (items vs)
iterate (some (obj fields)) = some (keys fields)
iterate (some (str s)) = some (chars s)
iterate (some _) = none

-- The check of a total that the payload provides.
abbrev pub check_total : ℕ → Counts → Option Counts
check_total provided_total counts =
    if provided_total == 0 || provided_total == total counts then some counts else none

module _ (py : Conversions) where
  unfoldable pub count_at : Fields → List String → Option ℕ
  count_at raw [] = some 0
  count_at raw (name ∷ names) = elim (get name raw) [
    | none ↦ count_at raw names
    | some v ↦ do z ← int_from py v; non_negative z
  ]

  -- `int(payload.get(key) or other)`
  abbrev pub int_or : String → ℤ → Fields → Option ℤ
  int_or key other payload = int_from py (either (value_at key payload) (int other))

  unfoldable pub id_list : String → Fields → Option (List String)
  id_list key payload = do ids ← iterate (get key payload); some (map (clean_task_id py) ids)

  unfoldable pub read_counts : Json → Option Counts
  unfolding count_at
  read_counts (obj raw) = do
    solved ← count_at raw ("solved" ∷ "passed" ∷ [])
    failing ← count_at raw ("failing" ∷ "failed" ∷ [])
    env_broken ← count_at raw ("envBroken" ∷ "env_broken" ∷ "environment_broken" ∷ [])
    not_started ← count_at raw ("notStarted" ∷ "not_started" ∷ [])
    provided_total ← count_at raw ("total" ∷ "totalTasks" ∷ [])
    check_total provided_total (record {
      solved = solved;
      failing = failing;
      env_broken = env_broken;
      not_started = not_started;
    })
  read_counts _ = none

  unfoldable pub read_ids : Fields → Option TaskIds
  unfolding id_list
  read_ids payload = do
    solved ← id_list "solvedTaskIds" payload
    failing ← id_list "failingTaskIds" payload
    env_broken ← id_list "envBrokenTaskIds" payload
    not_started ← id_list "notStartedTaskIds" payload
    some (record {
      solved = solved;
      failing = failing;
      env_broken = env_broken;
      not_started = not_started;
    })

  unfoldable pub counts_from_summary : Fields → Option TaskSummary
  unfolding read_counts read_ids
  counts_from_summary payload = do
    counts ← read_counts (counts_raw payload)
    attempts_total ← int_or "attemptsTotal" (pos 0) payload
    pass_at_1_known ← int_or "passAt1KnownTasks" (pos 0) payload
    pass_at_1_solved ← int_or "passAt1Solved" (pos 0) payload
    pass_at_n_solved ← int_or "passAtNAnySolved" (pos counts.solved) payload
    task_ids ← read_ids payload
    some (record {
      counts = counts;
      attempts_total = attempts_total;
      pass_at_1_known = pass_at_1_known;
      pass_at_1_solved = pass_at_1_solved;
      pass_at_n_solved = pass_at_n_solved;
      task_ids = task_ids;
    })

-- The count flags of the command line.
pub record CountFlags : Type 0 where
  pub total : Option ℤ
  pub solved : Option ℤ
  pub failing : Option ℤ
  pub env_broken : Option ℤ
  pub not_started : Option ℤ
  pub pass_at_n_any_solved : Option ℤ
  pub pass_at_1_solved : Option ℤ
  pub pass_at_1_known_tasks : Option ℤ

abbrev pub number : Option ℤ → Json
number none = null
number (some z) = int z

-- `value or 0`
abbrev pub number_or_zero : Option ℤ → Json
number_or_zero flag = either (number flag) (int (pos 0))

-- The last part of `_payload_from_args`; `SystemExit` is `none`.
unfoldable pub payload_from_flags : CountFlags → Option Fields
payload_from_flags flags = do
  all ← flags.total
  solved ← flags.solved
  failing ← flags.failing
  env_broken ← flags.env_broken
  not_started ← flags.not_started
  some (
      field "total" (int all) (
        field "solved" (int solved) (
          field "failing" (int failing) (
            field "envBroken" (int env_broken) (
              field "notStarted" (int not_started) (
                field "passAtNAnySolved" (number flags.pass_at_n_any_solved) (
                  field "passAt1Solved" (number_or_zero flags.pass_at_1_solved) (
                    field "passAt1KnownTasks" (number_or_zero flags.pass_at_1_known_tasks)
                      end))))))))
