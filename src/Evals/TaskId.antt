-- ===== src/Evals/TaskId.antt =====
-- hydralisk/evals/terminal_bench.py: the task ids that a report may show.
pub mod Safe
use Prim.Native.Char.{Char, code}
use hydralisk.Prelude.{
  ℕ, zero, suc, String, Bool, true, false, not, ◌&&◌, ◌||◌, leb, ◌==◌, if◌then◌else◌,
}
use hydralisk.Text.{is_blank, strip}
use hydralisk.Json.{Json, Fields, str}
use hydralisk.Evals.Values.{Conversions, either, value_at, str_of}

-- `[A-Za-z0-9_.:/-]`
abbrev pub is_id_char : ℕ → Bool
is_id_char c = leb 65 c && leb c 90 || leb 97 c && leb c 122 || leb 45 c && leb c 58 || c == 95

-- `_TASK_ID_RE.sub("_", text)`; `run` tells that the last character was replaced.
unfoldable pub replace_runs : Bool → String → String
replace_runs run String.[] = String.[]
replace_runs run (String.◌∷◌ c s) =
    let rest = replace_runs (not (is_id_char (code c))) s in
    if is_id_char (code c) then String.◌∷◌ c rest else if run then rest else String.◌∷◌ "_" rest

-- `text[:n]`
unfoldable pub prefix : ℕ → String → String
prefix zero s = String.[]
prefix (suc n) String.[] = String.[]
prefix (suc n) (String.◌∷◌ c s) = String.◌∷◌ c (prefix n s)

abbrev pub or_unknown : String → String
or_unknown s = if is_blank s then "unknown" else s

unfoldable pub clean_text : String → String
unfolding replace_runs prefix
clean_text text = or_unknown (prefix 160 (replace_runs false (strip text)))

unfoldable pub clean_task_id : Conversions → Json → String
unfolding clean_text
clean_task_id py value = clean_text (str_of py (either value (str "unknown")))

-- The id of a task in a payload.
unfoldable pub task_id_of : Conversions → Fields → String
task_id_of py task =
    clean_task_id py
      (either (either (value_at "task_id" task) (value_at "id" task)) (value_at "name" task))
