-- ===== src/Evals/Harbor.antt =====
-- hydralisk/evals/terminal_bench.py: the payload that a Harbor job directory gives.
-- A JSON file is `none` where it is missing and `some none` where it cannot be read as JSON; what raises
-- in the code is `none`.
use Prim.Native.Char.{code}
use Prim.Native.String.{◌++◌ as append}
use hydralisk.Prelude.{
  String, Bool, true, not, ◌&&◌, ◌||◌, Option, none, some, List, [], ◌∷◌, ◌++◌, ◌==◌, str_eq,
  if◌then◌else◌, ◌>>=◌,
}
use hydralisk.Text.{split_on, is_blank, strip, less_text}
use hydralisk.Json.{Json, Fields, null, str, obj, end, field, get}
use hydralisk.Evals.Values.{Conversions, truthy, either, value_at, str_of}
use hydralisk.Evals.TaskId.{clean_task_id}
use hydralisk.Evals.Tasks.{Status, solved, failing, not_started}

pub record Child : Type 0 where
  pub name : String
  pub is_dir : Bool
  pub result : Option (Option Json)
  pub config : Option (Option Json)

pub record Job : Type 0 where
  pub result : Option (Option Json)
  pub config : Option (Option Json)
  pub children : List Child

last_part : String → List String → String
last_part last [] = last
last_part last (part ∷ parts) =
    last_part (if is_blank part || str_eq part "." then last else part) parts

-- `Path(text).name`
unfoldable pub path_name : String → String
unfolding last_part
path_name text = last_part "" (split_on 47 text)

-- `text.split("__", 1)[0]`
unfoldable pub before_dunder : String → String
before_dunder String.[] = String.[]
before_dunder (String.◌∷◌ c String.[]) = String.◌∷◌ c String.[]
before_dunder (String.◌∷◌ c (String.◌∷◌ d s)) =
    let rest = before_dunder (String.◌∷◌ d s) in
    if code c == 95 && code d == 95 then String.[] else String.◌∷◌ c rest

-- `if task_id: return task_id`
abbrev or_id : Option String → String → String
or_id none other = other
or_id (some s) other = if is_blank s then other else s

-- The value of a key of what may be no object.
abbrev member_of : String → Json → Json
member_of key (obj fields) = value_at key fields
member_of key _ = null

abbrev file_value : Option (Option Json) → Json
file_value (some (some v)) = v
file_value _ = null

module _ (py : Conversions) where
  unfoldable pub task_id_from_harbor_mapping : Json → Option String
  unfolding path_name
  task_id_from_harbor_mapping (obj value) =
      let path = value_at "path" value in
      let org = value_at "org" value in
      let name = value_at "name" value in
      if truthy path
      then some (clean_task_id py (str (path_name (str_of py path))))
      else if truthy org && truthy name
      then some (clean_task_id py (str (append (str_of py org) (append "/" (str_of py name)))))
      else if truthy name
      then some (clean_task_id py name)
      else none
  task_id_from_harbor_mapping _ = none

  unfoldable pub task_id_from_trial_dir_name : Json → String
  unfolding before_dunder
  task_id_from_trial_dir_name value =
      clean_task_id py (str (before_dunder (strip (str_of py (either value (str "unknown"))))))

  abbrev task_id_from_name : Json → Option String
  task_id_from_name name = if truthy name then some (clean_task_id py name) else none

  unfoldable pub harbor_trial_task_id : Child → Fields → String
  unfolding task_id_from_harbor_mapping task_id_from_trial_dir_name
  harbor_trial_task_id child trial =
      or_id (task_id_from_harbor_mapping (value_at "task_id" trial)) (
        or_id (task_id_from_harbor_mapping (member_of "task" (value_at "config" trial))) (
          or_id (task_id_from_name (value_at "task_name" trial)) (
            or_id (task_id_from_harbor_mapping (member_of "task" (file_value child.config))) (
              task_id_from_trial_dir_name
                (either (value_at "trial_name" trial) (str child.name))))))

  -- The status by `float(reward) > 0`.
  abbrev by_reward : Json → Status
  by_reward reward = elim (py.is_positive reward) [ some true ↦ solved | _ ↦ failing ]

  abbrev by_exception : Json → Status
  by_exception (obj info) = elim (get "exception_type" info) [
    | some (str s) ↦ if str_eq s "CancelledError" then not_started else failing
    | _ ↦ failing
  ]
  by_exception _ = failing

  -- The only value of a dict, or else the given status.
  abbrev by_single_reward : Fields → Status → Status
  by_single_reward (field k v end) other = by_reward v
  by_single_reward _ other = other

  abbrev by_rewards : Json → Status → Status
  by_rewards (obj rewards) other = elim (get "reward" rewards) [
    | some v ↦ by_reward v
    | none ↦ by_single_reward rewards other
  ]
  by_rewards _ other = other

  unfoldable pub harbor_trial_status : Fields → Status
  harbor_trial_status trial =
      if not (truthy (value_at "finished_at" trial))
      then not_started
      else by_rewards (member_of "rewards" (value_at "verifier_result" trial))
          (by_exception (value_at "exception_info" trial))

-- `attempts_by_task`, in the order in which the tasks come up.
abbrev pub Attempts : Type 0
Attempts = List (String × List Status)

-- `attempts_by_task.setdefault(task_id, []).append(status)`
unfoldable pub add_attempt : String → Status → Attempts → Attempts
add_attempt id status [] = (id, status ∷ []) ∷ []
add_attempt id status ((k, statuses) ∷ rest) =
    if str_eq k id
    then (k, statuses ++ status ∷ []) ∷ rest
    else (k, statuses) ∷ add_attempt id status rest

-- `sorted(attempts_by_task.items())`: no two have the same key.
unfoldable pub insert_item : String → List Status → Attempts → Attempts
unfolding less_text
insert_item id statuses [] = (id, statuses) ∷ []
insert_item id statuses ((k, others) ∷ rest) =
    if less_text k id
    then (k, others) ∷ insert_item id statuses rest
    else (id, statuses) ∷ (k, others) ∷ rest

unfoldable pub sort_items : Attempts → Attempts
unfolding insert_item
sort_items [] = []
sort_items ((id, statuses) ∷ rest) = insert_item id statuses (sort_items rest)

-- `sorted(root.iterdir())`
insert_child : Child → List Child → List Child
unfolding less_text
insert_child c [] = c ∷ []
insert_child c (d ∷ rest) =
    if less_text d.name c.name then d ∷ insert_child c rest else c ∷ d ∷ rest

unfoldable pub sort_children : List Child → List Child
unfolding insert_child
sort_children [] = []
sort_children (c ∷ rest) = insert_child c (sort_children rest)

-- The trials of the directory that are read, with their task ids; `none` where one is no JSON.
unfoldable pub trials_of : Conversions → List Child → Option (List (String × Status))
trials_of py [] = some []
trials_of py (child ∷ rest) = elim (if child.is_dir then child.result else none) [
  | none ↦ trials_of py rest
  | some none ↦ none
  | some (some (obj trial)) ↦ do
    trials ← trials_of py rest
    some ((harbor_trial_task_id py child trial, harbor_trial_status py trial) ∷ trials)
  | some (some _) ↦ trials_of py rest
]

unfoldable pub group_trials : List (String × Status) → Attempts → Attempts
group_trials [] attempts = attempts
group_trials ((id, status) ∷ trials) attempts = group_trials trials (add_attempt id status attempts)
