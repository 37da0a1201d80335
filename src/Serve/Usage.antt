-- ===== src/Serve/Usage.antt =====
-- hydralisk/serve/receipts.py: `normalize_usage`, the token counts of a run.
-- A Python `bool` is an `int`, so `True` and `False` count as 1 and 0.
pub mod Normal
use hydralisk.Prelude.{ℕ, String, Bool, true, false, Option, none, some, List, [], ◌∷◌}
use hydralisk.Prelude.Int.{ℤ, pos, ◌+ℤ◌}
use hydralisk.Json.{Json, Fields, null, bool, int, float, str, arr, obj, end, field, get}

pub record Usage : Type 0 where
  pub prompt_tokens : ℤ
  pub completion_tokens : ℤ
  pub total_tokens : ℤ

abbrev pub int_of : Option Json → Option ℤ
int_of (some (bool true)) = some (pos 1)
int_of (some (bool false)) = some (pos 0)
int_of (some (int z)) = some z
int_of (some (float z)) = z
int_of _ = none

abbrev pub or_else : Option ℤ → Option ℤ → Option ℤ
or_else none other = other
or_else (some z) other = some z

unfoldable pub int_value : Fields → List String → Option ℤ
int_value source [] = none
int_value source (key ∷ keys) =
    let rest = int_value source keys in or_else (int_of (get key source)) rest

abbrev pub usage_of : Option ℤ → Option ℤ → Option ℤ → Option Usage
usage_of (some p) (some c) (some t) =
    some (record { prompt_tokens = p; completion_tokens = c; total_tokens = t })
usage_of (some p) (some c) none =
    some (record { prompt_tokens = p; completion_tokens = c; total_tokens = p +ℤ c })
usage_of _ _ _ = none

abbrev pub prompt_keys : List String
prompt_keys = "prompt_tokens" ∷ "input_tokens" ∷ "promptTokens" ∷ []

abbrev pub completion_keys : List String
completion_keys = "completion_tokens" ∷ "output_tokens" ∷ "completionTokens" ∷ []

abbrev pub total_keys : List String
total_keys = "total_tokens" ∷ "totalTokens" ∷ []

unfoldable pub normalize_usage : Option Json → Option Usage
unfolding int_value
normalize_usage (some (obj usage)) =
    usage_of (int_value usage prompt_keys) (int_value usage completion_keys)
      (int_value usage total_keys)
normalize_usage _ = none

-- The object that a receipt holds.
abbrev pub usage_fields : Usage → Fields
usage_fields u = field "promptTokens" (int u.prompt_tokens) (
    field "completionTokens" (int u.completion_tokens)
      (field "totalTokens" (int u.total_tokens) end))
