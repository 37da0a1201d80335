-- ===== src/Serve/Receipts.antt =====
-- hydralisk/serve/receipts.py: the receipt of a run, and the store that keeps it.
-- A receipt is what depends on the run; the parts that only copy the settings are left out. The
-- store's directory is an association list, and a write that the disk refuses is `none`.
pub mod Store
pub mod Tests
use Prim.Native.Char.{code}
use hydralisk.Prelude.{
  ℕ, zero, suc, String, Bool, true, false, not, ◌&&◌, ◌||◌, Option, none, some, List, [], ◌∷◌, ◌++◌,
  leb, ◌==◌, str_eq, if◌then◌else◌, map,
}
use hydralisk.Json.{Json}
use hydralisk.Serve.Settings.{HydraliskSettings}
use hydralisk.Serve.Usage.{Usage, normalize_usage}
use hydralisk.Serve.Policy.{PolicyContext}

pub record RunReceipt : Type 0 where
  pub run_ref : String
  pub served_alias : String
  pub model_revision : Option String
  pub usage : Option Usage
  pub ttft_ms : Option ℕ
  pub wall_ms : ℕ
  pub authorization : Option PolicyContext
  pub blockers : List String

-- The codes of `_model_revision_blockers`.
unfoldable pub model_revision_blockers : HydraliskSettings → List String
model_revision_blockers config =
    if str_eq config.model_revision "unknown_model_revision"
    then "unknown_model_revision" ∷ []
    else []

abbrev pub revision_of : HydraliskSettings → List String → Option String
revision_of config [] = some config.model_revision
revision_of config (b ∷ bs) = none

unfoldable pub build_receipt :
    String
    → String
    → Option Json
    → Option ℕ
    → ℕ
    → HydraliskSettings
    → Option PolicyContext
    → List String
    → RunReceipt
build_receipt run_ref served_alias usage ttft_ms wall_ms config policy_context blockers = record {
  run_ref = run_ref;
  served_alias = served_alias;
  model_revision = revision_of config (model_revision_blockers config);
  usage = normalize_usage usage;
  ttft_ms = ttft_ms;
  wall_ms = wall_ms;
  authorization = policy_context;
  blockers = model_revision_blockers config ++ blockers;
}

-- `[a-f0-9]`
abbrev pub is_hex : ℕ → Bool
is_hex c = leb 97 c && leb c 102 || leb 48 c && leb c 57

-- `[a-f0-9]{n}$`: `$` also matches before a line feed at the end.
unfoldable pub hex_end : ℕ → String → Bool
hex_end zero String.[] = true
hex_end zero (String.◌∷◌ c String.[]) = code c == 10
hex_end zero (String.◌∷◌ c (String.◌∷◌ d s)) = false
hex_end (suc n) String.[] = false
hex_end (suc n) (String.◌∷◌ c s) = is_hex (code c) && hex_end n s

unfoldable pub after_prefix : List ℕ → ℕ → String → Bool
unfolding hex_end
after_prefix [] n s = hex_end n s
after_prefix (p ∷ ps) n String.[] = false
after_prefix (p ∷ ps) n (String.◌∷◌ c s) = code c == p && after_prefix ps n s

-- The code points of `hydralisk-run-`.
abbrev pub run_prefix : List ℕ
run_prefix = 104 ∷ 121 ∷ 100 ∷ 114 ∷ 97 ∷ 108 ∷ 105 ∷ 115 ∷ 107 ∷ 45 ∷ 114 ∷ 117 ∷ 110 ∷ 45 ∷ []

-- `RUN_REF_PATTERN.match`
unfoldable pub is_run_ref : String → Bool
is_run_ref s = after_prefix run_prefix 32 s

abbrev pub Directory : Type 0
Directory = List (String × RunReceipt)

unfoldable pub put_file : String → RunReceipt → Directory → Directory
put_file name r [] = (name, r) ∷ []
put_file name r ((n, q) ∷ rest) =
    if str_eq n name then (n, r) ∷ rest else (n, q) ∷ put_file name r rest

unfoldable pub get_file : String → Directory → Option RunReceipt
get_file name [] = none
get_file name ((n, q) ∷ rest) = if str_eq n name then some q else get_file name rest

-- `ReceiptStore.write`; `disk` is whether the file can be written.
unfoldable pub write : Bool → RunReceipt → Directory → Option Directory
write disk r files =
    if is_run_ref r.run_ref && disk then some (put_file r.run_ref r files) else none

-- `ReceiptStore.read`
unfoldable pub read : String → Directory → Option RunReceipt
read run_ref files = if is_run_ref run_ref then get_file run_ref files else none
