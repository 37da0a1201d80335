-- ===== src/Admission/Targets.antt =====
-- hydralisk/admission/deepseek_v4_fable.py: an adapter's targets against the modules of a runtime.
-- A report is what depends on the two; what it copies from the metadata, and the flags that are always
-- false, are left out. `print` is `str` of a value that is no text, `none` is `FableProbeError`.
use Prim.Native.String.{◌++◌ as append_text}
use hydralisk.Prelude.{
  filter, String, Bool, true, false, ◌||◌, Option, none, some, List, [], ◌∷◌, map, str_eq,
  if◌then◌else◌, ◌>>=◌,
}
use hydralisk.Text.{ends_with, sorted_set}
use hydralisk.Json.{Json, Items, Fields, str, arr, nil, cons, get}

pub record AdapterTargetMatch : Type 0 where
  pub target : String
  pub matched_runtime_modules : List String

-- Whether a module is the target, or ends in it behind a dot.
abbrev pub is_at : String → String → Bool
is_at target name = str_eq name target || ends_with (append_text "." target) name

unfoldable pub match_target : List String → String → AdapterTargetMatch
match_target module_names target = record {
  target = target;
  matched_runtime_modules = filter (is_at target) module_names;
}

unfoldable pub compare_adapter_targets : List String → List String → List AdapterTargetMatch
unfolding match_target
compare_adapter_targets targets runtime_modules =
    map (match_target (sorted_set runtime_modules)) targets

abbrev printed : (Json → String) → Json → String
printed print (str s) = s
printed print v = print v

abbrev target_names : (Json → String) → Items → List String
target_names print nil = []
target_names print (cons v vs) = printed print v ∷ target_names print vs

unfoldable pub adapter_targets : (Json → String) → Fields → Option (List String)
adapter_targets print adapter_config = elim (get "target_modules" adapter_config) [
  | some (arr (cons v vs)) ↦ some (target_names print (cons v vs))
  | _ ↦ none
]

abbrev pub is_matched : AdapterTargetMatch → Bool
is_matched m = elim m.matched_runtime_modules [ [] ↦ false | name ∷ names ↦ true ]

abbrev pub missing_targets : List AdapterTargetMatch → List String
missing_targets [] = []
missing_targets (m ∷ matches) =
    let rest = missing_targets matches in if is_matched m then rest else m.target ∷ rest

pub record CompatibilityReport : Type 0 where
  pub target_modules : List String
  pub module_names : List String
  pub matches : List AdapterTargetMatch
  pub missing_targets_list : List String
  pub can_attempt_private_adapter_load : Bool

abbrev pub none_left : List String → Bool
none_left [] = true
none_left (x ∷ xs) = false

unfoldable pub report_of : List String → List String → CompatibilityReport
unfolding compare_adapter_targets
report_of targets runtime_modules =
    let matches = compare_adapter_targets targets runtime_modules in
    let missing = missing_targets matches in
    record {
      target_modules = targets;
      module_names = runtime_modules;
      matches = matches;
      missing_targets_list = missing;
      can_attempt_private_adapter_load = none_left missing;
    }

unfoldable pub build_report : (Json → String) → Fields → List String → Option CompatibilityReport
build_report print adapter_config runtime_modules = do
  targets ← adapter_targets print adapter_config
  some (report_of targets runtime_modules)
