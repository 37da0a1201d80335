-- ===== src/Admission/Retarget.antt =====
-- hydralisk/admission/deepseek_v4_fable.py: the plan for the targets that the runtime has under other
-- names. The texts of a classification that explain it are left out.
pub mod Ready
use hydralisk.Prelude.{
  filter, String, Bool, true, false, ◌||◌, Option, none, some, List, [], ◌∷◌, ◌++◌, map, str_eq,
  if◌then◌else◌,
}
use hydralisk.Text.{ends_with, is_in}
use hydralisk.Admission.Files.{unique}
use hydralisk.Admission.Targets.{AdapterTargetMatch, CompatibilityReport}

pub data RetargetStatus : Type 0 where
  direct_attachable : RetargetStatus
  packed_transform_required : RetargetStatus
  source_inventory_required : RetargetStatus
  unmapped_unknown : RetargetStatus

pub record Classification : Type 0 where
  pub target : String
  pub status : RetargetStatus
  pub runtime_modules : List String
  pub packed_family : Option String

abbrev pub classified : String → RetargetStatus → List String → Option String → Classification
classified target status runtime_modules packed_family = record {
  target = target;
  status = status;
  runtime_modules = runtime_modules;
  packed_family = packed_family;
}

unfoldable pub runtime_modules_ending : List String → String → List String
runtime_modules_ending runtime_modules suffix = filter (ends_with suffix) runtime_modules

-- `_classify_retarget_target` of a target without direct matches.
unfoldable pub classify_packed : String → List String → Classification
unfolding runtime_modules_ending
classify_packed target runtime_modules =
    if is_in target ("q_proj" ∷ "k_proj" ∷ "v_proj" ∷ [])
    then classified target packed_transform_required
        (runtime_modules_ending runtime_modules ".attn.fused_wqa_wkv")
        (some "attention_fused_wqa_wkv")
    else if is_in target ("gate_proj" ∷ "up_proj" ∷ [])
    then classified target packed_transform_required
        (unique (
          runtime_modules_ending runtime_modules ".mlp.gate_up_proj"
          ++ runtime_modules_ending runtime_modules ".mlp.shared_experts.gate_up_proj"))
        (some "swiglu_gate_up_proj")
    else if str_eq target "o_proj"
    then classified target source_inventory_required [] (some "attention_output_o_proj")
    else classified target unmapped_unknown [] none

unfoldable pub classify_retarget_target : String → List String → List String → Classification
classify_retarget_target target [] runtime_modules = classify_packed target runtime_modules
classify_retarget_target target (m ∷ direct_matches) runtime_modules =
    classified target direct_attachable (m ∷ direct_matches) none

-- `target_matches.get(target, ())`: of several entries of a target the last one counts.
unfoldable pub matches_at : String → List AdapterTargetMatch → List String
matches_at target [] = []
matches_at target (m ∷ matches) =
    let rest = matches_at target matches in
    let later = is_in target (map (λ n. n.target) matches) in
    if later then rest else if str_eq target m.target then m.matched_runtime_modules else []

abbrev same_status : RetargetStatus → RetargetStatus → Bool
same_status direct_attachable direct_attachable = true
same_status packed_transform_required packed_transform_required = true
same_status source_inventory_required source_inventory_required = true
same_status unmapped_unknown unmapped_unknown = true
same_status _ _ = false

-- The targets of one status.
abbrev pub targets_with : RetargetStatus → List Classification → List String
targets_with status [] = []
targets_with status (c ∷ cs) =
    let rest = targets_with status cs in
    if same_status c.status status then c.target ∷ rest else rest

pub data PlanStatus : Type 0 where
  blocked_source_inventory_required : PlanStatus
  blocked_packed_transform_implementation_missing : PlanStatus
  ready_for_private_adapter_load_canary : PlanStatus

-- The status by the targets that need an inventory or are unknown, and by those to be packed.
abbrev pub plan_status : (inventory unknown packed : List String) → PlanStatus
plan_status (t ∷ inventory) unknown packed = blocked_source_inventory_required
plan_status [] (t ∷ unknown) packed = blocked_source_inventory_required
plan_status [] [] (t ∷ packed) = blocked_packed_transform_implementation_missing
plan_status [] [] [] = ready_for_private_adapter_load_canary

pub record RetargetPlan : Type 0 where
  pub status : PlanStatus
  pub classifications : List Classification
  pub packed_required : List String
  pub source_inventory_required : List String
  pub unknown : List String

abbrev pub classify_all : CompatibilityReport → List String → List Classification
classify_all report [] = []
classify_all report (target ∷ targets) =
    classify_retarget_target target (matches_at target report.matches) report.module_names
    ∷ classify_all report targets

unfoldable pub build_retarget_plan_report : CompatibilityReport → RetargetPlan
build_retarget_plan_report report =
    let cs = classify_all report report.target_modules in
    let inventory = targets_with source_inventory_required cs in
    let unknown = targets_with unmapped_unknown cs in
    let packed = targets_with packed_transform_required cs in
    record {
      status = plan_status inventory unknown packed;
      classifications = cs;
      packed_required = packed;
      source_inventory_required = inventory;
      unknown = unknown;
    }
