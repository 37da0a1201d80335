-- ===== src/Admission/Tests.antt =====
-- Examples for hydralisk/admission/deepseek_v4_fable.py.
use Prim.Native.String.{◌++◌ as append_text}
use hydralisk.Prelude.{
  str_eq, if◌then◌else◌, ℕ, ◌≡◌, ◌<◌, refl, ◌↔◌, String, Bool, true, ◌&&◌, leb, Option, none, some,
  List, [], ◌∷◌, All, length, filter,
}
use hydralisk.Prelude.Int.{pos}
use hydralisk.Json.{Json, Fields, str, int, arr, obj, nil, cons, end, field, get}
use hydralisk.Text.{less_text, split_on, contains}
use hydralisk.Admission.Files.{accepted, unique, validate_requested_files}
use hydralisk.Admission.Files.Allowed.{Permitted, validate_requested_files_iff}
use hydralisk.Admission.Targets.{CompatibilityReport, build_report, adapter_targets, report_of}
use hydralisk.Admission.Retarget.{build_retarget_plan_report}
use hydralisk.Admission.Retarget.Ready.{is_ready, build_retarget_plan_report-build_report}
use hydralisk.Admission.Manifest.{
  Tensor, fable_lora_targets, safetensor_manifest_from_header, collect_lora_pairs, lora_key,
  target_from_module_path, lora_context, layer_in,
}
use hydralisk.Admission.Smoke.{
  SmokeReport, is_complete, modules_at, build_transform_smoke_report, all_blockers,
  lora_shapes_compatible, shape_manifest_ready_for_transform_writer, sort_modules, layers_of,
  smoke_status,
}
use hydralisk.Admission.Smoke.Usable.{IsUsable, build_transform_smoke_report-IsUsable}
use hydralisk.Admission.Manifest.{LoraModule}
use hydralisk.Admission.Context.{
  entries_of, sort_groups, group_from, context_family, dimensions, context_mapping_blockers,
  ContextReport, context_map_ready_for_transform_writer, default_surfaces, build_context_entries,
  build_context_map_report,
}
use hydralisk.Admission.Delta.{DeltaSpec}
use hydralisk.Admission.Written.{
  Delta, DeltaFile, header_from, data_of, write_packed_delta_safetensors,
}
use hydralisk.Admission.Written.Reads.{IsStored, write_packed_delta_safetensors-IsStored}
use hydralisk.Admission.Context.Writes.{is_placed, IsWritten, build_context_map_report-Writes}
use hydralisk.Admission.Delta.{
  packed_delta_specs, module_specs, packed_delta_output_for_module, insert_specs,
}

abbrev ascii_digit : ℕ → Bool
ascii_digit c = leb 48 c && leb c 57

abbrev requested : List String
requested = "config.json" ∷ "model-00001-of-00046.safetensors" ∷ "config.json" ∷ []

abbrev granted : List String
granted = "config.json" ∷ "model-00001-of-00046.safetensors" ∷ []

validate_requested_files_iff_example :
    (validate_requested_files ascii_digit true requested ≡ accepted granted)
    ↔ ((granted ≡ unique requested) × All (Permitted ascii_digit true) granted)
validate_requested_files_iff_example =
    validate_requested_files_iff ascii_digit true requested granted

abbrev no_print : Json → String
no_print v = "?"

abbrev adapter_config : Fields
adapter_config = field "target_modules" (arr (cons (str "q_proj") (cons (str "down_proj") nil))) end

abbrev runtime : List String
runtime = "layers.0.mlp.down_proj" ∷ "layers.0.attn.fused_wqa_wkv" ∷ []

abbrev report : CompatibilityReport
report = report_of ("q_proj" ∷ "down_proj" ∷ []) runtime

report_built : build_report no_print adapter_config runtime ≡ some report
unfolding build_report adapter_targets get
report_built = refl

build_retarget_plan_report-build_report_example :
    is_ready (build_retarget_plan_report report).status ≡ report.can_attempt_private_adapter_load
build_retarget_plan_report-build_report_example =
    build_retarget_plan_report-build_report no_print adapter_config runtime report report_built

abbrev shape_entry : ℕ → ℕ → Json
shape_entry rows columns = obj (
    field "dtype" (str "BF16") (
      field "shape" (arr (cons (int (pos rows)) (cons (int (pos columns)) nil)))
        (field "data_offsets" (arr (cons (int (pos 0)) (cons (int (pos 64)) nil))) end)))

abbrev add_pair : String → Fields → Fields
add_pair name rest =
    field (append_text name ".lora_A.weight") (shape_entry 8 64)
      (field (append_text name ".lora_B.weight") (shape_entry 64 8) rest)

abbrev header : Fields
header = add_pair "model.layers.0.self_attn.q_proj" (
    add_pair "model.layers.0.self_attn.k_proj" (
      add_pair "model.layers.0.self_attn.v_proj" (
        add_pair "model.layers.0.self_attn.o_proj" (
          add_pair "model.layers.0.mlp.gate_proj" (
            add_pair "model.layers.0.mlp.up_proj" (add_pair "model.layers.0.mlp.down_proj" end))))))

abbrev layer_zero : String → Option ℕ
layer_zero s = some 0

abbrev tensors : List Tensor
tensors = elim (safetensor_manifest_from_header no_print header) [ none ↦ [] | some ts ↦ ts ]

abbrev smoke : SmokeReport
smoke = record {
  tensor_count = 14;
  pairs = collect_lora_pairs layer_zero tensors;
  blockers = [];
  status = shape_manifest_ready_for_transform_writer;
}

smoke_built : build_transform_smoke_report no_print layer_zero header ≡ some smoke
unfolding build_transform_smoke_report safetensor_manifest_from_header collect_lora_pairs get
    less_text all_blockers smoke_status sort_modules lora_key split_on target_from_module_path
    lora_shapes_compatible lora_context contains layers_of layer_in
smoke_built = refl

build_transform_smoke_report-IsUsable_example :
    All (λ t. 0 < length (filter is_complete (modules_at t smoke.pairs))) fable_lora_targets
    × All IsUsable smoke.pairs
build_transform_smoke_report-IsUsable_example =
    build_transform_smoke_report-IsUsable layer_zero no_print header smoke smoke_built refl

abbrev shared_header : Fields
shared_header = add_pair "model.layers.2.mlp.shared_experts.gate_proj" (
    add_pair "model.layers.2.mlp.shared_experts.down_proj"
      (add_pair "model.layers.2.self_attn.compressor.gate_proj" end))

abbrev layer_two : String → Option ℕ
layer_two s = some 2

abbrev shared_tensors : List Tensor
shared_tensors = elim (safetensor_manifest_from_header no_print shared_header) [
  | none ↦ []
  | some ts ↦ ts
]

abbrev shared_pairs : List LoraModule
shared_pairs = collect_lora_pairs layer_two shared_tensors

abbrev context_report : ContextReport
context_report = record {
  tensor_count = 6;
  pairs = shared_pairs;
  context_map = elim (build_context_entries shared_pairs (some default_surfaces)) [
    | none ↦ []
    | some es ↦ es
  ];
  blockers = [];
  status = context_map_ready_for_transform_writer;
}

context_report_built :
    build_context_map_report no_print layer_two shared_header none ≡ some context_report
unfolding build_context_map_report safetensor_manifest_from_header get build_context_entries
    entries_of sort_groups group_from collect_lora_pairs less_text lora_key split_on
    target_from_module_path context_family lora_context contains dimensions context_mapping_blockers
    layers_of layer_in
context_report_built = refl

abbrev shared_specs : List DeltaSpec
shared_specs = elim (packed_delta_specs shared_pairs none) [ none ↦ [] | some made ↦ made ]

shared_specs_made : packed_delta_specs shared_pairs none ≡ some shared_specs
unfolding packed_delta_specs safetensor_manifest_from_header get collect_lora_pairs less_text
    lora_key split_on target_from_module_path context_family lora_context contains layer_in
    module_specs packed_delta_output_for_module insert_specs
shared_specs_made = refl

build_context_map_report-Writes_example :
    All (IsWritten shared_specs) (filter is_placed context_report.pairs)
    × (length shared_specs ≡ length (filter is_placed context_report.pairs))
build_context_map_report-Writes_example =
    build_context_map_report-Writes no_print layer_two shared_header context_report shared_specs
      context_report_built refl shared_specs_made

abbrev spec : String → DeltaSpec
spec key = record {
  adapter_module = key;
  family = "mlp_shared_experts_gate";
  target = "gate_proj";
  layer = 2;
  lora_a_key = "a";
  lora_b_key = key;
  output_key = key;
  runtime_family = "mlp.shared_experts.gate_up_proj";
  shard_id = some 0;
  shape = pos 1 ∷ pos 1 ∷ [];
  bytes = pos 4;
}

abbrev specs : List DeltaSpec
specs = spec "x" ∷ spec "y" ∷ []

abbrev product : Delta
product a b =
    if str_eq b "x"
    then some (pos 1 ∷ pos 1 ∷ [], 1 ∷ 2 ∷ 3 ∷ 4 ∷ [])
    else some (pos 1 ∷ pos 1 ∷ [], 5 ∷ 6 ∷ 7 ∷ 8 ∷ [])

abbrev delta_file : DeltaFile
delta_file = record {
  header = header_from (pos 0) specs [];
  payload = 1 ∷ 2 ∷ 3 ∷ 4 ∷ 5 ∷ 6 ∷ 7 ∷ 8 ∷ [];
}

delta_file_written : write_packed_delta_safetensors product specs ≡ some delta_file
unfolding write_packed_delta_safetensors data_of
delta_file_written = refl

write_packed_delta_safetensors-IsStored_example : All (IsStored product delta_file) specs
write_packed_delta_safetensors-IsStored_example =
    write_packed_delta_safetensors-IsStored product specs delta_file delta_file_written
      ((refl, tt), (tt, tt))
