-- ===== src/Admission/Context.antt =====
-- hydralisk/admission/deepseek_v4_fable.py: where the runtime holds the modules of an adapter, by the
-- contexts that they stand in. Messages and samples are left out; `none` is an exception.

pub mod Reached
pub mod Covers
pub mod Writes
use Prim.Native.String.{◌++◌ as append_text}
use hydralisk.Prelude.{
  ℕ, zero, suc, String, Bool, true, false, not, ◌&&◌, ◌||◌, Option, none, some, List, [], ◌∷◌, ◌++◌,
  map, length, ◌==◌, ltb, str_eq, if◌then◌else◌, ◌>>=◌,
}
use hydralisk.Prelude.Int.{ℤ, pos, negsuc, leb_ℤ}
use hydralisk.Json.{Json, Fields, null, int, str, obj, end, field, get}
use hydralisk.Text.{is_in, contains, less_text}
use hydralisk.Admission.Manifest.{
  Tensor, LoraModule, safetensor_manifest_from_header, collect_lora_pairs,
}
use hydralisk.Admission.Smoke.{is_complete, shape_of, layers_of}

abbrev surface : String → String → Json → String → Json
surface candidate checkpoint shard confidence = obj (
    field "candidate" (str candidate) (
      field "checkpoint" (str checkpoint)
        (field "shard" shard (field "confidence" (str confidence) end))))

-- The surfaces of `DEFAULT_FABLE_RUNTIME_CONTEXT_INVENTORY`.
abbrev pub default_surfaces : Fields
default_surfaces =
    field "mlp_shared_experts.gate_proj"
      (surface "layers.*.mlp.shared_experts.gate_up_proj" "shared_experts.w1" (int (pos 0)) "high")
      (field "mlp_shared_experts.up_proj"
        (surface "layers.*.mlp.shared_experts.gate_up_proj" "shared_experts.w3" (int (pos 1))
          "high")
        (field "mlp_shared_experts.down_proj"
          (surface "layers.*.mlp.shared_experts.down_proj" "shared_experts.w2" null "high")
          (field "attention_compressor.gate_proj"
            (surface "layers.*.self_attn.compressor.fused_wkv_wgate" "compressor.wgate"
              (int (pos 1)) "probable")
            (field "attention_compressor_indexer.gate_proj"
              (surface "layers.*.self_attn.compressor.indexer.compressor.fused_wkv_wgate"
                "compressor.indexer.compressor.wgate" (int (pos 1)) "medium")
              end))))

unfoldable pub context_family : String → String → String
context_family module_path context =
    if str_eq context "mlp" && contains ".shared_experts." module_path
    then "mlp_shared_experts"
    else context

abbrev pub family_of : LoraModule → String
family_of m = context_family m.name m.context

pub data ContextCode : Type 0 where
  missing_runtime_surface : ContextCode
  loader_path_proof_required : ContextCode
  missing_layer_coverage : ContextCode

pub record ContextBlocker : Type 0 where
  pub reason : ContextCode
  pub context : String
  pub target : String

abbrev block_context : ContextCode → String → String → ContextBlocker
block_context reason context target = record { reason = reason; context = context; target = target }

abbrev blocked_when : Bool → ContextBlocker → List ContextBlocker → List ContextBlocker
blocked_when true b rest = b ∷ rest
blocked_when false b rest = rest

abbrev lacks_layers : List ℕ → Bool
lacks_layers [] = true
lacks_layers (n ∷ layers) = false

-- A surface that is `None` counts as missing.
unfoldable pub context_mapping_blockers :
    String → String → Option Json → List ℕ → List ContextBlocker
context_mapping_blockers family target none layers =
    block_context missing_runtime_surface family target ∷ []
context_mapping_blockers family target (some null) layers =
    block_context missing_runtime_surface family target ∷ []
context_mapping_blockers family target (some runtime_surface) layers =
    blocked_when (str_eq family "attention_compressor_indexer")
      (block_context loader_path_proof_required family target)
      (blocked_when
        (is_in target ("gate_proj" ∷ "up_proj" ∷ "down_proj" ∷ []) && lacks_layers layers)
        (block_context missing_layer_coverage family target) [])

pub record Group : Type 0 where
  pub family : String
  pub target : String
  pub modules : List LoraModule

-- `groups.setdefault((context_family, target), []).append(module)`
unfoldable pub add_to_group : LoraModule → List Group → List Group
add_to_group m [] = record { family = family_of m; target = m.target; modules = m ∷ [] } ∷ []
add_to_group m (g ∷ groups) =
    if str_eq g.family (family_of m) && str_eq g.target m.target
    then record g { modules = g.modules ++ m ∷ [] } ∷ groups
    else g ∷ add_to_group m groups

unfoldable pub group_from : List LoraModule → List Group → List Group
unfolding add_to_group
group_from [] groups = groups
group_from (m ∷ pairs) groups =
    group_from pairs (if is_complete m then add_to_group m groups else groups)

abbrev pub less_group : Group → Group → Bool
less_group g h =
    less_text g.family h.family || str_eq g.family h.family && less_text g.target h.target

unfoldable pub insert_group : Group → List Group → List Group
insert_group g [] = g ∷ []
insert_group g (h ∷ groups) = if less_group h g then h ∷ insert_group g groups else g ∷ h ∷ groups

-- `sorted(groups.items())`
unfoldable pub sort_groups : List Group → List Group
unfolding insert_group
sort_groups [] = []
sort_groups (g ∷ groups) = insert_group g (sort_groups groups)

-- A number put into a sorted set.
insert_int : ℤ → List ℤ → List ℤ
insert_int z [] = z ∷ []
insert_int z (y ∷ rest) =
    let inserted = insert_int z rest in
    if leb_ℤ y z then (if leb_ℤ z y then y ∷ rest else y ∷ inserted) else z ∷ y ∷ rest

abbrev at_index : ℕ → List ℤ → Option ℤ
at_index i [] = none
at_index zero (z ∷ zs) = some z
at_index (suc i) (z ∷ zs) = at_index i zs

-- The sorted set of one dimension of the shapes.
unfoldable pub dimensions : ℕ → List (List ℤ) → Option (List ℤ)
unfolding insert_int
dimensions i [] = some []
dimensions i (shape ∷ shapes) = do
  z ← at_index i shape
  rest ← dimensions i shapes
  some (insert_int z rest)

pub record ContextEntry : Type 0 where
  pub adapter_context : String
  pub target : String
  pub modules : List LoraModule
  pub layers : List ℕ
  pub ranks : List ℤ
  pub input_columns : List ℤ
  pub output_rows : List ℤ
  pub runtime_candidate : Option Json
  pub blockers : List ContextBlocker

abbrev pub shapes_a : List LoraModule → List (List ℤ)
shapes_a = map (λ m. shape_of m.lora_a)

abbrev pub shapes_b : List LoraModule → List (List ℤ)
shapes_b = map (λ m. shape_of m.lora_b)

abbrev pub key_of : String → String → String
key_of family target = append_text family (append_text "." target)

unfoldable pub entry_of : Option Fields → Group → Option ContextEntry
entry_of inventory g = do
  surfaces ← inventory
  ranks ← dimensions 0 (shapes_a g.modules)
  input_columns ← dimensions 1 (shapes_a g.modules)
  output_rows ← dimensions 0 (shapes_b g.modules)
  some (record {
    adapter_context = g.family;
    target = g.target;
    modules = g.modules;
    layers = layers_of g.modules;
    ranks = ranks;
    input_columns = input_columns;
    output_rows = output_rows;
    runtime_candidate = get (key_of g.family g.target) surfaces;
    blockers =
        context_mapping_blockers g.family g.target (get (key_of g.family g.target) surfaces)
          (layers_of g.modules);
  })

unfoldable pub entries_of : Option Fields → List Group → Option (List ContextEntry)
unfolding entry_of
entries_of surfaces [] = some []
entries_of surfaces (g ∷ groups) = do
  entry ← entry_of surfaces g
  entries ← entries_of surfaces groups
  some (entry ∷ entries)

unfoldable pub build_context_entries : List LoraModule → Option Fields → Option (List ContextEntry)
build_context_entries pairs surfaces = entries_of surfaces (sort_groups (group_from pairs []))

abbrev pub blockers_of_entries : List ContextEntry → List ContextBlocker
blockers_of_entries [] = []
blockers_of_entries (e ∷ entries) = e.blockers ++ blockers_of_entries entries

abbrev pub is_blocked : List ContextBlocker → Bool
is_blocked [] = false
is_blocked (b ∷ blockers) = true

abbrev unresolved_indexer : List ContextEntry → Bool
unresolved_indexer [] = false
unresolved_indexer (e ∷ entries) =
    str_eq e.adapter_context "attention_compressor_indexer" && is_blocked e.blockers
    || unresolved_indexer entries

pub data ContextStatus : Type 0 where
  blocked_indexer_loader_mapping_required : ContextStatus
  blocked_context_mapping_incomplete : ContextStatus
  context_map_ready_for_transform_writer : ContextStatus

abbrev pub context_status : (unresolved blocked : Bool) → ContextStatus
context_status true blocked = blocked_indexer_loader_mapping_required
context_status false true = blocked_context_mapping_incomplete
context_status false false = context_map_ready_for_transform_writer

-- `runtime_inventory.get("runtimeSurfaces", {})` of the inventory, or of the default one.
abbrev pub surfaces_in : Option Fields → Option Fields
surfaces_in none = some default_surfaces
surfaces_in (some end) = some default_surfaces
surfaces_in (some (field k v rest)) = elim (get "runtimeSurfaces" (field k v rest)) [
  | none ↦ some end
  | some (obj surfaces) ↦ some surfaces
  | some _ ↦ none
]

pub record ContextReport : Type 0 where
  pub tensor_count : ℕ
  pub pairs : List LoraModule
  pub context_map : List ContextEntry
  pub blockers : List ContextBlocker
  pub status : ContextStatus

unfoldable pub build_context_map_report :
    (Json → String) → (String → Option ℕ) → Fields → Option Fields → Option ContextReport
build_context_map_report print read_layer header inventory = do
  manifest ← safetensor_manifest_from_header print header
  entries ← build_context_entries (collect_lora_pairs read_layer manifest) (surfaces_in inventory)
  some (record {
    tensor_count = length manifest;
    pairs = collect_lora_pairs read_layer manifest;
    context_map = entries;
    blockers = blockers_of_entries entries;
    status = context_status (unresolved_indexer entries) (is_blocked (blockers_of_entries entries));
  })
