-- ===== src/Admission/Smoke.antt =====
-- hydralisk/admission/deepseek_v4_fable.py: the smoke test of an adapter's tensors. The ranks, the
-- counts by context and the samples of a summary are left out, and so are the blockers' messages.
pub mod Usable
use Prim.Native.String.{◌++◌ as append_text}
use hydralisk.Prelude.{
  ℕ, suc, ◌-◌, String, Bool, true, false, not, ◌&&◌, ◌||◌, Option, none, some, List, [], ◌∷◌, ◌++◌,
  map, ltb, ◌==◌, str_eq, if◌then◌else◌, filter, length, ◌>>=◌,
}
use hydralisk.Prelude.Int.{ℤ, pos, negsuc, same_int}
use hydralisk.Text.{is_in, less_text}
use hydralisk.Json.{Json, Fields}
use hydralisk.Admission.Manifest.{
  Tensor, LoraModule, fable_lora_targets, safetensor_manifest_from_header, collect_lora_pairs,
}

abbrev is_positive_int : ℤ → Bool
is_positive_int (pos n) = ltb 0 n
is_positive_int (negsuc n) = false

unfoldable pub lora_shapes_compatible : List ℤ → List ℤ → Bool
lora_shapes_compatible (a ∷ a' ∷ []) (b ∷ b' ∷ []) =
    is_positive_int a && is_positive_int b' && same_int a b'
lora_shapes_compatible _ _ = false

-- `EXPECTED_LORA_CONTEXTS`
abbrev pub expected_context : String → String
expected_context target =
    if is_in target ("gate_proj" ∷ "up_proj" ∷ "down_proj" ∷ []) then "mlp" else "attention"

abbrev pub is_complete : LoraModule → Bool
is_complete m = elim m.lora_a [
  | none ↦ false
  | some a ↦ elim m.lora_b [ none ↦ false | some b ↦ true ]
]

abbrev pub shape_of : Option Tensor → List ℤ
shape_of none = []
shape_of (some t) = t.shape

abbrev pub is_bad_shape : LoraModule → Bool
is_bad_shape m = not (lora_shapes_compatible (shape_of m.lora_a) (shape_of m.lora_b))

abbrev pub is_unsupported : String → LoraModule → Bool
is_unsupported target m = not (str_eq m.context (expected_context target))

unfoldable pub insert_module : LoraModule → List LoraModule → List LoraModule
insert_module m [] = m ∷ []
insert_module m (n ∷ rest) =
    if less_text n.name m.name then n ∷ insert_module m rest else m ∷ n ∷ rest

-- `sorted(pairs.values(), key=…)`
unfoldable pub sort_modules : List LoraModule → List LoraModule
unfolding insert_module
sort_modules [] = []
sort_modules (m ∷ pairs) = insert_module m (sort_modules pairs)

insert_layer : ℕ → List ℕ → List ℕ
insert_layer n [] = n ∷ []
insert_layer n (k ∷ rest) =
    let inserted = insert_layer n rest in
    if n == k then k ∷ rest else if ltb n k then n ∷ k ∷ rest else k ∷ inserted

unfoldable pub layers_of : List LoraModule → List ℕ
unfolding insert_layer
layers_of [] = []
layers_of (m ∷ modules) = elim m.layer [
  | none ↦ layers_of modules
  | some n ↦ insert_layer n (layers_of modules)
]

pub record TargetSummary : Type 0 where
  pub target : String
  pub module_count : ℕ
  pub complete_pair_count : ℕ
  pub missing_pair_count : ℕ
  pub layers : List ℕ
  pub bad_shape_modules : List String
  pub unsupported_context_modules : List String

abbrev pub names_of : List LoraModule → List String
names_of = map (λ m. m.name)

abbrev pub modules_at : String → List LoraModule → List LoraModule
modules_at target pairs = filter (λ m. str_eq m.target target) (sort_modules pairs)

-- The summary of one target.
unfoldable pub summarize_target : List LoraModule → String → TargetSummary
summarize_target pairs target =
    let modules = modules_at target pairs in
    let complete = filter is_complete modules in
    record {
      target = target;
      module_count = length modules;
      complete_pair_count = length complete;
      missing_pair_count = length modules - length complete;
      layers = layers_of modules;
      bad_shape_modules = names_of (filter is_bad_shape complete);
      unsupported_context_modules = names_of (filter (is_unsupported target) modules);
    }

pub record Blocker : Type 0 where
  pub code : String
  pub target : String

abbrev pub block_if : Bool → String → String → List Blocker → List Blocker
block_if true code target rest = record { code = code; target = target } ∷ rest
block_if false code target rest = rest

abbrev pub is_some_name : List String → Bool
is_some_name [] = false
is_some_name (x ∷ xs) = true

-- The blockers of a family's targets, in front of others.
unfoldable pub target_blockers : TargetSummary → List Blocker → List Blocker
target_blockers s rest = block_if (s.complete_pair_count == 0) "missing_lora_pairs" s.target (
    block_if (ltb 0 s.missing_pair_count) "incomplete_lora_pairs" s.target (
      block_if (is_some_name s.bad_shape_modules) "incompatible_lora_shapes" s.target (
        block_if (is_some_name s.unsupported_context_modules) "unsupported_lora_context" s.target
          rest)))

abbrev same_layers : List ℕ → List ℕ → Bool
same_layers [] [] = true
same_layers (m ∷ ms) (n ∷ ns) = m == n && same_layers ms ns
same_layers _ _ = false

abbrev any_differs : List ℕ → List TargetSummary → Bool
any_differs first [] = false
any_differs first (s ∷ summaries) = not (same_layers s.layers first) || any_differs first summaries

abbrev has_layers : TargetSummary → Bool
has_layers s = not (same_layers s.layers [])

-- Whether the sets of layers that are not empty differ.
abbrev layers_differ : List TargetSummary → Bool
layers_differ [] = false
layers_differ (s ∷ summaries) = any_differs s.layers summaries

abbrev join_commas : List String → String
join_commas [] = ""
join_commas (x ∷ []) = x
join_commas (x ∷ y ∷ rest) = append_text x (append_text "," (join_commas (y ∷ rest)))

unfoldable pub family_blockers : List LoraModule → List String → List String → List Blocker
unfolding summarize_target target_blockers
family_blockers pairs family [] =
    block_if
      (ltb 1 (length family)
        && layers_differ (filter has_layers (map (summarize_target pairs) family)))
      "target_layer_sets_differ" (join_commas family) []
family_blockers pairs family (target ∷ targets) =
    target_blockers (summarize_target pairs target) (family_blockers pairs family targets)

-- `FABLE_PACKED_FAMILIES`
abbrev pub fable_packed_families : List (List String)
fable_packed_families =
    ("q_proj" ∷ "k_proj" ∷ "v_proj" ∷ [])
    ∷ ("gate_proj" ∷ "up_proj" ∷ [])
    ∷ ("o_proj" ∷ [])
    ∷ ("down_proj" ∷ [])
    ∷ []

unfoldable pub all_blockers : List LoraModule → List (List String) → List Blocker
unfolding family_blockers
all_blockers pairs [] = []
all_blockers pairs (family ∷ families) =
    family_blockers pairs family family ++ all_blockers pairs families

abbrev is_mismatch : Blocker → Bool
is_mismatch b =
    str_eq b.code "missing_lora_pairs"
      && is_in b.target ("q_proj" ∷ "k_proj" ∷ "v_proj" ∷ "o_proj" ∷ [])
    || str_eq b.code "unsupported_lora_context"

unfoldable pub has_config_payload_mismatch : List Blocker → Bool
has_config_payload_mismatch [] = false
has_config_payload_mismatch (b ∷ blockers) = is_mismatch b || has_config_payload_mismatch blockers

pub data SmokeStatus : Type 0 where
  blocked_adapter_config_payload_mismatch : SmokeStatus
  blocked_adapter_shape_manifest_incomplete : SmokeStatus
  shape_manifest_ready_for_transform_writer : SmokeStatus

unfoldable pub smoke_status : List Blocker → SmokeStatus
unfolding has_config_payload_mismatch
smoke_status [] = shape_manifest_ready_for_transform_writer
smoke_status (b ∷ blockers) =
    if has_config_payload_mismatch (b ∷ blockers)
    then blocked_adapter_config_payload_mismatch
    else blocked_adapter_shape_manifest_incomplete

pub record SmokeReport : Type 0 where
  pub tensor_count : ℕ
  pub pairs : List LoraModule
  pub blockers : List Blocker
  pub status : SmokeStatus

unfoldable pub build_transform_smoke_report :
    (Json → String) → (String → Option ℕ) → Fields → Option SmokeReport
build_transform_smoke_report print read_layer header = do
  manifest ← safetensor_manifest_from_header print header
  some (record {
    tensor_count = length manifest;
    pairs = collect_lora_pairs read_layer manifest;
    blockers = all_blockers (collect_lora_pairs read_layer manifest) fable_packed_families;
    status =
        smoke_status (all_blockers (collect_lora_pairs read_layer manifest) fable_packed_families);
  })
