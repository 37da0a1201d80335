-- ===== src/Admission/Delta.antt =====
-- hydralisk/admission/deepseek_v4_fable.py: the tensors that the deltas of an adapter make. `none` is an
-- exception. The scale, which a spec only carries along, is left out.
pub mod Digits
use Prim.Native.String.{◌++◌ as append_text}
use hydralisk.Prelude.{
  ℕ, zero, suc, ◌+◌, ◌/◌, ◌%◌, String, Bool, true, false, ◌&&◌, ◌||◌, Option, none, some, List, [],
  ◌∷◌, ◌==◌, ltb, str_eq, if◌then◌else◌, ◌>>=◌,
}
use hydralisk.Prelude.Int.{ℤ, pos, negsuc, ◌*ℤ◌}
use hydralisk.Text.{less_text}
use hydralisk.Admission.Manifest.{Tensor, LoraModule}
use hydralisk.Admission.Context.{family_of}

abbrev digit_text : ℕ → String
digit_text n =
    if n == 0
    then "0"
    else if n == 1
    then "1"
    else if n == 2
    then "2"
    else if n == 3
    then "3"
    else if n == 4
    then "4"
    else if n == 5
    then "5"
    else if n == 6
    then "6"
    else if n == 7
    then "7"
    else if n == 8
    then "8"
    else "9"

-- The decimal digits of a number below 10 ^ fuel.
unfoldable pub decimal : ℕ → ℕ → String
decimal zero n = ""
decimal (suc fuel) n =
    let front = decimal fuel (n / 10) in
    if ltb n 10 then digit_text n else append_text front (digit_text (n % 10))

-- `f"model.layers.{layer}"`: a number has fewer digits than itself and one more.
unfoldable pub layer_prefix : ℕ → String
unfolding decimal
layer_prefix layer = append_text "model.layers." (decimal (layer + 1) layer)

pub record DeltaOutput : Type 0 where
  pub family : String
  pub key : String
  pub runtime_family : String
  pub shard_id : Option ℕ

abbrev output_at : ℕ → String → String → String → Option ℕ → Option DeltaOutput
output_at layer family suffix runtime_family shard_id = some (record {
  family = family;
  key = append_text (layer_prefix layer) suffix;
  runtime_family = runtime_family;
  shard_id = shard_id;
})

unfoldable pub packed_delta_output_for_module : ℕ → String → String → Option DeltaOutput
packed_delta_output_for_module layer family target =
    let compressor =
      if str_eq family "attention_compressor" && str_eq target "gate_proj"
      then output_at layer "attention_compressor_gate" ".self_attn.compressor.wgate.weight"
          "self_attn.compressor.fused_wkv_wgate" (some 1)
      else if str_eq family "attention_compressor_indexer" && str_eq target "gate_proj"
      then output_at layer "attention_compressor_indexer_gate"
          ".self_attn.compressor.indexer.compressor.wgate.weight"
          "self_attn.compressor.indexer.compressor.fused_wkv_wgate" (some 1)
      else none in
    if str_eq family "mlp_shared_experts"
    then if str_eq target "gate_proj"
      then output_at layer "mlp_shared_experts_gate" ".mlp.shared_experts.w1.weight"
          "mlp.shared_experts.gate_up_proj" (some 0)
      else if str_eq target "up_proj"
      then output_at layer "mlp_shared_experts_up" ".mlp.shared_experts.w3.weight"
          "mlp.shared_experts.gate_up_proj" (some 1)
      else if str_eq target "down_proj"
      then output_at layer "mlp_shared_experts_down" ".mlp.shared_experts.w2.weight"
          "mlp.shared_experts.down_proj" none
      else compressor
    else compressor

pub record DeltaSpec : Type 0 where
  pub adapter_module : String
  pub family : String
  pub target : String
  pub layer : ℕ
  pub lora_a_key : String
  pub lora_b_key : String
  pub output_key : String
  pub runtime_family : String
  pub shard_id : Option ℕ
  pub shape : List ℤ
  pub bytes : ℤ

abbrev pub at_first : List ℤ → Option ℤ
at_first [] = none
at_first (z ∷ zs) = some z

abbrev pub at_second : List ℤ → Option ℤ
at_second (y ∷ z ∷ zs) = some z
at_second _ = none

abbrev pub spec_of : LoraModule → ℕ → Tensor → Tensor → DeltaOutput → ℤ → ℤ → DeltaSpec
spec_of m layer a b output rows columns = record {
  adapter_module = m.name;
  family = output.family;
  target = m.target;
  layer = layer;
  lora_a_key = a.key;
  lora_b_key = b.key;
  output_key = output.key;
  runtime_family = output.runtime_family;
  shard_id = output.shard_id;
  shape = rows ∷ columns ∷ [];
  bytes = rows *ℤ columns *ℤ pos 4;
}

-- `sorted(specs, key=lambda item: item["outputKey"])`, one spec after another.
unfoldable pub insert_spec : DeltaSpec → List DeltaSpec → List DeltaSpec
insert_spec s [] = s ∷ []
insert_spec s (t ∷ specs) =
    if less_text t.output_key s.output_key then t ∷ insert_spec s specs else s ∷ t ∷ specs

abbrev has_layer : ℕ → List ℤ → Bool
has_layer n [] = false
has_layer n (pos m ∷ layers) = n == m || has_layer n layers
has_layer n (negsuc m ∷ layers) = has_layer n layers

-- The layers of the filter; `none` is all of them.
abbrev is_selected : Option (List ℤ) → ℕ → Bool
is_selected none n = true
is_selected (some layers) n = has_layer n layers

-- What one module adds; `none` is an exception.
abbrev pub spec_for :
    LoraModule → ℕ → Tensor → Tensor → Option DeltaOutput → Option (List DeltaSpec)
spec_for m layer a b none = some []
spec_for m layer a b (some output) = do
  rows ← at_first b.shape
  columns ← at_second a.shape
  some (spec_of m layer a b output rows columns ∷ [])

abbrev pub specs_at :
    Option (List ℤ)
    → LoraModule
    → Option Tensor
    → Option Tensor
    → Option ℕ
    → Option (List DeltaSpec)
specs_at layers m none b layer = some []
specs_at layers m (some a) none layer = some []
specs_at layers m (some a) (some b) none = some []
specs_at layers m (some a) (some b) (some layer) =
    if is_selected layers layer
    then spec_for m layer a b (packed_delta_output_for_module layer (family_of m) m.target)
    else some []

unfoldable pub module_specs : Option (List ℤ) → LoraModule → Option (List DeltaSpec)
module_specs layers m = specs_at layers m m.lora_a m.lora_b m.layer

unfoldable pub insert_specs : List DeltaSpec → List DeltaSpec → List DeltaSpec
unfolding insert_spec
insert_specs [] specs = specs
insert_specs (s ∷ new) specs = insert_spec s (insert_specs new specs)

unfoldable pub packed_delta_specs : List LoraModule → Option (List ℤ) → Option (List DeltaSpec)
unfolding module_specs insert_specs
packed_delta_specs [] layers = some []
packed_delta_specs (m ∷ pairs) layers = do
  new ← module_specs layers m
  specs ← packed_delta_specs pairs layers
  some (insert_specs new specs)
