-- ===== src/Admission/Written.antt =====
-- hydralisk/admission/deepseek_v4_fable.py: the file of the deltas of an adapter and its report. The
-- product of two tensors, `delta`, gives the shape and the bytes of its result; `nonzero` counts the
-- elements of a tensor that are not zero; each is `none` where it raises. The JSON text of the header
-- is left out, and so are the metadata in it, and the scale, hashes and sums of a summary.
pub mod Reads
use hydralisk.Prelude.{
  ℕ, suc, ◌+◌, ◌-◌, String, Bool, true, false, ◌&&◌, Option, none, some, List, [], ◌∷◌, ◌++◌, map,
  length, str_eq, ◌==◌, if◌then◌else◌, ◌>>=◌, take, drop, filter, ltb,
}
use hydralisk.Prelude.Int.{ℤ, pos, ◌+ℤ◌, same_int}
use hydralisk.Json.{Json, Fields}
use hydralisk.Text.{split_on, strip, is_blank}
use hydralisk.Admission.Manifest.{
  Tensor, LoraModule, safetensor_manifest_from_header, collect_lora_pairs,
}
use hydralisk.Admission.Delta.{DeltaSpec, packed_delta_specs}

pub record HeaderEntry : Type 0 where
  pub key : String
  pub shape : List ℤ
  pub first : ℤ
  pub last : ℤ

-- `header[key] = …`: a key that is there keeps its place.
unfoldable pub put_entry : HeaderEntry → List HeaderEntry → List HeaderEntry
put_entry e [] = e ∷ []
put_entry e (f ∷ header) = if str_eq f.key e.key then e ∷ header else f ∷ put_entry e header

abbrev pub entry_at : ℤ → DeltaSpec → HeaderEntry
entry_at offset s = record {
  key = s.output_key;
  shape = s.shape;
  first = offset;
  last = offset +ℤ s.bytes;
}

-- The header of the file, from an offset on.
unfoldable pub header_from : ℤ → List DeltaSpec → List HeaderEntry → List HeaderEntry
unfolding put_entry
header_from offset [] header = header
header_from offset (s ∷ specs) header =
    header_from (offset +ℤ s.bytes) specs (put_entry (entry_at offset s) header)

abbrev pub same_ints : List ℤ → List ℤ → Bool
same_ints [] [] = true
same_ints (a ∷ xs) (b ∷ ys) = same_int a b && same_ints xs ys
same_ints _ _ = false

abbrev pub Delta : Type 0
Delta = String → String → Option (List ℤ × List ℕ)

-- Whether a delta has the shape and the size that its spec says.
abbrev pub is_expected : DeltaSpec → List ℤ → List ℕ → Bool
is_expected s shape bytes = same_ints shape s.shape && same_int (pos (length bytes)) s.bytes

-- The data behind the header.
unfoldable pub data_of : Delta → List DeltaSpec → Option (List ℕ)
data_of delta [] = some []
data_of delta (s ∷ specs) = do
  (shape, result) ← delta s.lora_a_key s.lora_b_key
  content ← (if is_expected s shape result then some result else none)
  rest ← data_of delta specs
  some (content ++ rest)

pub record DeltaFile : Type 0 where
  pub header : List HeaderEntry
  pub payload : List ℕ

unfoldable pub write_packed_delta_safetensors : Delta → List DeltaSpec → Option DeltaFile
write_packed_delta_safetensors delta specs = do
  content ← data_of delta specs
  some (record { header = header_from (pos 0) specs []; payload = content })

pub record ValueStats : Type 0 where
  pub lora_b_tensor_count : ℕ
  pub lora_b_nonzero_tensor_count : ℕ

abbrev count_tensor : ℕ → ValueStats → ValueStats
count_tensor n v = record {
  lora_b_tensor_count = v.lora_b_tensor_count + 1;
  lora_b_nonzero_tensor_count = v.lora_b_nonzero_tensor_count + (if n == 0 then 0 else 1);
}

unfoldable pub adapter_lora_value_stats : (String → Option ℕ) → List LoraModule → Option ValueStats
adapter_lora_value_stats nonzero [] =
    some (record { lora_b_tensor_count = 0; lora_b_nonzero_tensor_count = 0 })
adapter_lora_value_stats nonzero (m ∷ pairs) = elim m.lora_b [
  | none ↦ adapter_lora_value_stats nonzero pairs
  | some b ↦ do
    n ← nonzero b.key
    stats ← adapter_lora_value_stats nonzero pairs
    some (count_tensor n stats)
]

pub data DeltaStatus : Type 0 where
  packed_delta_artifact_written_zero_delta_payload : DeltaStatus
  packed_delta_artifact_written : DeltaStatus

abbrev delta_status : ValueStats → DeltaStatus
delta_status v =
    if v.lora_b_nonzero_tensor_count == 0
    then packed_delta_artifact_written_zero_delta_payload
    else packed_delta_artifact_written

abbrev total_bytes : List DeltaSpec → ℤ
total_bytes [] = pos 0
total_bytes (s ∷ specs) = s.bytes +ℤ total_bytes specs

-- `family_counts[family] = family_counts.get(family, 0) + 1`
abbrev count_family : String → List (String × ℕ) → List (String × ℕ)
count_family family [] = (family, 1) ∷ []
count_family family ((f, n) ∷ counts) =
    let rest = count_family family counts in
    if str_eq f family then (f, n + 1) ∷ counts else (f, n) ∷ rest

abbrev family_counts_from : List DeltaSpec → List (String × ℕ) → List (String × ℕ)
family_counts_from [] counts = counts
family_counts_from (s ∷ specs) counts = family_counts_from specs (count_family s.family counts)

pub record DeltaReport : Type 0 where
  pub status : DeltaStatus
  pub value_stats : ValueStats
  pub specs : List DeltaSpec
  pub family_counts : List (String × ℕ)
  pub total_tensor_bytes : ℤ
  pub file : DeltaFile

-- A report is made of at least one spec.
abbrev some_specs : List DeltaSpec → Option (List DeltaSpec)
some_specs [] = none
some_specs (s ∷ specs) = some (s ∷ specs)

module _ (print : Json → String) (read_layer : String → Option ℕ) (delta : Delta)
    (nonzero : String → Option ℕ) where
  unfoldable pub build_packed_delta_report : Fields → Option (List ℤ) → Option DeltaReport
  build_packed_delta_report header layers = do
    manifest ← safetensor_manifest_from_header print header
    specs ← packed_delta_specs (collect_lora_pairs read_layer manifest) layers
    checked ← some_specs specs
    stats ← adapter_lora_value_stats nonzero (collect_lora_pairs read_layer manifest)
    file ← write_packed_delta_safetensors delta checked
    some (record {
      status = delta_status stats;
      value_stats = stats;
      specs = checked;
      family_counts = family_counts_from checked [];
      total_tensor_bytes = total_bytes checked;
      file = file;
    })

-- The layers of a filter, each text with blanks around it taken off; `read_int` is `int` of a text.
layer_items : (String → Option ℤ) → List String → Option (List ℤ)
layer_items read_int [] = some []
layer_items read_int (raw ∷ parts) = do
  layers ← layer_items read_int parts
  (if is_blank (strip raw) then some layers else do n ← read_int (strip raw); some (n ∷ layers))

abbrev some_layers : List ℤ → Option (Option (List ℤ))
some_layers [] = none
some_layers (n ∷ layers) = some (some (n ∷ layers))

unfoldable pub parse_layer_filter : (String → Option ℤ) → String → Option (Option (List ℤ))
unfolding layer_items
parse_layer_filter read_int value =
    if str_eq value "all"
    then some none
    else do layers ← layer_items read_int (split_on 44 value); some_layers layers
