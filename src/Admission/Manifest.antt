-- ===== src/Admission/Manifest.antt =====
-- hydralisk/admission/deepseek_v4_fable.py: the tensors of an adapter, from the header of its file, and
-- the pairs that they make. `print` is `str` of a value that is no text, `read_layer` is `int` of a
-- text of decimal digits and `none` of another; `none` is `FableProbeError`.
pub mod Kept
use Prim.Native.Char.{code}
use Prim.Native.String.{◌++◌ as append_text}
use hydralisk.Prelude.{
  ℕ, zero, suc, ◌+◌, String, Bool, true, false, ◌||◌, Option, none, some, List, [], ◌∷◌, str_eq,
  ◌==◌, if◌then◌else◌, ◌>>=◌,
}
use hydralisk.Prelude.Int.{ℤ, pos, negsuc, ◌+ℤ◌}
use hydralisk.Text.{is_blank, is_in, split_on, contains, less_text}
use hydralisk.Json.{Json, Items, Fields, bool, int, str, arr, obj, nil, cons, end, field, get}

pub record Tensor : Type 0 where
  pub key : String
  pub dtype : String
  pub shape : List ℤ
  pub bytes : ℤ

-- `isinstance(item, int)`: a bool is one.
abbrev pub int_item : Json → Option ℤ
int_item (int z) = some z
int_item (bool true) = some (pos 1)
int_item (bool false) = some (pos 0)
int_item _ = none

unfoldable pub int_items : Items → Option (List ℤ)
int_items nil = some []
int_items (cons v vs) = do z ← int_item v; zs ← int_items vs; some (z ∷ zs)

abbrev int_list : Option Json → Option (List ℤ)
int_list (some (arr vs)) = int_items vs
int_list _ = none

abbrev negated : ℤ → ℤ
negated (pos zero) = pos 0
negated (pos (suc n)) = negsuc n
negated (negsuc n) = pos (n + 1)

-- `offsets[1] - offsets[0]` of a pair.
abbrev size_of : List ℤ → Option ℤ
size_of (a ∷ b ∷ []) = some (b +ℤ negated a)
size_of _ = none

abbrev dtype_of : (Json → String) → Option Json → String
dtype_of print none = "None"
dtype_of print (some (str s)) = s
dtype_of print (some v) = print v

unfoldable pub tensor_of : (Json → String) → String → Json → Option Tensor
unfolding int_items
tensor_of print key (obj value) = do
  shape ← int_list (get "shape" value)
  offsets ← int_list (get "data_offsets" value)
  bytes ← size_of offsets
  some (record {
    key = key;
    dtype = dtype_of print (get "dtype" value);
    shape = shape;
    bytes = bytes;
  })
tensor_of print key _ = none

-- One key's tensor, put in at its place in the order of the keys.
insert_tensor : Tensor → List Tensor → List Tensor
insert_tensor t [] = t ∷ []
insert_tensor t (u ∷ rest) =
    if less_text u.key t.key then u ∷ insert_tensor t rest else t ∷ u ∷ rest

unfoldable pub safetensor_manifest_from_header : (Json → String) → Fields → Option (List Tensor)
unfolding tensor_of insert_tensor
safetensor_manifest_from_header print end = some []
safetensor_manifest_from_header print (field key value rest) = do
  tensors ← safetensor_manifest_from_header print rest
  (if str_eq key "__metadata__"
      then some tensors
      else do t ← tensor_of print key value; some (insert_tensor t tensors))

pub data Side : Type 0 where
  side_a : Side
  side_b : Side

abbrev side_of : String → Option Side
side_of s =
    if str_eq s "lora_A" then some side_a else if str_eq s "lora_B" then some side_b else none

abbrev reversed : List String → List String → List String
reversed [] acc = acc
reversed (x ∷ xs) acc = reversed xs (x ∷ acc)

-- Parts joined with dots.
abbrev join_dots : List String → String
join_dots [] = ""
join_dots (x ∷ []) = x
join_dots (x ∷ y ∷ rest) = append_text x (append_text "." (join_dots (y ∷ rest)))

abbrev has_line_feed : String → Bool
has_line_feed String.[] = false
has_line_feed (String.◌∷◌ c s) = code c == 10 || has_line_feed s

-- The module in front of a side: `.+` is not empty and has no line feed.
abbrev module_before : List String → Side → Option (String × Side)
module_before parts side =
    let name = join_dots (reversed parts []) in
    if is_blank name || has_line_feed name then none else some (name, side)

abbrev or_else_key : Option (String × Side) → Option (String × Side) → Option (String × Side)
or_else_key (some m) other = some m
or_else_key none other = other

abbrev side_before : Option Side → List String → Option (String × Side)
side_before none parts = none
side_before (some side) parts = module_before parts side

-- The parts of a key in front of `weight`, from the back: the module is as long as it can be.
abbrev before_weight : List String → Option (String × Side)
before_weight [] = none
before_weight (p ∷ []) = none
before_weight (p ∷ q ∷ parts) =
    or_else_key (side_before (side_of p) (q ∷ parts))
      (if is_blank p then none else side_before (side_of q) parts)

abbrev at_weight : List String → Option (String × Side)
at_weight [] = none
at_weight (w ∷ parts) =
    if str_eq w "weight" || str_eq w "weight\n" then before_weight parts else none

-- `LORA_KEY_RE.match`: the module and the side.
unfoldable pub lora_key : String → Option (String × Side)
lora_key key = at_weight (reversed (split_on 46 key) [])

abbrev pub fable_lora_targets : List String
fable_lora_targets =
    "q_proj" ∷ "k_proj" ∷ "v_proj" ∷ "o_proj" ∷ "gate_proj" ∷ "up_proj" ∷ "down_proj" ∷ []

abbrev pub first_in : List String → List String → Option String
first_in segments [] = none
first_in segments (t ∷ targets) = if is_in t segments then some t else first_in segments targets

unfoldable pub target_from_module_path : String → Option String
target_from_module_path module_path = first_in (split_on 46 module_path) fable_lora_targets

-- `LAYER_RE.search`: the number behind the first part `layers` that has one.
unfoldable pub layer_in : (String → Option ℕ) → List String → Option ℕ
layer_in read_layer [] = none
layer_in read_layer (p ∷ []) = none
layer_in read_layer (p ∷ q ∷ parts) =
    let rest = layer_in read_layer (q ∷ parts) in
    if str_eq p "layers" then elim (read_layer q) [ none ↦ rest | some n ↦ some n ] else rest

unfoldable pub lora_context : String → String
lora_context module_path =
    if contains ".mlp." module_path
    then "mlp"
    else if contains ".self_attn.compressor.indexer." module_path
    then "attention_compressor_indexer"
    else if contains ".self_attn.compressor." module_path
    then "attention_compressor"
    else if contains ".self_attn." module_path
    then "attention"
    else "unknown"

pub record LoraModule : Type 0 where
  pub name : String
  pub target : String
  pub layer : Option ℕ
  pub context : String
  pub lora_a : Option Tensor
  pub lora_b : Option Tensor

abbrev pub with_side : Side → Tensor → LoraModule → LoraModule
with_side side_a t m = record m { lora_a = some t }
with_side side_b t m = record m { lora_b = some t }

abbrev pub new_module : (String → Option ℕ) → String → String → LoraModule
new_module read_layer name target = record {
  name = name;
  target = target;
  layer = layer_in read_layer (split_on 46 name);
  context = lora_context name;
  lora_a = none;
  lora_b = none;
}

-- `pairs.setdefault(module_path, …)[f"lora{side}"] = …`
unfoldable pub add_side :
    (String → Option ℕ) → String → String → Side → Tensor → List LoraModule → List LoraModule
add_side read_layer name target side t [] =
    with_side side t (new_module read_layer name target) ∷ []
add_side read_layer name target side t (m ∷ pairs) =
    if str_eq m.name name
    then with_side side t m ∷ pairs
    else m ∷ add_side read_layer name target side t pairs

abbrev pub add_known :
    (String → Option ℕ) → Tensor → String → Side → Option String → List LoraModule → List LoraModule
add_known read_layer t name side none pairs = pairs
add_known read_layer t name side (some target) pairs = add_side read_layer name target side t pairs

unfoldable pub add_tensor : (String → Option ℕ) → Tensor → List LoraModule → List LoraModule
unfolding add_side
add_tensor read_layer t pairs = elim (lora_key t.key) [
  | none ↦ pairs
  | some (name, side) ↦ add_known read_layer t name side (target_from_module_path name) pairs
]

unfoldable pub collect_from : (String → Option ℕ) → List Tensor → List LoraModule → List LoraModule
unfolding add_tensor
collect_from read_layer [] pairs = pairs
collect_from read_layer (t ∷ manifest) pairs =
    collect_from read_layer manifest (add_tensor read_layer t pairs)

unfoldable pub collect_lora_pairs : (String → Option ℕ) → List Tensor → List LoraModule
unfolding collect_from
collect_lora_pairs read_layer manifest = collect_from read_layer manifest []
