-- ===== src/Admission/Owner.antt =====
-- hydralisk/admission/deepseek_v4_fable.py: which module of the runtime owns the output projection of
-- the attention, from an inventory of its source. `print` is `str` of a value that is no text; `none`
-- is an exception. What a report copies from the inventory is left out.
pub mod Proven
pub mod Tests
use hydralisk.Prelude.{
  String, Bool, true, false, not, ◌&&◌, ◌||◌, Option, none, some, List, [], ◌∷◌, ◌++◌, filter,
  str_eq, if◌then◌else◌, ◌>>=◌,
}
use hydralisk.Json.{Json, Items, Fields, null, str, arr, obj, nil, cons, get}
use hydralisk.Text.{is_in, ends_with, contains, sorted_set}
use hydralisk.Evals.Values.{truthy, value_at}

module_objects : Items → Option (List Fields)
module_objects nil = some []
module_objects (cons (obj m) vs) = do rest ← module_objects vs; some (m ∷ rest)
module_objects (cons _ vs) = none

abbrev objects_in : Json → Option (List Fields)
objects_in (arr vs) = module_objects vs
objects_in _ = none

-- `source_inventory.get("modules") or ()`, with each entry an object.
unfoldable pub inventory_modules : Fields → Option (List Fields)
unfolding module_objects
inventory_modules source_inventory =
    if truthy (value_at "modules" source_inventory)
    then objects_in (value_at "modules" source_inventory)
    else some []

pub record Ownership : Type 0 where
  pub adapter_addressable : Bool
  pub kernel_provider_owned : Bool
  pub attention_methods : List String
  pub kernel_calls : List String
  pub kernel_functions : List String
  pub model_attrs : List String

pub data OwnerStatus : Type 0 where
  adapter_addressable_o_proj_module : OwnerStatus
  o_proj_owner_proven_kernel_provider : OwnerStatus
  blocked_o_proj_owner_unknown : OwnerStatus

pub record OwnerReport : Type 0 where
  pub status : OwnerStatus
  pub ownership : Ownership
  pub can_use_vanilla_peft : Bool
  pub can_proceed_to_packed : Bool

abbrev pub owner_status : (exposed owned : Bool) → OwnerStatus
owner_status true owned = adapter_addressable_o_proj_module
owner_status false true = o_proj_owner_proven_kernel_provider
owner_status false false = blocked_o_proj_owner_unknown

abbrev pub has_some : List String → Bool
has_some [] = false
has_some (x ∷ xs) = true

module _ (print : Json → String) where
  abbrev text_of_value : Json → String
  text_of_value (str s) = s
  text_of_value v = print v

  abbrev texts_of : Items → List String
  texts_of nil = []
  texts_of (cons v vs) = text_of_value v ∷ texts_of vs

  abbrev strings_in : Option Json → List String
  strings_in (some (arr vs)) = texts_of vs
  strings_in _ = []

  unfoldable pub strings_from_module : String → Fields → List String
  strings_from_module key m = strings_in (get key m)

  -- `str(module.get("module", ""))`
  abbrev pub module_path_of : Fields → String
  module_path_of m = elim (get "module" m) [ none ↦ "" | some v ↦ text_of_value v ]

  abbrev pub is_model : Fields → Bool
  is_model m = ends_with ".model" (module_path_of m)

  abbrev pub is_attention : Fields → Bool
  is_attention m =
      ends_with ".flashmla" (module_path_of m) || ends_with ".flashinfer_sparse" (module_path_of m)

  abbrev pub is_kernel : Fields → Bool
  is_kernel m = ends_with ".ops.o_proj" (module_path_of m)

  abbrev pub any_module : (Fields → Bool) → List Fields → Bool
  any_module p [] = false
  any_module p (m ∷ ms) = p m || any_module p ms

  abbrev all_strings : String → List Fields → List String
  all_strings key [] = []
  all_strings key (m ∷ ms) = strings_from_module key m ++ all_strings key ms

  -- The sorted set of the strings under a key that pass a test.
  abbrev pub strings_where : (String → Bool) → String → List Fields → List String
  strings_where p key ms = sorted_set (filter p (all_strings key ms))

  abbrev pub exposes : Fields → Bool
  exposes m =
      is_in "o_proj" (strings_from_module "attrs" m)
      || is_in "o_proj" (strings_from_module "names" m)

  unfoldable pub ownership_of : List Fields → Ownership
  ownership_of modules =
      let methods =
        strings_where (λ s. str_eq s "_o_proj") "functions" (filter is_attention modules) in
      let calls =
        strings_where (λ s. str_eq s "deep_gemm_fp8_o_proj") "calls"
          (filter is_attention modules) in
      let functions =
        strings_where (λ s. str_eq s "deep_gemm_fp8_o_proj") "functions"
          (filter is_kernel modules) in
      record {
        adapter_addressable = any_module exposes (filter is_model modules);
        kernel_provider_owned = has_some methods && has_some calls && has_some functions;
        attention_methods = methods;
        kernel_calls = calls;
        kernel_functions = functions;
        model_attrs = strings_where (contains "o_proj") "attrs" (filter is_model modules);
      }

  unfoldable pub build_o_proj_ownership_report : Fields → Option OwnerReport
  build_o_proj_ownership_report source_inventory = do
    modules ← inventory_modules source_inventory
    some (record {
      status =
          owner_status (ownership_of modules).adapter_addressable
            (ownership_of modules).kernel_provider_owned;
      ownership = ownership_of modules;
      can_use_vanilla_peft = (ownership_of modules).adapter_addressable;
      can_proceed_to_packed =
          (ownership_of modules).kernel_provider_owned
          && not (ownership_of modules).adapter_addressable;
    })
