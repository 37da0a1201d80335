-- ===== src/Admission/Owner/Tests.antt =====
-- Examples for hydralisk/admission/deepseek_v4_fable.py: the owner of the output projection.
use hydralisk.Prelude.{String, true, false, some, List, [], ◌∷◌, ◌≡◌, refl}
use hydralisk.Json.{Json, Fields, str, arr, obj, nil, cons, end, field, get}
use hydralisk.Text.{ends_with, sorted_set}
use hydralisk.Admission.Owner.{
  inventory_modules, strings_from_module, OwnerReport, o_proj_owner_proven_kernel_provider,
  ownership_of, build_o_proj_ownership_report,
}
use hydralisk.Admission.Owner.Proven.{is_proven, can_proceed_to_packed-ownership_of}

abbrev no_print : Json → String
no_print v = "?"

abbrev attention_module : Fields
attention_module = field "module" (str "vllm.attention.flashmla") (
    field "functions" (arr (cons (str "_o_proj") nil))
      (field "calls" (arr (cons (str "deep_gemm_fp8_o_proj") nil)) end))

abbrev kernel_module : Fields
kernel_module =
    field "module" (str "vllm.ops.o_proj")
      (field "functions" (arr (cons (str "deep_gemm_fp8_o_proj") nil)) end)

abbrev inventory : Fields
inventory = field "modules" (arr (cons (obj attention_module) (cons (obj kernel_module) nil))) end

abbrev inventory_list : List Fields
inventory_list = attention_module ∷ kernel_module ∷ []

abbrev report : OwnerReport
report = record {
  status = o_proj_owner_proven_kernel_provider;
  ownership = ownership_of no_print inventory_list;
  can_use_vanilla_peft = false;
  can_proceed_to_packed = true;
}

inventory_read : inventory_modules inventory ≡ some inventory_list
unfolding inventory_modules get
inventory_read = refl

report_built : build_o_proj_ownership_report no_print inventory ≡ some report
unfolding build_o_proj_ownership_report inventory_modules get ownership_of strings_from_module
    ends_with sorted_set
report_built = refl

can_proceed_to_packed-ownership_of_example : true ≡ is_proven no_print inventory_list
can_proceed_to_packed-ownership_of_example =
    can_proceed_to_packed-ownership_of no_print inventory inventory_list report inventory_read
      report_built
