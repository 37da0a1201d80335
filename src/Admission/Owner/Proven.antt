-- ===== src/Admission/Owner/Proven.antt =====
-- When the owner of the output projection is proven, in hydralisk/admission/deepseek_v4_fable.py.
use hydralisk.Prelude.{
  ◌≡◌, ◌∙◌, sym, ap, refl, arith, String, Bool, true, not, ◌&&◌, ◌||◌, some, List, [], ◌∷◌, ◌++◌,
  filter, str_eq, eq_iff, Bool-cases, inl, inr, Holds-bind, Holds_some, subst, some_path,
}
use hydralisk.Json.{Json, Fields}
use hydralisk.Text.{is_in, insert_text, sorted_set}
use hydralisk.Admission.Owner.{
  has_some, any_module, all_strings, strings_where, strings_from_module, is_model, is_attention,
  is_kernel, exposes, ownership_of, inventory_modules, OwnerReport, build_o_proj_ownership_report,
}

some_insert_text : (s : String) (xs : List String) → has_some (insert_text s xs) ≡ true
unfolding insert_text
some_insert_text s [] = refl
some_insert_text s (x ∷ xs) = ground arith

some_sorted_set : (xs : List String) → has_some (sorted_set xs) ≡ has_some xs
unfolding sorted_set
some_sorted_set [] = refl
some_sorted_set (x ∷ xs) = some_insert_text x (sorted_set xs)

some_append : (xs ys : List String) → has_some (xs ++ ys) ≡ (has_some xs || has_some ys)
some_append [] ys = refl
some_append (x ∷ xs) ys = refl

some_filter : (t : String) (xs : List String) → has_some (filter (λ s. str_eq s t) xs) ≡ is_in t xs
some_filter t [] = refl
some_filter t (x ∷ xs) = ground (arith, eq_iff x t, eq_iff t x, some_filter t xs)

filter-append :
    (p : String → Bool) (xs ys : List String) → filter p (xs ++ ys) ≡ filter p xs ++ filter p ys
filter-append p [] ys = refl
filter-append p (x ∷ xs) ys = elim (Bool-cases (p x)) [
  | inl e ↦ rw (e) (ap (λ t. x ∷ t) (filter-append p xs ys))
  | inr e ↦ rw (e) (filter-append p xs ys)
]

module _ (print : Json → String) where
  some_strings :
      (t key : String) (ms : List Fields)
      → has_some (filter (λ s. str_eq s t) (all_strings print key ms))
        ≡ any_module print (λ m. is_in t (strings_from_module print key m)) ms
  some_strings t key [] = refl
  some_strings t key (m ∷ ms) =
      ap has_some (
        filter-append (λ s. str_eq s t) (strings_from_module print key m)
          (all_strings print key ms))
      ∙ some_append (filter (λ s. str_eq s t) (strings_from_module print key m))
          (filter (λ s. str_eq s t) (all_strings print key ms))
      ∙ ap (λ b. b || has_some (filter (λ s. str_eq s t) (all_strings print key ms)))
          (some_filter t (strings_from_module print key m))
      ∙ ap (λ b. is_in t (strings_from_module print key m) || b) (some_strings t key ms)

  names-strings_where :
      (t key : String) (ms : List Fields)
      → has_some (strings_where print (λ s. str_eq s t) key ms)
        ≡ any_module print (λ m. is_in t (strings_from_module print key m)) ms
  names-strings_where t key ms =
      some_sorted_set (filter (λ s. str_eq s t) (all_strings print key ms)) ∙ some_strings t key ms

  -- Whether some module of a kind has a string under a key.
  abbrev pub some_has : (Fields → Bool) → String → String → List Fields → Bool
  some_has kind key t modules =
      any_module print (λ m. is_in t (strings_from_module print key m)) (filter kind modules)

  abbrev pub is_proven : List Fields → Bool
  is_proven modules =
      (some_has (is_attention print) "functions" "_o_proj" modules
        && some_has (is_attention print) "calls" "deep_gemm_fp8_o_proj" modules
        && some_has (is_kernel print) "functions" "deep_gemm_fp8_o_proj" modules)
      && not (any_module print (exposes print) (filter (is_model print) modules))

  proven :
      (modules : List Fields)
      → (ownership_of print modules).kernel_provider_owned
          && not (ownership_of print modules).adapter_addressable
        ≡ is_proven modules
  unfolding ownership_of
  proven modules =
      rw
        (
          names-strings_where "_o_proj" "functions" (filter (is_attention print) modules),
          names-strings_where "deep_gemm_fp8_o_proj" "calls" (filter (is_attention print) modules),
          names-strings_where "deep_gemm_fp8_o_proj" "functions" (filter (is_kernel print) modules),
        )
        refl

  -- The report of the output projection lets the packed transform go on exactly if some attention
  -- module defines `_o_proj`, some attention module calls `deep_gemm_fp8_o_proj`, some kernel module
  -- defines it, and no model module has `o_proj` among its attributes or names.
  pub can_proceed_to_packed-ownership_of :
      (source_inventory : Fields) (modules : List Fields) (report : OwnerReport)
      → inventory_modules source_inventory ≡ some modules
      → build_o_proj_ownership_report print source_inventory ≡ some report
      → report.can_proceed_to_packed ≡ is_proven modules
  unfolding build_o_proj_ownership_report
  can_proceed_to_packed-ownership_of source_inventory modules report e r =
      Holds_some P (build_o_proj_ownership_report print source_inventory) report
        (Holds-bind P (inventory_modules source_inventory) _ λ ms m.
          subst
            (λ k.
              (ownership_of print ms).kernel_provider_owned
                && not (ownership_of print ms).adapter_addressable
              ≡ is_proven k)
            (some_path (sym m ∙ e)) (proven ms))
        r
    where
      P : OwnerReport → Type 0
      P q = q.can_proceed_to_packed ≡ is_proven modules
