-- ===== src/Admission/Manifest/Kept.antt =====
-- What the modules that hydralisk/admission/deepseek_v4_fable.py collects from tensors are like.
use hydralisk.Prelude.{
  ℕ, ◌≡◌, refl, arith, String, true, Option, none, some, List, [], ◌∷◌, str_eq, eq_iff, if_cases,
  All, Holds, Holds-mono,
}
use hydralisk.Text.{is_in, split_on}
use hydralisk.Admission.Manifest.{
  Tensor, LoraModule, Side, side_a, side_b, fable_lora_targets, first_in, target_from_module_path,
  lora_key, lora_context, with_side, new_module, add_side, add_known, add_tensor, collect_from,
  collect_lora_pairs,
}

first_in-target :
    (segments targets : List String)
    → Holds (λ t. is_in t targets ≡ true) (first_in segments targets)
first_in-target segments [] = tt
first_in-target segments (t ∷ targets) =
    if_cases (Holds (λ u. is_in u (t ∷ targets) ≡ true)) (is_in t segments) _ _
      (λ _. ground (arith, eq_iff t t))
      (λ _.
        Holds-mono _ (λ u. is_in u (t ∷ targets) ≡ true) (first_in segments targets)
          (λ u h. ground (arith, h)) (first_in-target segments targets))

-- A module that the collection makes.
abbrev pub IsCollected : LoraModule → Type 0
IsCollected m = (is_in m.target fable_lora_targets ≡ true) × (m.context ≡ lora_context m.name)

with_side-IsCollected :
    (side : Side) (t : Tensor) (m : LoraModule) → IsCollected m → IsCollected (with_side side t m)
with_side-IsCollected side_a t m h = h
with_side-IsCollected side_b t m h = h

module _ (read_layer : String → Option ℕ) where
  add_side-IsCollected :
      (name target : String) (side : Side) (t : Tensor) (pairs : List LoraModule)
      → is_in target fable_lora_targets ≡ true
      → All IsCollected pairs
      → All IsCollected (add_side read_layer name target side t pairs)
  unfolding add_side
  add_side-IsCollected name target side t [] k h =
      (with_side-IsCollected side t (new_module read_layer name target) (k, refl), tt)
  add_side-IsCollected name target side t (m ∷ pairs) k h =
      if_cases (All IsCollected) (str_eq m.name name) _ _
        (λ _. (with_side-IsCollected side t m h.0, h.1))
        (λ _. (h.0, add_side-IsCollected name target side t pairs k h.1))

  add_known-IsCollected :
      (t : Tensor) (name : String) (side : Side) (o : Option String) (pairs : List LoraModule)
      → Holds (λ u. is_in u fable_lora_targets ≡ true) o
      → All IsCollected pairs
      → All IsCollected (add_known read_layer t name side o pairs)
  add_known-IsCollected t name side none pairs k h = h
  add_known-IsCollected t name side (some target) pairs k h =
      add_side-IsCollected name target side t pairs k h

  by_key-IsCollected :
      (t : Tensor) (o : Option (String × Side)) (pairs : List LoraModule)
      → All IsCollected pairs
      → All IsCollected (elim o [
        | none ↦ pairs
        | some (name, side) ↦ add_known read_layer t name side (target_from_module_path name) pairs
      ])
  unfolding target_from_module_path
  by_key-IsCollected t none pairs h = h
  by_key-IsCollected t (some (name, side)) pairs h =
      add_known-IsCollected t name side (target_from_module_path name) pairs
        (first_in-target (split_on 46 name) fable_lora_targets) h

  collect_from-IsCollected :
      (manifest : List Tensor) (pairs : List LoraModule)
      → All IsCollected pairs
      → All IsCollected (collect_from read_layer manifest pairs)
  unfolding collect_from add_tensor
  collect_from-IsCollected [] pairs h = h
  collect_from-IsCollected (t ∷ manifest) pairs h =
      collect_from-IsCollected manifest (add_tensor read_layer t pairs)
        (by_key-IsCollected t (lora_key t.key) pairs h)

  pub collect_lora_pairs-IsCollected :
      (manifest : List Tensor) → All IsCollected (collect_lora_pairs read_layer manifest)
  unfolding collect_lora_pairs
  collect_lora_pairs-IsCollected manifest = collect_from-IsCollected manifest [] tt
