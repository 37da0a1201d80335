-- ===== src/Admission/Context/Writes.antt =====
-- Which pairs hydralisk/admission/deepseek_v4_fable.py writes once their context map is ready.
use hydralisk.Prelude.{
  ℕ, ◌+◌, ◌≡◌, ◌⊎◌, inl, inr, refl, sym, subst, arith, String, Bool, true, false, ◌&&◌, Option,
  none, some, List, [], ◌∷◌, length, if◌then◌else◌, if_cases, filter, All, All-mono, Holds,
  Holds-bind, Holds_some,
}
use hydralisk.Json.{Json, Fields}
use hydralisk.Text.{less_text}
use hydralisk.Admission.Manifest.{Tensor, LoraModule}
use hydralisk.Admission.Smoke.{is_complete}
use hydralisk.Admission.Context.{
  family_of, context_map_ready_for_transform_writer, ContextReport, build_context_map_report,
}
use hydralisk.Admission.Context.Covers.{is_output, HasOutput, build_context_map_report-HasOutput}
use hydralisk.Admission.Delta.{
  DeltaOutput, packed_delta_output_for_module, DeltaSpec, at_first, at_second, spec_of, spec_for,
  specs_at, module_specs, insert_spec, insert_specs, packed_delta_specs,
}

abbrev is_known : Option ℕ → Bool
is_known none = false
is_known (some layer) = true

-- A complete pair whose name has a layer.
abbrev pub is_placed : LoraModule → Bool
is_placed m = is_complete m && is_known m.layer

-- The spec of a module.
abbrev pub Makes : LoraModule → DeltaSpec → Type 0
Makes m s = (s.adapter_module ≡ m.name) × (s.target ≡ m.target) × (m.layer ≡ some s.layer)

-- One of the specs is that of a module.
abbrev pub IsWritten : List DeltaSpec → LoraModule → Type 0
IsWritten [] m = ⊥
IsWritten (s ∷ specs) m = Makes m s ⊎ IsWritten specs m

insert_first :
    (m : LoraModule) (s : DeltaSpec) (specs : List DeltaSpec)
    → Makes m s
    → IsWritten (insert_spec s specs) m
unfolding insert_spec
insert_first m s [] h = inl h
insert_first m s (t ∷ specs) h =
    if_cases (λ ss. IsWritten ss m) (less_text t.output_key s.output_key) (t ∷ insert_spec s specs)
      (s ∷ t ∷ specs) (λ _. inr (insert_first m s specs h)) (λ _. inl h)

insert_later :
    (m : LoraModule) (s : DeltaSpec) (specs : List DeltaSpec)
    → IsWritten specs m
    → IsWritten (insert_spec s specs) m
unfolding insert_spec
insert_later m s [] h = absurd h
insert_later m s (t ∷ specs) (inl h) =
    if_cases (λ ss. IsWritten ss m) (less_text t.output_key s.output_key) (t ∷ insert_spec s specs)
      (s ∷ t ∷ specs) (λ _. inl h) (λ _. inr (inl h))
insert_later m s (t ∷ specs) (inr h) =
    if_cases (λ ss. IsWritten ss m) (less_text t.output_key s.output_key) (t ∷ insert_spec s specs)
      (s ∷ t ∷ specs) (λ _. inr (insert_later m s specs h)) (λ _. inr (inr h))

length-insert_spec :
    (s : DeltaSpec) (specs : List DeltaSpec) → length (insert_spec s specs) ≡ length specs + 1
unfolding insert_spec
length-insert_spec s [] = omega arith
length-insert_spec s (t ∷ specs) =
    if_cases (λ ss. length ss ≡ length (t ∷ specs) + 1) (less_text t.output_key s.output_key)
      (t ∷ insert_spec s specs) (s ∷ t ∷ specs) (λ _. omega (arith, length-insert_spec s specs))
      (λ _. omega arith)

abbrev MadeAs : LoraModule → Option ℕ → Bool → List DeltaSpec → Type 0
MadeAs m layer true new =
    (s : DeltaSpec) × (new ≡ s ∷ [])
    × (s.adapter_module ≡ m.name)
    × (s.target ≡ m.target)
    × (layer ≡ some s.layer)
MadeAs m layer false new = new ≡ []

spec_for-MadeAs :
    (m : LoraModule) (layer : ℕ) (a b : Tensor) (o : Option DeltaOutput)
    → is_output o ≡ true
    → Holds (MadeAs m (some layer) true) (spec_for m layer a b o)
spec_for-MadeAs m layer a b none h = absurd (cc)
spec_for-MadeAs m layer a b (some output) h =
    Holds-bind (MadeAs m (some layer) true) (at_first b.shape) _ λ rows _.
      Holds-bind (MadeAs m (some layer) true) (at_second a.shape) _
        λ columns _. (spec_of m layer a b output rows columns, refl, refl, refl, refl)

specs_at-MadeAs :
    (m : LoraModule) (a b : Option Tensor) (layer : Option ℕ)
    → (elim a [ none ↦ false | some a' ↦ elim b [ none ↦ false | some b' ↦ true ] ] ≡ true
        → (n : ℕ) → HasOutput n m)
    → Holds
        (MadeAs m layer (
          elim a [ none ↦ false | some a' ↦ elim b [ none ↦ false | some b' ↦ true ] ]
          && is_known layer))
        (specs_at none m a b layer)
specs_at-MadeAs m none b layer h = refl
specs_at-MadeAs m (some a) none layer h = refl
specs_at-MadeAs m (some a) (some b) none h = refl
specs_at-MadeAs m (some a) (some b) (some n) h =
    spec_for-MadeAs m n a b (packed_delta_output_for_module n (family_of m) m.target) (h refl n)

-- The modules that pass a test, put in front of those of others.
abbrev Writes : List LoraModule → List DeltaSpec → Type 0
Writes placed specs = All (IsWritten specs) placed × (length specs ≡ length placed)

later_specs :
    (m : LoraModule) (placed : List LoraModule) (b : Bool) (new specs : List DeltaSpec)
    → MadeAs m m.layer b new
    → Writes placed specs
    → Writes (if b then m ∷ placed else placed) (insert_specs new specs)
unfolding insert_specs
later_specs m placed false new specs made h = rw (made) h
later_specs m placed true new specs (s, e, n, t, l) h =
    subst (λ ns. Writes (m ∷ placed) (insert_specs ns specs)) (sym e)
      (
        (
          insert_first m s specs (n, t, l),
          All-mono (IsWritten specs) (IsWritten (insert_spec s specs)) placed
              (λ k w. insert_later k s specs w) h.0,
        ),
        omega (arith, length-insert_spec s specs, h.1),
      )

module _ (P : LoraModule → Type 0) (p : LoraModule → Bool) (m : LoraModule)
    (xs : List LoraModule) where
  filter_first : All P (filter p (m ∷ xs)) → p m ≡ true → P m
  filter_first h e =
      if_cases (λ ms. All P ms → p m ≡ true → P m) (p m) (m ∷ filter p xs) (filter p xs)
        (λ _ k _. k.0) (λ f k e. absurd (cc (e, f))) h e

  filter_rest : All P (filter p (m ∷ xs)) → All P (filter p xs)
  filter_rest h =
      if_cases (λ ms. All P ms → All P (filter p xs)) (p m) (m ∷ filter p xs) (filter p xs)
        (λ _ k. k.1) (λ _ k. k) h

module_specs-MadeAs :
    (m : LoraModule) (new : List DeltaSpec)
    → (is_complete m ≡ true → (n : ℕ) → HasOutput n m)
    → module_specs none m ≡ some new
    → MadeAs m m.layer (is_placed m) new
unfolding module_specs
module_specs-MadeAs m new h e =
    Holds_some (MadeAs m m.layer (is_placed m)) (module_specs none m) new
      (specs_at-MadeAs m m.lora_a m.lora_b m.layer h) e

packed_delta_specs-Writes :
    (pairs : List LoraModule)
    → ((layer : ℕ) → All (HasOutput layer) (filter is_complete pairs))
    → Holds (Writes (filter is_placed pairs)) (packed_delta_specs pairs none)
unfolding packed_delta_specs
packed_delta_specs-Writes [] h = (tt, refl)
packed_delta_specs-Writes (m ∷ pairs) h =
    Holds-bind (Writes (filter is_placed (m ∷ pairs))) (module_specs none m) _ λ new e.
      Holds-bind (Writes (filter is_placed (m ∷ pairs))) (packed_delta_specs pairs none) _
        λ specs f.
          later_specs m (filter is_placed pairs) (is_placed m) new specs
            (module_specs-MadeAs m new
              (λ c n. filter_first (HasOutput n) is_complete m pairs (h n) c) e)
            (Holds_some (Writes (filter is_placed pairs)) (packed_delta_specs pairs none) specs
              (packed_delta_specs-Writes pairs
                (λ layer. filter_rest (HasOutput layer) is_complete m pairs (h layer)))
              f)

-- If the context map of an adapter is ready, by the default inventory of the runtime, then the specs
-- of the deltas of all layers, if they can be made, are one for each complete pair whose name has a
-- layer, with that pair's name, target and layer; a complete pair whose name has no layer is left out.
pub build_context_map_report-Writes :
    (print : Json → String) (read_layer : String → Option ℕ) (header : Fields)
    (report : ContextReport) (specs : List DeltaSpec)
    → build_context_map_report print read_layer header none ≡ some report
    → report.status ≡ context_map_ready_for_transform_writer
    → packed_delta_specs report.pairs none ≡ some specs
    → All (IsWritten specs) (filter is_placed report.pairs)
      × (length specs ≡ length (filter is_placed report.pairs))
build_context_map_report-Writes print read_layer header report specs e ready made =
    Holds_some (Writes (filter is_placed report.pairs)) (packed_delta_specs report.pairs none) specs
      (packed_delta_specs-Writes report.pairs
        (λ layer. build_context_map_report-HasOutput print read_layer header report layer e ready))
      made
