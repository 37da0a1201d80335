-- ===== src/Admission/Context/Covers.antt =====
-- The context map of hydralisk/admission/deepseek_v4_fable.py and the deltas that are written.
use hydralisk.Prelude.{
  ℕ, ◌≡◌, ◌∙◌, ap, refl, arith, String, Bool, true, false, not, ◌&&◌, ◌||◌, Option, none, some,
  List, [], ◌∷◌, str_eq, eq_iff, if◌then◌else◌, if_cases, filter, All, All-mono, Holds-bind,
  Holds_some, Bool-cases, inl, inr,
}
use hydralisk.Json.{Json, Fields, get}
use hydralisk.Text.{is_in, contains}
use hydralisk.Admission.Manifest.{
  LoraModule, fable_lora_targets, lora_context, collect_lora_pairs, safetensor_manifest_from_header,
}
use hydralisk.Admission.Manifest.Kept.{IsCollected, collect_lora_pairs-IsCollected}
use hydralisk.Admission.Smoke.{is_complete}
use hydralisk.Admission.Context.{
  default_surfaces, context_family, family_of, ContextBlocker, ContextEntry, key_of,
  build_context_entries, blockers_of_entries, is_blocked, context_status,
  context_map_ready_for_transform_writer, ContextReport, build_context_map_report,
}
use hydralisk.Admission.Context.Reached.{is_surface, ReachedModule, build_context_entries-Reached}
use hydralisk.Admission.Delta.{DeltaOutput, packed_delta_output_for_module}

abbrev families : List String
families =
    "mlp" ∷ "mlp_shared_experts" ∷ "attention_compressor_indexer" ∷ "attention_compressor"
    ∷ "attention" ∷ "unknown" ∷ []

abbrev pub is_output : Option DeltaOutput → Bool
is_output none = false
is_output (some output) = true

-- A module whose delta is written, at a layer.
abbrev pub HasOutput : ℕ → LoraModule → Type 0
HasOutput layer m = is_output (packed_delta_output_for_module layer (family_of m) m.target) ≡ true

abbrev context_by : (a b c d : Bool) → String
context_by a b c d =
    if a
    then "mlp"
    else if b
    then "attention_compressor_indexer"
    else if c
    then "attention_compressor"
    else if d
    then "attention"
    else "unknown"

family_at :
    (a b c d e : Bool)
    → is_in
        (if str_eq (context_by a b c d) "mlp" && e
          then "mlp_shared_experts"
          else context_by a b c d)
        families
      ≡ true
family_at true b c d true = refl
family_at true b c d false = refl
family_at false true c d e = refl
family_at false false true d e = refl
family_at false false false true e = refl
family_at false false false false e = refl

known_family : (name : String) → is_in (context_family name (lora_context name)) families ≡ true
unfolding context_family lora_context
known_family name =
    family_at (contains ".mlp." name) (contains ".self_attn.compressor.indexer." name)
      (contains ".self_attn.compressor." name) (contains ".self_attn." name)
      (contains ".shared_experts." name)

abbrev every : (String → Bool) → List String → Bool
every p [] = true
every p (x ∷ xs) = p x && every p xs

every-is_in :
    (p : String → Bool) (s : String) (xs : List String)
    → every p xs ≡ true
    → is_in s xs ≡ true
    → p s ≡ true
every-is_in p s [] e i = absurd (cc)
every-is_in p s (x ∷ xs) e i = elim (Bool-cases (str_eq s x)) [
  | inl f ↦ ground (arith, e, ap p ((eq_iff s x).0 f))
  | inr f ↦ every-is_in p s xs (ground (arith, e)) (ground (arith, i, f))
]

abbrev is_covered : ℕ → String → String → Bool
is_covered layer f t =
    not (is_surface (get (key_of f t) default_surfaces))
    || is_output (packed_delta_output_for_module layer f t)

all_covered :
    (layer : ℕ) → every (λ f. every (is_covered layer f) fable_lora_targets) families ≡ true
unfolding get packed_delta_output_for_module
all_covered layer = refl

covered :
    (layer : ℕ) (f t : String)
    → is_in f families ≡ true
    → is_in t fable_lora_targets ≡ true
    → is_surface (get (key_of f t) default_surfaces) ≡ true
    → is_output (packed_delta_output_for_module layer f t) ≡ true
covered layer f t i j s =
    let c =
      every-is_in (is_covered layer f) t fable_lora_targets
        (every-is_in (λ g. every (is_covered layer g) fable_lora_targets) f families
          (all_covered layer) i)
        j in
    ground (arith, c, s)

collected_family : (m : LoraModule) → IsCollected m → is_in (family_of m) families ≡ true
collected_family m h = ap (λ c. is_in (context_family m.name c) families) h.1 ∙ known_family m.name

ready_unblocked :
    (u : Bool) (bs : List ContextBlocker)
    → context_status u (is_blocked bs) ≡ context_map_ready_for_transform_writer
    → bs ≡ []
ready_unblocked true bs e = absurd (cc)
ready_unblocked false [] e = refl
ready_unblocked false (b ∷ bs) e = absurd (cc)

filter-All :
    (P : LoraModule → Type 0) (p : LoraModule → Bool) (xs : List LoraModule)
    → All P xs
    → All P (filter p xs)
filter-All P p [] h = tt
filter-All P p (x ∷ xs) h =
    if_cases (All P) (p x) (x ∷ filter p xs) (filter p xs) (λ _. (h.0, filter-All P p xs h.1))
      (λ _. filter-All P p xs h.1)

All-combine :
    (P Q : LoraModule → Type 0) (xs : List LoraModule)
    → All P xs
    → All Q xs
    → All (λ m. P m × Q m) xs
All-combine P Q [] h k = tt
All-combine P Q (x ∷ xs) h k = ((h.0, k.0), All-combine P Q xs h.1 k.1)

-- If the context map of an adapter is ready, by the default inventory of the runtime, the name of the
-- tensor for a complete pair's delta is known at any layer.
pub build_context_map_report-HasOutput :
    (print : Json → String) (read_layer : String → Option ℕ) (header : Fields)
    (report : ContextReport) (layer : ℕ)
    → build_context_map_report print read_layer header none ≡ some report
    → report.status ≡ context_map_ready_for_transform_writer
    → All (HasOutput layer) (filter is_complete report.pairs)
unfolding build_context_map_report
build_context_map_report-HasOutput print read_layer header report layer e =
    Holds_some P _ report
      (Holds-bind P (safetensor_manifest_from_header print header) _ λ manifest _.
        Holds-bind P
          (build_context_entries (collect_lora_pairs read_layer manifest) (some default_surfaces)) _
          λ entries f ready.
            ready_pairs (collect_lora_pairs read_layer manifest) entries
              (collect_lora_pairs-IsCollected read_layer manifest) f
              (ready_unblocked _ (blockers_of_entries entries) ready))
      e
  where
    P : ContextReport → Type 0
    P r =
        r.status ≡ context_map_ready_for_transform_writer
        → All (HasOutput layer) (filter is_complete r.pairs)

    ready_pairs :
        (pairs : List LoraModule) (entries : List ContextEntry)
        → All IsCollected pairs
        → build_context_entries pairs (some default_surfaces) ≡ some entries
        → blockers_of_entries entries ≡ []
        → All (HasOutput layer) (filter is_complete pairs)
    ready_pairs pairs entries c f empty =
        All-mono (λ m. IsCollected m × ReachedModule default_surfaces m) (HasOutput layer)
          (filter is_complete pairs)
          (λ m h. covered layer (family_of m) m.target (collected_family m h.0) h.0.0 h.1)
          (All-combine IsCollected (ReachedModule default_surfaces) (filter is_complete pairs)
            (filter-All IsCollected is_complete pairs c)
            (build_context_entries-Reached default_surfaces pairs entries f empty))
