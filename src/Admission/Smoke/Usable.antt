-- ===== src/Admission/Smoke/Usable.antt =====
-- What an adapter without blockers is, in hydralisk/admission/deepseek_v4_fable.py.
use hydralisk.Prelude.{
  ℕ, ◌-◌, ◌<◌, ◌≡◌, refl, subst, arith, String, Bool, true, false, not, Option, none, some, List,
  [], ◌∷◌, ltb, ◌==◌, str_eq, eq_iff, filter, filter_none, filter_each, filter_whole, All-filter,
  length, All, All-mono, append_none, if_cases, Holds-bind, Holds_some,
}
use hydralisk.Text.{is_in, less_text}
use hydralisk.Text.Members.{All-is_in}
use hydralisk.Json.{Json, Fields}
use hydralisk.Admission.Manifest.{
  Tensor, LoraModule, fable_lora_targets, collect_lora_pairs, safetensor_manifest_from_header,
}
use hydralisk.Admission.Manifest.Kept.{IsCollected, collect_lora_pairs-IsCollected}
use hydralisk.Admission.Smoke.{
  lora_shapes_compatible, expected_context, is_complete, is_bad_shape, is_unsupported,
  insert_module, sort_modules, modules_at, summarize_target, Blocker, block_if, is_some_name,
  names_of, target_blockers, family_blockers, fable_packed_families, all_blockers, SmokeReport,
  build_transform_smoke_report, shape_of,
}

-- A pair of matrices of one rank, in the part of the model where its target belongs.
abbrev pub IsUsable : LoraModule → Type 0
IsUsable m =
    (a : Tensor) × (b : Tensor) × (m.lora_a ≡ some a)
    × (m.lora_b ≡ some b)
    × (lora_shapes_compatible a.shape b.shape ≡ true)
    × (m.context ≡ expected_context m.target)

-- What the tests of one target leave.
abbrev Passed : List LoraModule → String → Type 0
Passed pairs t =
    ((length (filter is_complete (modules_at t pairs)) == 0) ≡ false)
    × (ltb 0 (length (modules_at t pairs) - length (filter is_complete (modules_at t pairs)))
        ≡ false)
    × (is_some_name (names_of (filter is_bad_shape (filter is_complete (modules_at t pairs))))
        ≡ false)
    × (is_some_name (names_of (filter (is_unsupported t) (modules_at t pairs))) ≡ false)

block_if_none :
    (b : Bool) (code target : String) (rest : List Blocker)
    → block_if b code target rest ≡ []
    → (b ≡ false) × (rest ≡ [])
block_if_none true code target rest e = absurd (cc)
block_if_none false code target rest e = (refl, e)

target_blockers_none :
    (pairs : List LoraModule) (t : String) (rest : List Blocker)
    → target_blockers (summarize_target pairs t) rest ≡ []
    → Passed pairs t × (rest ≡ [])
unfolding target_blockers summarize_target
target_blockers_none pairs t rest e =
    let c = block_if_none _ _ _ _ e in
    let m = block_if_none _ _ _ _ c.1 in
    let s = block_if_none _ _ _ _ m.1 in
    let u = block_if_none _ _ _ _ s.1 in ((c.0, m.0, s.0, u.0), u.1)

family_blockers_none :
    (pairs : List LoraModule) (family ts : List String)
    → family_blockers pairs family ts ≡ []
    → All (Passed pairs) ts
unfolding family_blockers
family_blockers_none pairs family [] e = tt
family_blockers_none pairs family (t ∷ ts) e =
    let p = target_blockers_none pairs t (family_blockers pairs family ts) e in
    (p.0, family_blockers_none pairs family ts p.1)

all_blockers_none :
    (pairs : List LoraModule) (families : List (List String))
    → all_blockers pairs families ≡ []
    → All (All (Passed pairs)) families
unfolding all_blockers
all_blockers_none pairs [] e = tt
all_blockers_none pairs (f ∷ families) e =
    let p = append_none (family_blockers pairs f f) _ e in
    (family_blockers_none pairs f f p.0, all_blockers_none pairs families p.1)

blocked_nowhere :
    (pairs : List LoraModule)
    → all_blockers pairs fable_packed_families ≡ []
    → All (Passed pairs) fable_lora_targets
blocked_nowhere pairs e =
    let h = all_blockers_none pairs fable_packed_families e in
    (h.0.0, (h.0.1.0, (h.0.1.1.0, (h.1.1.0.0, (h.1.0.0, (h.1.0.1.0, (h.1.1.1.0.0, tt)))))))

-- The module of a target that passes.
abbrev Fine : String → LoraModule → Type 0
Fine t m = (is_complete m ≡ true) × (is_bad_shape m ≡ false) × (is_unsupported t m ≡ false)

no_names : (xs : List LoraModule) → is_some_name (names_of xs) ≡ false → xs ≡ []
no_names [] e = refl
no_names (x ∷ xs) e = absurd (cc)

All-combine :
    (P Q R : LoraModule → Type 0) (xs : List LoraModule)
    → All P xs
    → All Q xs
    → All R xs
    → All (λ m. P m × Q m × R m) xs
All-combine P Q R [] p q r = tt
All-combine P Q R (x ∷ xs) p q r = ((p.0, q.0, r.0), All-combine P Q R xs p.1 q.1 r.1)

insert-All :
    (P : LoraModule → Type 0) (m : LoraModule) (xs : List LoraModule)
    → All P (insert_module m xs)
    → P m × All P xs
unfolding insert_module
insert-All P m [] h = (h.0, tt)
insert-All P m (x ∷ xs) h =
    if_cases (λ ys. All P ys → P m × All P (x ∷ xs)) (less_text x.name m.name)
      (x ∷ insert_module m xs) (m ∷ x ∷ xs)
      (λ _ k. let r = insert-All P m xs k.1 in (r.0, (k.0, r.1))) (λ _ k. k) h

sort_modules-All :
    (P : LoraModule → Type 0) (xs : List LoraModule) → All P (sort_modules xs) → All P xs
unfolding sort_modules
sort_modules-All P [] h = tt
sort_modules-All P (x ∷ xs) h =
    let k = insert-All P x (sort_modules xs) h in (k.0, sort_modules-All P xs k.1)

clean_at :
    (pairs : List LoraModule) (t : String) → Passed pairs t → All (Fine t) (modules_at t pairs)
clean_at pairs t h =
    All-combine (λ m. is_complete m ≡ true) (λ m. is_bad_shape m ≡ false)
      (λ m. is_unsupported t m ≡ false) modules complete
      (subst (All (λ m. is_bad_shape m ≡ false)) (filter_each is_complete modules complete)
        (filter_none is_bad_shape (filter is_complete modules) (no_names _ h.2)))
      (filter_none (is_unsupported t) modules (no_names _ h.3))
  where
    modules : List LoraModule
    modules = modules_at t pairs

    complete : All (λ m. is_complete m ≡ true) modules
    complete = filter_whole is_complete modules (ground (arith, h.1))

clean_in :
    (pairs : List LoraModule) (t : String)
    → Passed pairs t
    → All (λ m. str_eq m.target t ≡ true → Fine t m) pairs
clean_in pairs t h =
    sort_modules-All (λ m. str_eq m.target t ≡ true → Fine t m) pairs
      (All-filter (Fine t) (λ m. str_eq m.target t) (sort_modules pairs) (clean_at pairs t h))

-- From the modules of each target to all modules.
clean_anywhere :
    (pairs : List LoraModule)
    → ((t : String)
        → is_in t fable_lora_targets ≡ true
        → All (λ m. str_eq m.target t ≡ true → Fine t m) pairs)
    → All (λ m. is_in m.target fable_lora_targets ≡ true) pairs
    → All (λ m. Fine m.target m) pairs
clean_anywhere [] g k = tt
clean_anywhere (m ∷ pairs) g k = (
  (g m.target k.0).0 ((eq_iff m.target m.target).1 refl),
  clean_anywhere pairs (λ t e. (g t e).1) k.1,
)

true_by_not : (b : Bool) → not b ≡ false → b ≡ true
true_by_not true e = refl
true_by_not false e = absurd (cc)

both_sides :
    (oa ob : Option Tensor)
    → elim oa [ none ↦ false | some a ↦ elim ob [ none ↦ false | some b ↦ true ] ] ≡ true
    → not (lora_shapes_compatible (shape_of oa) (shape_of ob)) ≡ false
    → (a : Tensor) × (b : Tensor) × (oa ≡ some a)
      × (ob ≡ some b)
      × (lora_shapes_compatible a.shape b.shape ≡ true)
both_sides none ob c s = absurd (cc)
both_sides (some a) none c s = absurd (cc)
both_sides (some a) (some b) c s = (a, b, refl, refl, true_by_not _ s)

usable : (m : LoraModule) → Fine m.target m → IsUsable m
usable m h =
    let p = both_sides m.lora_a m.lora_b h.0 h.1 in
    (p.0, p.1, p.2, p.3, p.4, (eq_iff m.context (expected_context m.target)).0 (true_by_not _ h.2))

pairs_without_blockers :
    (pairs : List LoraModule)
    → All IsCollected pairs
    → all_blockers pairs fable_packed_families ≡ []
    → All (λ t. 0 < length (filter is_complete (modules_at t pairs))) fable_lora_targets
      × All IsUsable pairs
pairs_without_blockers pairs k e =
    let passed = blocked_nowhere pairs e in
    (
      All-mono (Passed pairs) (λ t. 0 < length (filter is_complete (modules_at t pairs)))
          fable_lora_targets (λ t h. ground (arith, h.0)) passed,
      All-mono (λ m. Fine m.target m) IsUsable pairs usable
          (clean_anywhere pairs
            (λ t i. clean_in pairs t (All-is_in (Passed pairs) t fable_lora_targets passed i))
            (All-mono IsCollected (λ m. is_in m.target fable_lora_targets ≡ true) pairs (λ m h. h.0)
              k)),
    )

module _ (read_layer : String → Option ℕ) where
  -- If the smoke test of an adapter finds no blocker, each of the seven targets has a complete pair of
  -- matrices, and every module of the adapter has both matrices, of one positive rank, and stands in
  -- the part of the model where its target belongs.
  pub build_transform_smoke_report-IsUsable :
      (print : Json → String) (header : Fields) (report : SmokeReport)
      → build_transform_smoke_report print read_layer header ≡ some report
      → report.blockers ≡ []
      → All (λ t. 0 < length (filter is_complete (modules_at t report.pairs))) fable_lora_targets
        × All IsUsable report.pairs
  unfolding build_transform_smoke_report
  build_transform_smoke_report-IsUsable print header report e none_left =
      Holds_some P _ report
        (Holds-bind P (safetensor_manifest_from_header print header) _ λ manifest _ clear.
          pairs_without_blockers (collect_lora_pairs read_layer manifest)
            (collect_lora_pairs-IsCollected read_layer manifest) clear)
        e none_left
    where
      P : SmokeReport → Type 0
      P r =
          r.blockers ≡ []
          → All (λ t. 0 < length (filter is_complete (modules_at t r.pairs))) fable_lora_targets
            × All IsUsable r.pairs
