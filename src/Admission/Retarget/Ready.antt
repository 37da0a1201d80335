-- ===== src/Admission/Retarget/Ready.antt =====
-- The plan of hydralisk/admission/deepseek_v4_fable.py is ready exactly if the adapter fits the runtime.
use hydralisk.Prelude.{
  ◌≡◌, ◌∙◌, sym, ap, refl, arith, String, Bool, true, false, not, ◌&&◌, some, List, [], ◌∷◌, map,
  str_eq, eq_iff, All, Bool-cases, inl, inr, Holds-bind, Holds_some,
}
use hydralisk.Text.{is_in, sorted_set}
use hydralisk.Json.{Json, Fields}
use hydralisk.Admission.Targets.{
  AdapterTargetMatch, CompatibilityReport, match_target, adapter_targets, is_matched,
  missing_targets, none_left, report_of, build_report,
}
use hydralisk.Admission.Retarget.{
  RetargetStatus, direct_attachable, packed_transform_required, source_inventory_required,
  unmapped_unknown, Classification, classify_packed, classify_retarget_target, matches_at,
  same_status, targets_with, PlanStatus, ready_for_private_adapter_load_canary, plan_status,
  classify_all, build_retarget_plan_report,
}

abbrev pub is_ready : PlanStatus → Bool
is_ready ready_for_private_adapter_load_canary = true
is_ready _ = false

abbrev is_direct : RetargetStatus → Bool
is_direct direct_attachable = true
is_direct _ = false

abbrev all_direct : List Classification → Bool
all_direct [] = true
all_direct (c ∷ cs) = is_direct c.status && all_direct cs

plan_status_ready :
    (i u p : List String)
    → is_ready (plan_status i u p) ≡ (none_left i && none_left u && none_left p)
plan_status_ready [] [] [] = refl
plan_status_ready [] [] (x ∷ p) = refl
plan_status_ready [] (x ∷ u) p = refl
plan_status_ready (x ∷ i) u p = refl

none_with :
    (s : RetargetStatus) (c : Classification) (cs : List Classification)
    → none_left (targets_with s (c ∷ cs))
      ≡ (not (same_status c.status s) && none_left (targets_with s cs))
none_with s c cs = elim (Bool-cases (same_status c.status s)) [
  | inl e ↦ rw (e) refl
  | inr e ↦ rw (e) refl
]

abbrev all_clear : List Classification → Bool
all_clear cs =
    none_left (targets_with source_inventory_required cs)
    && none_left (targets_with unmapped_unknown cs)
    && none_left (targets_with packed_transform_required cs)

by_status :
    (s : RetargetStatus) (a b c : Bool)
    → ((not (same_status s source_inventory_required) && a)
        && (not (same_status s unmapped_unknown) && b)
        && (not (same_status s packed_transform_required) && c))
      ≡ (is_direct s && (a && b && c))
by_status direct_attachable a b c = refl
by_status packed_transform_required a b c = ground arith
by_status source_inventory_required a b c = refl
by_status unmapped_unknown a b c = ground arith

all_clear_direct : (cs : List Classification) → all_clear cs ≡ all_direct cs
all_clear_direct [] = refl
all_clear_direct (c ∷ cs) =
    rw
      (
        none_with source_inventory_required c cs,
        none_with unmapped_unknown c cs,
        none_with packed_transform_required c cs,
      )
      (by_status c.status _ _ _ ∙ ap (λ b. is_direct c.status && b) (all_clear_direct cs))

-- A target that is packed is not direct.
classify_packed_status :
    (target : String) (names : List String)
    → is_direct (classify_packed target names).status ≡ false
unfolding classify_packed
classify_packed_status target names =
    elim (Bool-cases (is_in target ("q_proj" ∷ "k_proj" ∷ "v_proj" ∷ []))) [
      | inl e ↦ rw (e) refl
      | inr e ↦ elim (Bool-cases (is_in target ("gate_proj" ∷ "up_proj" ∷ []))) [
        | inl f ↦ rw (e, f) refl
        | inr f ↦ elim (Bool-cases (str_eq target "o_proj")) [
          | inl g ↦ rw (e, f, g) refl
          | inr g ↦ rw (e, f, g) refl
        ]
      ]
    ]

classify_status :
    (target : String) (direct names : List String)
    → is_direct (classify_retarget_target target direct names).status ≡ not (none_left direct)
unfolding classify_retarget_target
classify_status target [] names = classify_packed_status target names
classify_status target (m ∷ direct) names = refl

target_of-map :
    (names : List String) (ts : List String)
    → map (λ n. n.target) (map (match_target names) ts) ≡ ts
unfolding match_target
target_of-map names [] = refl
target_of-map names (t ∷ ts) = ap (λ us. t ∷ us) (target_of-map names ts)

found :
    (t u : String) (ts : List String)
    → is_in t (u ∷ ts) ≡ true
    → is_in t ts ≡ false
    → str_eq t u ≡ true
found t u ts h e = ground (arith, h, e)

matches_at-map :
    (names : List String) (t : String) (ts : List String)
    → is_in t ts ≡ true
    → matches_at t (map (match_target names) ts) ≡ (match_target names t).matched_runtime_modules
unfolding matches_at match_target
matches_at-map names t [] h = absurd (cc)
matches_at-map names t (u ∷ ts) h = elim (Bool-cases (is_in t ts)) [
  | inl e ↦ rw (target_of-map names ts, e) (matches_at-map names t ts e)
  | inr e ↦
      let same = found t u ts h e in
      rw (target_of-map names ts, e, same)
        (ap (λ x. (match_target names x).matched_runtime_modules) (sym ((eq_iff t u).0 same)))
]

not_empty_matched :
    (names : List String) (t : String)
    → not (none_left (match_target names t).matched_runtime_modules)
      ≡ is_matched (match_target names t)
not_empty_matched names t = by_list (match_target names t).matched_runtime_modules
  where
    by_list : (xs : List String) → not (none_left xs) ≡ elim xs [ [] ↦ false | x ∷ rest ↦ true ]
    by_list [] = refl
    by_list (x ∷ rest) = refl

missing_step :
    (m : AdapterTargetMatch) (ms : List AdapterTargetMatch)
    → none_left (missing_targets (m ∷ ms)) ≡ (is_matched m && none_left (missing_targets ms))
missing_step m ms = elim (Bool-cases (is_matched m)) [ inl e ↦ rw (e) refl | inr e ↦ rw (e) refl ]

-- Over a part of the targets of a report: all are direct exactly if none is missing.
direct_unless_missing :
    (report : CompatibilityReport) (names all ts : List String)
    → report.matches ≡ map (match_target names) all
    → All (λ t. is_in t all ≡ true) ts
    → all_direct (classify_all report ts)
      ≡ none_left (missing_targets (map (match_target names) ts))
direct_unless_missing report names all [] e h = refl
direct_unless_missing report names all (t ∷ ts) e h =
    ap (λ b. b && all_direct (classify_all report ts))
      (classify_status t (matches_at t report.matches) report.module_names
        ∙ ap (λ xs. not (none_left xs)) (ap (matches_at t) e ∙ matches_at-map names t all h.0)
        ∙ not_empty_matched names t)
    ∙ ap (λ b. is_matched (match_target names t) && b)
        (direct_unless_missing report names all ts e h.1)
    ∙ sym (missing_step (match_target names t) (map (match_target names) ts))

in_longer :
    (x : String) (all ts : List String)
    → All (λ t. is_in t all ≡ true) ts
    → All (λ t. is_in t (x ∷ all) ≡ true) ts
in_longer x all [] h = tt
in_longer x all (t ∷ ts) h = (ground (arith, h.0), in_longer x all ts h.1)

in_itself : (ts : List String) → All (λ t. is_in t ts ≡ true) ts
in_itself [] = tt
in_itself (t ∷ ts) = (ground (arith, eq_iff t t), in_longer t ts ts (in_itself ts))

plan_ready :
    (targets runtime_modules : List String)
    → is_ready (build_retarget_plan_report (report_of targets runtime_modules)).status
      ≡ (report_of targets runtime_modules).can_attempt_private_adapter_load
unfolding build_retarget_plan_report report_of
plan_ready targets runtime_modules =
    let report = report_of targets runtime_modules in
    plan_status_ready _ _ _
    ∙ all_clear_direct (classify_all report targets)
    ∙ direct_unless_missing report (sorted_set runtime_modules) targets targets refl
        (in_itself targets)

-- The plan for an adapter is ready for its load canary exactly if the compatibility report lets the
-- adapter be loaded, that is if each of its targets has a module in the runtime's inventory.
pub build_retarget_plan_report-build_report :
    (print : Json → String) (adapter_config : Fields) (runtime_modules : List String)
    (report : CompatibilityReport)
    → build_report print adapter_config runtime_modules ≡ some report
    → is_ready (build_retarget_plan_report report).status ≡ report.can_attempt_private_adapter_load
unfolding build_report
build_retarget_plan_report-build_report print adapter_config runtime_modules report e =
    Holds_some P _ report
      (Holds-bind P (adapter_targets print adapter_config) _
        λ targets _. plan_ready targets runtime_modules)
      e
  where
    P : CompatibilityReport → Type 0
    P r = is_ready (build_retarget_plan_report r).status ≡ r.can_attempt_private_adapter_load
