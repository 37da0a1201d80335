-- ===== src/Serve/Usage/Normal.antt =====
-- What `normalize_usage` of hydralisk/serve/receipts.py reports.
use hydralisk.Prelude.{◌≡◌, refl, ◌⊎◌, inl, inr, ◌↔◌, arith, none, some, Option-cases}
use hydralisk.Prelude.Int.{◌+ℤ◌}
use hydralisk.Json.{Fields, obj, get}
use hydralisk.Serve.Usage.{
  Usage, int_value, normalize_usage, usage_fields, prompt_keys, completion_keys, total_keys,
}

-- A receipt's usage is read back as it is: the normal form is normal.
pub normalize_usage-usage_fields :
    (u : Usage) → normalize_usage (some (obj (usage_fields u))) ≡ some u
unfolding normalize_usage int_value get
normalize_usage-usage_fields u = refl

-- Usage is reported exactly if the upstream's object gives both the prompt and the completion tokens,
-- under any of their names, and then the total is the one that it gives, or else their sum.
pub normalize_usage_iff :
    (source : Fields) (u : Usage)
    → (normalize_usage (some (obj source)) ≡ some u) ↔ (
        (int_value source prompt_keys ≡ some u.prompt_tokens)
        × (int_value source completion_keys ≡ some u.completion_tokens)
        × ((int_value source total_keys ≡ some u.total_tokens)
            ⊎ (int_value source total_keys ≡ none)
              × (u.total_tokens ≡ u.prompt_tokens +ℤ u.completion_tokens)))
unfolding normalize_usage
normalize_usage_iff source u = elim (Option-cases (int_value source prompt_keys)) [
  | inl e ↦ ground (arith, e)
  | inr (p, e) ↦ elim (Option-cases (int_value source completion_keys)) [
    | inl f ↦ ground (arith, e, f)
    | inr (c, f) ↦ elim (Option-cases (int_value source total_keys)) [
      | inl g ↦ ground (arith, e, f, g)
      | inr (t, g) ↦ ground (arith, e, f, g)
    ]
  ]
]
