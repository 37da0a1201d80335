-- ===== src/Evals/TaskId/Safe.antt =====
-- What a task id of hydralisk/evals/terminal_bench.py can contain.
use Prim.Native.Char.{code}
use hydralisk.Prelude.{
  ℕ, zero, suc, ◌≤◌, ◌≡◌, inl, inr, refl, ap, arith, String, Bool, true, false, Bool-cases,
  if_cases,
}
use hydralisk.Text.{size, is_blank, is_space, strip, rstrip}
use hydralisk.Json.{Json, Fields, str}
use hydralisk.Evals.Values.{Conversions, either, str_of}
use hydralisk.Evals.TaskId.{
  is_id_char, replace_runs, prefix, or_unknown, clean_text, clean_task_id, task_id_of,
}

abbrev pub AllIdChars : String → Type 0
AllIdChars String.[] = Unit
AllIdChars (String.◌∷◌ c s) = (is_id_char (code c) ≡ true) × AllIdChars s

-- A task id: some characters, at most 160, each a letter, a digit or one of `_.:/-`.
abbrev pub IsTaskId : String → Type 0
IsTaskId s = (is_blank s ≡ false) × (size s ≤ 160) × AllIdChars s

replace_runs-AllIdChars : (run : Bool) (s : String) → AllIdChars (replace_runs run s)
unfolding replace_runs
replace_runs-AllIdChars run String.[] = tt
replace_runs-AllIdChars run (String.◌∷◌ c s) = elim (Bool-cases (is_id_char (code c))) [
  | inl h ↦ rw (h) (h, replace_runs-AllIdChars false s)
  | inr h ↦ rw (h) (
      if_cases AllIdChars run _ _ (λ _. replace_runs-AllIdChars true s)
        (λ _. (refl, replace_runs-AllIdChars true s)))
]

prefix-AllIdChars : (n : ℕ) (s : String) → AllIdChars s → AllIdChars (prefix n s)
unfolding prefix
prefix-AllIdChars zero s h = tt
prefix-AllIdChars (suc n) String.[] h = tt
prefix-AllIdChars (suc n) (String.◌∷◌ c s) h = (h.0, prefix-AllIdChars n s h.1)

size-prefix : (n : ℕ) (s : String) → size (prefix n s) ≤ n
unfolding prefix
size-prefix zero s = omega arith
size-prefix (suc n) String.[] = omega arith
size-prefix (suc n) (String.◌∷◌ c s) = omega (arith, size-prefix n s)

prefix_all : (n : ℕ) (s : String) → size s ≤ n → prefix n s ≡ s
unfolding prefix
prefix_all zero String.[] h = refl
prefix_all zero (String.◌∷◌ c s) h = absurd (omega arith)
prefix_all (suc n) String.[] h = refl
prefix_all (suc n) (String.◌∷◌ c s) h = ap (String.◌∷◌ c) (prefix_all n s (omega arith))

replace_runs_safe : (run : Bool) (s : String) → AllIdChars s → replace_runs run s ≡ s
unfolding replace_runs
replace_runs_safe run String.[] h = refl
replace_runs_safe run (String.◌∷◌ c s) h = simp (h.0, replace_runs_safe false s h.1)

no_space : (c : ℕ) → is_id_char c ≡ true → is_space c ≡ false
no_space c h = ground arith

rstrip_safe : (s : String) → AllIdChars s → rstrip s ≡ s
rstrip_safe String.[] h = refl
rstrip_safe (String.◌∷◌ c s) h = ground (arith, rstrip_safe s h.1, no_space (code c) h.0)

strip_safe : (s : String) → AllIdChars s → strip s ≡ s
unfolding strip
strip_safe String.[] h = refl
strip_safe (String.◌∷◌ c s) h = rw (no_space (code c) h.0) (rstrip_safe (String.◌∷◌ c s) h)

or_unknown-IsTaskId : (s : String) → size s ≤ 160 → AllIdChars s → IsTaskId (or_unknown s)
or_unknown-IsTaskId String.[] l h = ground arith
or_unknown-IsTaskId (String.◌∷◌ c s) l h = (refl, l, h)

clean_text-IsTaskId : (text : String) → IsTaskId (clean_text text)
unfolding clean_text
clean_text-IsTaskId text =
    let runs = replace_runs false (strip text) in
    or_unknown-IsTaskId (prefix 160 runs) (size-prefix 160 runs)
      (prefix-AllIdChars 160 runs (replace_runs-AllIdChars false (strip text)))

-- Whatever value stands for a task, its id in a report is not empty, has at most 160 characters,
-- and each is a letter, a digit or one of `_.:/-`.
pub clean_task_id-IsTaskId : (py : Conversions) (value : Json) → IsTaskId (clean_task_id py value)
unfolding clean_task_id
clean_task_id-IsTaskId py value = clean_text-IsTaskId (str_of py (either value (str "unknown")))

clean_text_fixed : (s : String) → IsTaskId s → clean_text s ≡ s
unfolding clean_text
clean_text_fixed s (b, l, h) =
    simp (strip_safe s h, replace_runs_safe false s h, prefix_all 160 s l, b)

-- A task id is kept as it is when it is read again.
pub clean_task_id_fixed :
    (py : Conversions) (s : String) → IsTaskId s → clean_task_id py (str s) ≡ s
unfolding clean_task_id
clean_task_id_fixed py s h = rw (h.0) (clean_text_fixed s h)

pub task_id_of-IsTaskId : (py : Conversions) (task : Fields) → IsTaskId (task_id_of py task)
unfolding task_id_of
task_id_of-IsTaskId py task = clean_task_id-IsTaskId py _
