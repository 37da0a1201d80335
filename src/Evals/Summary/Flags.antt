-- ===== src/Evals/Summary/Flags.antt =====
-- What hydralisk/evals/terminal_bench.py makes of the count flags of its command line.
use hydralisk.Prelude.{
  ℕ, ◌≡◌, refl, arith, Option, none, some, [], ◌==◌, ◌||◌, if◌then◌else◌, ◌>>=◌, Bool-cases, inl,
  inr,
}
use hydralisk.Prelude.Int.{ℤ, pos}
use hydralisk.Json.{int, get}
use hydralisk.Evals.Values.{Conversions, truthy, either, int_from}
use hydralisk.Evals.Tally.{Counts, total}
use hydralisk.Evals.Summary.{
  TaskSummary, CountFlags, count_at, id_list, read_counts, read_ids, counts_from_summary,
  payload_from_flags, number, number_or_zero,
}

-- A flag that is missing or zero gives way to another number.
abbrev pub flag_or : Option ℤ → ℤ → ℤ
flag_or none other = other
flag_or (some z) other = if truthy (int z) then z else other

abbrev pub reported : CountFlags → Counts → TaskSummary
reported flags c = record {
  counts = c;
  attempts_total = pos 0;
  pass_at_1_known = flag_or flags.pass_at_1_known_tasks (pos 0);
  pass_at_1_solved = flag_or flags.pass_at_1_solved (pos 0);
  pass_at_n_solved = flag_or flags.pass_at_n_any_solved (pos c.solved);
  task_ids = record { solved = []; failing = []; env_broken = []; not_started = [] };
}

abbrev pub given : ℕ → Counts → (any_solved solved_first known_tasks : Option ℤ) → CountFlags
given n c any_solved solved_first known_tasks = record {
  total = some (pos n);
  solved = some (pos c.solved);
  failing = some (pos c.failing);
  env_broken = some (pos c.env_broken);
  not_started = some (pos c.not_started);
  pass_at_n_any_solved = any_solved;
  pass_at_1_solved = solved_first;
  pass_at_1_known_tasks = known_tasks;
}

int_from-number :
    (py : Conversions) (flag : Option ℤ) (other : ℤ)
    → int_from py (either (number flag) (int other)) ≡ some (flag_or flag other)
int_from-number py none other = refl
int_from-number py (some z) other = ground arith

int_from-number_or_zero :
    (py : Conversions) (flag : Option ℤ)
    → int_from py (either (number_or_zero flag) (int (pos 0))) ≡ some (flag_or flag (pos 0))
int_from-number_or_zero py none = refl
int_from-number_or_zero py (some z) = ground arith

-- Counts given by flags are reported as they are if the total is 0 or their sum, and refused
-- otherwise; a pass number that is missing or zero is reported as 0, and that of passes in any
-- attempt as the number of solved tasks.
pub counts_from_summary-payload_from_flags :
    (py : Conversions) (n : ℕ) (c : Counts) (any_solved solved_first known_tasks : Option ℤ)
    → (payload_from_flags (given n c any_solved solved_first known_tasks)
        >>= counts_from_summary py)
      ≡ (if n == 0 || n == total c
          then some (reported (given n c any_solved solved_first known_tasks) c)
          else none)
unfolding counts_from_summary payload_from_flags read_counts read_ids count_at id_list get
counts_from_summary-payload_from_flags py n c any_solved solved_first known_tasks =
    elim (Bool-cases (n == 0 || n == total c)) [
      | inl e ↦ simp (e, int_from-number, int_from-number_or_zero)
      | inr e ↦ rw (e) refl
    ]
