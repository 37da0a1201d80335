-- ===== src/Evals/Job/Groups.antt =====
-- How hydralisk/evals/terminal_bench.py puts the trials of a job together by task.
use hydralisk.Prelude.{
  ◌≡◌, ◌∙◌, sym, ap, refl, arith, String, Bool, true, false, List, [], ◌∷◌, ◌++◌, append-nil,
  append_assoc, str_eq, eq_iff, if◌then◌else◌,
}
use hydralisk.Evals.Tasks.{Status}
use hydralisk.Evals.Harbor.{Attempts, add_attempt, group_trials}

unfoldable pub attempts_at : String → Attempts → List Status
attempts_at id [] = []
attempts_at id ((k, statuses) ∷ rest) = if str_eq k id then statuses else attempts_at id rest

-- The statuses of the trials of one task.
abbrev pub statuses_of : String → List (String × Status) → List Status
statuses_of id [] = []
statuses_of id ((k, status) ∷ trials) =
    let rest = statuses_of id trials in if str_eq k id then status ∷ rest else rest

attempts_at-add_attempt :
    (id k : String) (status : Status) (attempts : Attempts)
    → attempts_at id (add_attempt k status attempts)
      ≡ attempts_at id attempts ++ (if str_eq k id then status ∷ [] else [])
unfolding attempts_at add_attempt
attempts_at-add_attempt id k status [] = refl
attempts_at-add_attempt id k status ((j, statuses) ∷ rest) = ground (
  arith,
  eq_iff k id,
  eq_iff j k,
  eq_iff j id,
  append-nil statuses,
  append-nil (attempts_at id rest),
  attempts_at-add_attempt id k status rest,
)

if_append :
    (b : Bool) (s : Status) (rest : List Status)
    → (if b then s ∷ [] else []) ++ rest ≡ (if b then s ∷ rest else rest)
if_append true s rest = refl
if_append false s rest = refl

group_trials_from :
    (id : String) (trials : List (String × Status)) (attempts : Attempts)
    → attempts_at id (group_trials trials attempts)
      ≡ attempts_at id attempts ++ statuses_of id trials
unfolding group_trials
group_trials_from id [] attempts = sym (append-nil (attempts_at id attempts))
group_trials_from id ((k, status) ∷ trials) attempts =
    group_trials_from id trials (add_attempt k status attempts)
    ∙ ap (λ xs. xs ++ statuses_of id trials) (attempts_at-add_attempt id k status attempts)
    ∙ append_assoc (attempts_at id attempts) _ (statuses_of id trials)
    ∙ ap (λ xs. attempts_at id attempts ++ xs)
        (if_append (str_eq k id) status (statuses_of id trials))

-- Each task gets exactly the statuses of its own trials, in the order of the trials.
pub attempts_at-group_trials :
    (id : String) (trials : List (String × Status))
    → attempts_at id (group_trials trials []) ≡ statuses_of id trials
unfolding attempts_at
attempts_at-group_trials id trials = group_trials_from id trials []
