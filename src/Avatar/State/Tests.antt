-- ===== src/Avatar/State/Tests.antt =====
-- Examples for hydralisk/avatar/state.py.
use hydralisk.Prelude.{◌≡◌, none, some, List, [], ◌∷◌}
use hydralisk.Avatar.State.{Event, speak, speak_end, audio_drained, interrupt, run, initial}
use hydralisk.Avatar.State.History.{IsValid, run-initial-IsValid}
use hydralisk.Avatar.State.Refines.{view, cycles, resting, run-initial-refines}

abbrev two_utterances : List Event
two_utterances =
    speak "a" ∷ interrupt ∷ speak "b" ∷ speak_end (some "a") ∷ speak_end none ∷ audio_drained ∷ []

run-initial-IsValid_example : IsValid (run two_utterances initial)
run-initial-IsValid_example = run-initial-IsValid two_utterances

run-initial-refines_example : view (run two_utterances initial) ≡ cycles two_utterances resting
run-initial-refines_example = run-initial-refines two_utterances
