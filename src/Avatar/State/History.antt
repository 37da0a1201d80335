-- ===== src/Avatar/State/History.antt =====
-- The invariant of hydralisk/avatar/state.py, and what the log of transitions records.
use hydralisk.Prelude.{ℕ, ◌+◌, ◌≡◌, refl, ◌≢◌, false, none, List, [], ◌∷◌, ◌++◌, arith}
use hydralisk.Avatar.State.{
  AvatarState, idle, listening, speaking, Reason, Transition, Machine, Event, initial, step, run,
  speak, speak_end, audio_drained, interrupt, start_listening, stop_listening,
}

-- The edges of the turn cycle, by the reason that each is logged with.
pub data Edge : AvatarState → Reason → AvatarState → Type 0 where
  speaks : (s : AvatarState) → s ≢ speaking → Edge s Reason.speak speaking
  drains : Edge speaking Reason.speak_drained idle
  interrupts : Edge speaking Reason.interrupt listening
  starts_listening : Edge idle Reason.start_listening listening
  stops_listening : Edge listening Reason.stop_listening idle

-- A walk along edges, in the order of the log.
abbrev pub Walk : AvatarState → List Transition → AvatarState → Type 0
Walk s [] t = s ≡ t
Walk s (x ∷ xs) t = (s ≡ x.previous) × Edge x.previous x.reason x.current × Walk x.current xs t

Walk-snoc :
    (s : AvatarState) (xs : List Transition) (x : Transition)
    → Walk s xs x.previous
    → Edge x.previous x.reason x.current
    → Walk s (xs ++ x ∷ []) x.current
Walk-snoc s [] x w e = (w, e, refl)
Walk-snoc s (y ∷ xs) x w e = (w.0, w.1, Walk-snoc y.current xs x w.2 e)

abbrev pub interrupts_in : List Transition → ℕ
interrupts_in [] = 0
interrupts_in (x ∷ xs) = is_interrupt x.reason + interrupts_in xs
  where
    is_interrupt : Reason → ℕ
    is_interrupt Reason.interrupt = 1
    is_interrupt _ = 0

pub record IsValid (m : Machine) : Type 0 where
  pub heard : m.state ≡ speaking → m.active_event_id ≢ none
  pub quiet : m.state ≢ speaking → (m.active_event_id ≡ none) × (m.end_pending ≡ false)
  pub walk : Walk idle m.transitions m.state
  pub counted : m.interrupts ≡ interrupts_in m.transitions

interrupts_in-append :
    (xs ys : List Transition) → interrupts_in (xs ++ ys) ≡ interrupts_in xs + interrupts_in ys
interrupts_in-append [] ys = omega arith
interrupts_in-append (x ∷ xs) ys = omega (arith, interrupts_in-append xs ys)

-- The log entry of a move of `m`.
abbrev entry : Machine → AvatarState → Reason → Transition
entry m s r = record { previous = m.state; current = s; reason = r }

abbrev Grown : Machine → AvatarState → Reason → Type 0
Grown m s r =
    Walk idle m.transitions m.state
    → Edge m.state r s
    → Walk idle (m.transitions ++ entry m s r ∷ []) s

grow : (m : Machine) (s : AvatarState) (r : Reason) → Grown m s r
grow m s r = Walk-snoc idle m.transitions (entry m s r)

step-Walk :
    (e : Event) (m : Machine)
    → Walk idle m.transitions m.state
    → Walk idle (step e m).transitions (step e m).state
unfolding step
step-Walk (speak e) m w = ground (arith, grow m speaking Reason.speak, speaks m.state)
step-Walk (speak_end e) m w = ground arith
step-Walk audio_drained m w = ground (arith, grow m idle Reason.speak_drained, drains)
step-Walk interrupt m w = ground (arith, grow m listening Reason.interrupt, interrupts)
step-Walk start_listening m w =
    ground (arith, grow m listening Reason.start_listening, starts_listening)
step-Walk stop_listening m w = ground (arith, grow m idle Reason.stop_listening, stops_listening)

step-counted :
    (e : Event) (m : Machine)
    → m.interrupts ≡ interrupts_in m.transitions
    → (step e m).interrupts ≡ interrupts_in (step e m).transitions
unfolding step
step-counted (speak e) m h =
    ground (arith, interrupts_in-append m.transitions (entry m speaking Reason.speak ∷ []))
step-counted (speak_end e) m h = ground arith
step-counted audio_drained m h =
    ground (arith, interrupts_in-append m.transitions (entry m idle Reason.speak_drained ∷ []))
step-counted interrupt m h =
    ground (arith, interrupts_in-append m.transitions (entry m listening Reason.interrupt ∷ []))
step-counted start_listening m h =
    ground
      (arith, interrupts_in-append m.transitions (entry m listening Reason.start_listening ∷ []))
step-counted stop_listening m h =
    ground (arith, interrupts_in-append m.transitions (entry m idle Reason.stop_listening ∷ []))

step-quiet :
    (e : Event) (m : Machine)
    → IsValid m
    → (step e m).state ≢ speaking
    → ((step e m).active_event_id ≡ none) × ((step e m).end_pending ≡ false)
unfolding step
step-quiet (speak e) m v = ground arith
step-quiet (speak_end e) m v = ground arith
step-quiet _ m v = ground arith

step-heard :
    (e : Event) (m : Machine)
    → IsValid m
    → (step e m).state ≡ speaking
    → (step e m).active_event_id ≢ none
unfolding step
step-heard (speak e) m v = ground arith
step-heard (speak_end e) m v = ground arith
step-heard _ m v = ground arith

pub step-IsValid : (e : Event) (m : Machine) → IsValid m → IsValid (step e m)
step-IsValid e m v = record {
  heard = step-heard e m v;
  quiet = step-quiet e m v;
  walk = step-Walk e m v.walk;
  counted = step-counted e m v.counted;
}

run-IsValid : (es : List Event) (m : Machine) → IsValid m → IsValid (run es m)
unfolding run
run-IsValid [] m v = v
run-IsValid (e ∷ es) m v = run-IsValid es (step e m) (step-IsValid e m v)

pub initial-IsValid : IsValid initial
initial-IsValid = record {
  heard = λ e. absurd (cc e);
  quiet = λ h. (refl, refl);
  walk = refl;
  counted = refl;
}

-- Whatever calls a session makes, in whatever order: an utterance is active exactly while the
-- machine speaks, an end is pending only then, the log is a walk along the edges of the turn cycle
-- from idle to the present state, and `interrupts` counts its interrupts.
pub run-initial-IsValid : (es : List Event) → IsValid (run es initial)
run-initial-IsValid es = run-IsValid es initial initial-IsValid
