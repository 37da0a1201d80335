-- ===== src/Avatar/State/Refines.antt =====
-- The machine of hydralisk/avatar/state.py against the turn cycle that its documentation gives.
use hydralisk.Prelude.{
  String, ◌≡◌, refl, Bool, true, false, Option, none, some, List, [], ◌∷◌, arith, eq_iff, str_eq,
  if◌then◌else◌, ◌∙◌, ap, Option-cases, inl, inr,
}
use hydralisk.Avatar.State.{
  AvatarState, idle, listening, speaking, Machine, Event, initial, step, run, speak, speak_end,
  audio_drained, interrupt, start_listening, stop_listening,
}
use hydralisk.Avatar.State.History.{IsValid, step-IsValid, initial-IsValid}

-- A turn: nobody speaks, the client does, or the avatar speaks the utterance `id`, which may have
-- been declared complete.
pub data Turn : Type 0 where
  resting hearing : Turn
  talking finishing : String → Turn

-- The turn cycle, a row for each turn.
pub cycle : Event → Turn → Turn
cycle (speak e) (talking a) = talking e
cycle (speak e) (finishing a) = if str_eq e a then finishing a else talking e
cycle (speak e) _ = talking e
cycle (speak_end none) (talking a) = finishing a
cycle (speak_end (some e)) (talking a) = if str_eq e a then finishing a else talking a
cycle audio_drained (finishing a) = resting
cycle interrupt (talking a) = hearing
cycle interrupt (finishing a) = hearing
cycle start_listening resting = hearing
cycle stop_listening hearing = resting
cycle _ t = t

pub cycles : List Event → Turn → Turn
cycles [] t = t
cycles (e ∷ es) t = cycles es (cycle e t)

abbrev view_parts : AvatarState → Option String → Bool → Turn
view_parts idle active pending = resting
view_parts listening active pending = hearing
view_parts speaking none pending = resting
view_parts speaking (some a) true = finishing a
view_parts speaking (some a) false = talking a

abbrev pub view : Machine → Turn
view m = view_parts m.state m.active_event_id m.end_pending

step-refines : (e : Event) (m : Machine) → IsValid m → view (step e m) ≡ cycle e (view m)
unfolding step cycle
step-refines (speak e) m v = elim (Option-cases m.active_event_id) [
  | inl n ↦ ground (arith, v.heard, v.quiet)
  | inr (a, p) ↦ ground (arith, eq_iff e a)
]
step-refines (speak_end e) m v = ground arith
step-refines _ m v = ground arith

run-refines : (es : List Event) (m : Machine) → IsValid m → view (run es m) ≡ cycles es (view m)
unfolding run cycles
run-refines [] m v = refl
run-refines (e ∷ es) m v =
    run-refines es (step e m) (step-IsValid e m v) ∙ ap (cycles es) (step-refines e m v)

-- The machine refines the turn cycle: after any calls, what it shows of its state, active utterance
-- and pending end is the turn that the cycle reaches from rest.
pub run-initial-refines : (es : List Event) → view (run es initial) ≡ cycles es resting
run-initial-refines es = run-refines es initial initial-IsValid
