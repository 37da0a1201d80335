-- ===== src/Avatar/State.antt =====
-- hydralisk/avatar/state.py: the idle, listening, speaking machine of one avatar session.
-- `AvatarStateMachine` is the record `Machine`; a method returns the transition that it made and
-- the new machine. The texts of `Transition.reason` are the constructors of `Reason`.
pub mod History
pub mod Refines
pub mod Tests
use hydralisk.Prelude.{
  ℕ, ◌+◌, String, Bool, true, false, not, ◌&&◌, Option, none, some, List, [], ◌∷◌, ◌++◌, str_eq,
  if◌then◌else◌,
}

pub data AvatarState : Type 0 where
  idle listening speaking : AvatarState

pub data Reason : Type 0 where
  speak speak_drained interrupt start_listening stop_listening : Reason

pub record Transition : Type 0 where
  pub previous : AvatarState
  pub current : AvatarState
  pub reason : Reason

pub record Machine : Type 0 where
  pub state : AvatarState
  pub active_event_id : Option String
  pub end_pending : Bool
  pub interrupts : ℕ
  pub utterances : ℕ
  pub transitions : List Transition

abbrev pub initial : Machine
initial = record {
  state = idle;
  active_event_id = none;
  end_pending = false;
  interrupts = 0;
  utterances = 0;
  transitions = [];
}

abbrev pub same_state : AvatarState → AvatarState → Bool
same_state idle idle = true
same_state listening listening = true
same_state speaking speaking = true
same_state _ _ = false

-- `event_id == self.active_event_id`, where the latter may be `None`.
abbrev pub is_active : String → Option String → Bool
is_active e none = false
is_active e (some a) = str_eq e a

unfoldable pub move : AvatarState → Reason → Machine → Option Transition × Machine
move target reason m = if same_state target m.state then (none, m) else (
  some transition,
  record m { state = target; transitions = m.transitions ++ transition ∷ [] },
)
  where
    transition : Transition
    transition = record { previous = m.state; current = target; reason = reason }

unfoldable pub on_speak : String → Machine → Option Transition × Machine
unfolding move
on_speak e m = move speaking Reason.speak (
    if is_active e m.active_event_id
    then m
    else record m { active_event_id = some e; utterances = m.utterances + 1; end_pending = false })

-- `event_id is not None and event_id != self.active_event_id`
abbrev pub is_stale : Option String → Option String → Bool
is_stale none active = false
is_stale (some e) active = not (is_active e active)

unfoldable pub on_speak_end : Option String → Machine → Machine
on_speak_end e m =
    if is_stale e m.active_event_id
    then m
    else if same_state m.state speaking
    then record m { end_pending = true }
    else m

unfoldable pub on_audio_drained : Machine → Option Transition × Machine
unfolding move
on_audio_drained m =
    if same_state m.state speaking && m.end_pending
    then move idle Reason.speak_drained (record m { end_pending = false; active_event_id = none })
    else (none, m)

unfoldable pub on_interrupt : Machine → Option Transition × Machine
unfolding move
on_interrupt m =
    if same_state m.state speaking
    then move listening Reason.interrupt
        (record m { interrupts = m.interrupts + 1; active_event_id = none; end_pending = false })
    else (none, m)

unfoldable pub on_start_listening : Machine → Option Transition × Machine
unfolding move
on_start_listening m =
    if same_state m.state speaking then (none, m) else move listening Reason.start_listening m

unfoldable pub on_stop_listening : Machine → Option Transition × Machine
unfolding move
on_stop_listening m =
    if same_state m.state listening then move idle Reason.stop_listening m else (none, m)

-- The calls that a session makes on its machine, as data.
pub data Event : Type 0 where
  speak : String → Event
  speak_end : Option String → Event
  audio_drained interrupt start_listening stop_listening : Event

unfoldable pub step : Event → Machine → Machine
unfolding on_speak on_speak_end on_audio_drained on_interrupt on_start_listening on_stop_listening
step (speak e) m = (on_speak e m).1
step (speak_end e) m = on_speak_end e m
step audio_drained m = (on_audio_drained m).1
step interrupt m = (on_interrupt m).1
step start_listening m = (on_start_listening m).1
step stop_listening m = (on_stop_listening m).1

unfoldable pub run : List Event → Machine → Machine
run [] m = m
run (e ∷ es) m = run es (step e m)
