-- ===== src/Avatar/Session/Invariant.antt =====
-- The invariant of a session of hydralisk/avatar/session.py.
use hydralisk.Prelude.{
  ℕ, ◌≡◌, ◌≢◌, refl, ◌∙◌, String, not, ◌&&◌, Option, none, some, List, [], ◌∷◌, arith, if_cases,
}
use hydralisk.Avatar.State.{
  speaking, Machine, Transition, Event, step, on_speak, on_speak_end, on_interrupt,
  on_start_listening, on_stop_listening,
}
use hydralisk.Avatar.State.History.{step-IsValid, initial-IsValid}
use hydralisk.Avatar.State.History
use hydralisk.Avatar.Audio.{Sample, push, flush_tail, clear}
use hydralisk.Avatar.Audio.Stream.{
  push-IsValid, chunk_samples-flush_tail, flush_tail-IsValid, clear-IsValid,
}
use hydralisk.Avatar.Protocol.{
  ControlMessage, ControlType, speak, speak_end, interrupt, start_listening, stop_listening,
  keepalive,
}
use hydralisk.Avatar.Scheduler.{FrameScheduler, put_pcm, end_of_utterance, flush_audio}
use hydralisk.Avatar.Scheduler.Audio.{IsReady}
use hydralisk.Avatar.Session.{
  Session, is_some, same_event, or_empty, put_optional, control_speak, control_speak_end,
  control_interrupt, after_interrupt, control_listening, handle_control, dispatch,
}

-- No speech is buffered.
abbrev pub IsQuiet : FrameScheduler → Type 0
IsQuiet s = (s.assembler.chunks ≡ []) × (s.assembler.pending ≡ [])

-- The machine and the scheduler are in order, and speech is buffered only while the avatar speaks.
pub record IsLive (m : Machine) (s : FrameScheduler) : Type 0 where
  pub machine : History.IsValid m
  pub ready : IsReady s
  pub quiet : m.state ≢ speaking → IsQuiet s

put_pcm-IsReady : (pcm : List Sample) (s : FrameScheduler) → IsReady s → IsReady (put_pcm pcm s)
unfolding put_pcm push
put_pcm-IsReady [] s v = v
put_pcm-IsReady (x ∷ xs) s v = (push-IsValid (x ∷ xs) s.assembler v.0, v.1)

end_of_utterance-IsReady : (s : FrameScheduler) → IsReady s → IsReady (end_of_utterance s)
unfolding end_of_utterance
end_of_utterance-IsReady s v =
    (flush_tail-IsValid s.assembler v.0, chunk_samples-flush_tail s.assembler ∙ v.1)

flush_audio-IsReady : (s : FrameScheduler) → IsReady s → IsReady (flush_audio s)
unfolding flush_audio clear
flush_audio-IsReady s v = (clear-IsValid s.assembler v.0, v.1)

end_of_utterance-IsQuiet : (s : FrameScheduler) → IsQuiet s → IsQuiet (end_of_utterance s)
unfolding end_of_utterance flush_tail
end_of_utterance-IsQuiet s q = ground arith

put_optional-IsReady :
    (pcm : Option (List Sample)) (s : FrameScheduler) → IsReady s → IsReady (put_optional pcm s)
put_optional-IsReady none s v = v
put_optional-IsReady (some pcm) s v = put_pcm-IsReady pcm s v

pub on_speak_speaks : (e : String) (m : Machine) → (on_speak e m).1.state ≡ speaking
unfolding on_speak
on_speak_speaks e m = ground arith

on_speak_end_state : (e : Option String) (m : Machine) → (on_speak_end e m).state ≡ m.state
unfolding on_speak_end
on_speak_end_state e m = ground arith

on_interrupt-none : (m : Machine) → (on_interrupt m).0 ≡ none → (on_interrupt m).1.state ≡ m.state
unfolding on_interrupt
on_interrupt-none m h = ground arith

start_listening_step : (m : Machine) → (on_start_listening m).1 ≡ step Event.start_listening m
unfolding step
start_listening_step m = refl

start_listening_keeps :
    (m : Machine) → m.state ≡ speaking → (on_start_listening m).1.state ≡ speaking
unfolding on_start_listening
start_listening_keeps m h = ground arith

stop_listening_step : (m : Machine) → (on_stop_listening m).1 ≡ step Event.stop_listening m
unfolding step
stop_listening_step m = refl

stop_listening_keeps : (m : Machine) → m.state ≡ speaking → (on_stop_listening m).1.state ≡ speaking
unfolding on_stop_listening
stop_listening_keeps m h = ground arith

module _ {Frame : Type 0} where
  abbrev pub IsLiveSession : Session Frame → Type 0
  IsLiveSession s = IsLive s.machine s.scheduler

  control_speak-IsLive :
      (msg : ControlMessage) (s : Session Frame)
      → IsLiveSession s
      → IsLiveSession (control_speak msg s).1
  unfolding control_speak step
  control_speak-IsLive msg s v = record {
    machine = step-IsValid (Event.speak (or_empty msg.event_id)) s.machine v.machine;
    ready = put_optional-IsReady msg.pcm _ (
        if_cases IsReady
          (not (same_event msg.event_id s.machine.active_event_id)
            && is_some s.machine.active_event_id)
          _ _ (λ _. flush_audio-IsReady s.scheduler v.ready) (λ _. v.ready));
    quiet = λ h. absurd (h (on_speak_speaks (or_empty msg.event_id) s.machine));
  }

  control_speak_end-IsLive :
      (msg : ControlMessage) (s : Session Frame)
      → IsLiveSession s
      → IsLiveSession (control_speak_end msg s).1
  unfolding control_speak_end step
  control_speak_end-IsLive msg s v = record {
    machine = step-IsValid (Event.speak_end msg.event_id) s.machine v.machine;
    ready = end_of_utterance-IsReady s.scheduler v.ready;
    quiet = λ h.
        end_of_utterance-IsQuiet s.scheduler
          (v.quiet (λ e. h (on_speak_end_state msg.event_id s.machine ∙ e)));
  }

  pub control_interrupt-IsLive :
      (s : Session Frame) → IsLiveSession s → IsLiveSession (control_interrupt s).1
  unfolding control_interrupt step flush_audio clear
  control_interrupt-IsLive s v =
      by_transition (on_interrupt s.machine) (step-IsValid Event.interrupt s.machine v.machine)
        (on_interrupt-none s.machine)
    where
      by_transition :
          (r : Option Transition × Machine)
          → History.IsValid r.1
          → (r.0 ≡ none → r.1.state ≡ s.machine.state)
          → IsLiveSession (after_interrupt r s).1
      by_transition (none, m) valid same = record {
        machine = valid;
        ready = v.ready;
        quiet = λ h. v.quiet (λ e. h (same refl ∙ e));
      }
      by_transition (some t, m) valid same = record {
        machine = valid;
        ready = flush_audio-IsReady s.scheduler v.ready;
        quiet = λ _. (refl, refl);
      }

  control_listening-IsLive :
      (e : Event) (listen : Machine → Option Transition × Machine) (s : Session Frame)
      → ((m : Machine) → (listen m).1 ≡ step e m)
      → ((m : Machine) → m.state ≡ speaking → (listen m).1.state ≡ speaking)
      → IsLiveSession s
      → IsLiveSession (control_listening listen s).1
  unfolding control_listening
  control_listening-IsLive e listen s same keeps v = record {
    machine = rw same (step-IsValid e s.machine v.machine);
    ready = v.ready;
    quiet = λ h. v.quiet (λ p. h (keeps s.machine p));
  }

  -- Every control message keeps a session live.
  pub handle_control-IsLive :
      (now : ℕ) (msg : ControlMessage) (s : Session Frame)
      → IsLiveSession s
      → IsLiveSession (handle_control now msg s).1
  unfolding handle_control
  handle_control-IsLive now msg s v = by_type msg.type
    where
      heard : Session Frame
      heard = record s { last_control = now }

      by_type : (t : ControlType) → IsLiveSession (dispatch t msg heard).1
      by_type keepalive = v
      by_type speak = control_speak-IsLive msg heard v
      by_type speak_end = control_speak_end-IsLive msg heard v
      by_type interrupt = control_interrupt-IsLive heard v
      by_type start_listening =
          control_listening-IsLive Event.start_listening on_start_listening heard
            start_listening_step start_listening_keeps v
      by_type stop_listening =
          control_listening-IsLive Event.stop_listening on_stop_listening heard stop_listening_step
            stop_listening_keeps v
