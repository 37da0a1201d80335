-- ===== src/Avatar/Session.antt =====
-- hydralisk/avatar/session.py: `AvatarSession`, one live avatar stream.
-- Time is a number of milliseconds that each call is given. The renderer is the outcome of its
-- `render` on the job at hand: a frame, or `none` where it raises. The outbox, the receipts and what
-- was pushed to the egress sink are lists, oldest first. The log, the watchdog thread and the task
-- that runs the loop are left out: a session is the state that its methods read and write. The methods
-- stand here as they go where only the renderer's `render` raises; Session/Faults.antt has them where
-- the egress, the receipt file or the closing calls raise too.
pub mod Invariant
pub mod Control
pub mod Rounds
pub mod Runs
pub mod Ending
pub mod Failures
pub mod Drains
pub mod Faults
pub mod Tests
use hydralisk.Prelude.{
  ℕ, zero, suc, ◌+◌, ◌-◌, ◌*◌, ◌/◌, String, Bool, true, false, not, ◌&&◌, Option, none, some, List,
  [], ◌∷◌, ◌++◌, ltb, leb, ◌==◌, str_eq, if◌then◌else◌,
}
use hydralisk.Avatar.State
use hydralisk.Avatar.State.{
  AvatarState, Machine, Transition, is_active, on_speak, on_speak_end, on_audio_drained,
  on_interrupt, on_start_listening, on_stop_listening,
}
use hydralisk.Avatar.Audio.{Sample}
use hydralisk.Avatar.Protocol.{
  ControlMessage, ControlType, speak, speak_end, interrupt, start_listening, stop_listening,
  keepalive, ServerEvent, session_state, speak_started, speak_ended, keepalive_ack, session_error,
  session_stopped,
}
use hydralisk.Avatar.Receipts.{Summary, Receipt, started, event, summary, billable_minutes}
use hydralisk.Avatar.Scheduler.{
  FrameScheduler, FrameJob, put_pcm, end_of_utterance, flush_audio, audio_drained, next_frame,
}

pub record Session (Frame : Type 0) : Type 0 where
  pub fps : ℕ
  pub keepalive_timeout : ℕ
  pub machine : Machine
  pub scheduler : FrameScheduler
  pub created : ℕ
  pub last_control : ℕ
  pub stopped : Bool
  pub stop_reason : Option String
  pub last_summary : Option Summary
  pub outbox : List ServerEvent
  pub receipts : List Receipt
  pub video : List Frame
  pub audio : List (List Sample)
  pub egress_closed : Bool
  pub renderer_closed : Bool
  pub last_good_frame : Option Frame
  pub render_failures : ℕ

abbrev pub state_events : Option Transition → Machine → List ServerEvent
state_events none m = []
state_events (some t) m = session_state m.state ∷ []

-- `message.event_id == previous_event`
abbrev pub same_event : Option String → Option String → Bool
same_event none none = true
same_event (some e) active = is_active e active
same_event _ _ = false

abbrev pub or_empty : Option String → String
or_empty none = ""
or_empty (some e) = e

abbrev pub is_some {ℓ} : {A : Type ℓ} → Option A → Bool
is_some none = false
is_some (some a) = true

abbrev pub put_optional : Option (List Sample) → FrameScheduler → FrameScheduler
put_optional none s = s
put_optional (some pcm) s = put_pcm pcm s

module _ {Frame : Type 0} where
  abbrev pub emit : ServerEvent → Session Frame → Session Frame
  emit e s = record s { outbox = s.outbox ++ e ∷ [] }

  abbrev pub write_receipt : Receipt → Session Frame → Session Frame
  write_receipt r s = record s { receipts = s.receipts ++ r ∷ [] }

  -- `AvatarSession(…)`, and the receipt that `start` writes.
  unfoldable pub start : ℕ → ℕ → FrameScheduler → ℕ → Session Frame
  start fps timeout scheduler now = record {
    fps = fps;
    keepalive_timeout = timeout;
    machine = State.initial;
    scheduler = scheduler;
    created = now;
    last_control = now;
    stopped = false;
    stop_reason = none;
    last_summary = none;
    outbox = [];
    receipts = started ∷ [];
    video = [];
    audio = [];
    egress_closed = false;
    renderer_closed = false;
    last_good_frame = none;
    render_failures = 0;
  }

  -- The branches of `handle_control`, each on the session whose clock is already set.
  unfoldable pub control_speak : ControlMessage → Session Frame → List ServerEvent × Session Frame
  control_speak msg s =
      let previous = s.machine.active_event_id in
      let (transition, machine) = on_speak (or_empty msg.event_id) s.machine in
      let same = same_event msg.event_id previous in
      let flushed = if not same && is_some previous then flush_audio s.scheduler else s.scheduler in
      (
        (if same then [] else speak_started msg.event_id ∷ []) ++ state_events transition machine,
        record s { machine = machine; scheduler = put_optional msg.pcm flushed },
      )

  unfoldable pub control_speak_end :
      ControlMessage → Session Frame → List ServerEvent × Session Frame
  control_speak_end msg s = (
    [],
    record s {
      machine = on_speak_end msg.event_id s.machine;
      scheduler = end_of_utterance s.scheduler;
    },
  )

  abbrev pub after_interrupt :
      Option Transition × Machine → Session Frame → List ServerEvent × Session Frame
  after_interrupt (none, m) s = ([], record s { machine = m })
  after_interrupt (some t, m) s = (
    session_state m.state ∷ [],
    record s {
      machine = m;
      scheduler = flush_audio s.scheduler;
      receipts = s.receipts ++ event "interrupt" m.interrupts ∷ [];
    },
  )

  unfoldable pub control_interrupt : Session Frame → List ServerEvent × Session Frame
  control_interrupt s = after_interrupt (on_interrupt s.machine) s

  unfoldable pub control_listening :
      (Machine → Option Transition × Machine) → Session Frame → List ServerEvent × Session Frame
  control_listening listen s =
      let (transition, m) = listen s.machine in
      (state_events transition m, record s { machine = m })

  abbrev pub dispatch :
      ControlType → ControlMessage → Session Frame → List ServerEvent × Session Frame
  dispatch keepalive msg s = (keepalive_ack ∷ [], s)
  dispatch speak msg s = control_speak msg s
  dispatch speak_end msg s = control_speak_end msg s
  dispatch interrupt msg s = control_interrupt s
  dispatch start_listening msg s = control_listening on_start_listening s
  dispatch stop_listening msg s = control_listening on_stop_listening s

  -- The events for the client, and the session after.
  unfoldable pub handle_control :
      ℕ → ControlMessage → Session Frame → List ServerEvent × Session Frame
  handle_control now msg s = dispatch msg.type msg (record s { last_control = now })

  abbrev pub after_drained :
      Option String → Option Transition × Machine → Session Frame → Session Frame
  after_drained ended (none, m) s = record s { machine = m }
  after_drained ended (some t, m) s =
      emit (session_state m.state) (emit (speak_ended ended) (record s { machine = m }))

  -- The end of `_finish_tick`.
  unfoldable pub end_drained : Session Frame → Session Frame
  end_drained s =
      if s.machine.end_pending && audio_drained s.scheduler
      then after_drained s.machine.active_event_id (on_audio_drained s.machine) s
      else s

  abbrev pub push_video : Option Frame → Session Frame → Session Frame
  push_video none s = s
  push_video (some f) s = record s { video = s.video ++ f ∷ [] }

  unfoldable pub finish_tick : FrameJob → Option Frame → Session Frame → Session Frame
  finish_tick job frame s = end_drained (
      let pushed = push_video frame s in record pushed { audio = pushed.audio ++ job.audio_chunks })

  -- The receipt of the end.
  abbrev pub summary_of : String → ℕ → Session Frame → Summary
  summary_of reason now s = record {
    millis = now - s.created;
    minutes = billable_minutes (now - s.created);
    frames_rendered = s.scheduler.frames_rendered;
    speaking_frames = s.scheduler.speaking_frames;
    interrupts = s.machine.interrupts;
    utterances = s.machine.utterances;
    stop_reason = reason;
  }

  unfoldable pub stop : String → ℕ → Session Frame → Session Frame
  stop reason now s = if s.stopped then s else record s {
    stopped = true;
    stop_reason = some reason;
    egress_closed = true;
    renderer_closed = true;
    last_summary = some (summary_of reason now s);
    receipts = s.receipts ++ summary (summary_of reason now s) ∷ [];
    outbox = s.outbox ++ session_stopped reason ∷ [];
  }

  -- The first of a row of render failures is told to the client and to the receipts.
  abbrev pub report_failure : Session Frame → Session Frame
  report_failure s =
      if s.render_failures == 1
      then write_receipt (event "render_tick_failed" s.scheduler.frame_number)
          (emit (session_error "render_tick_failed") s)
      else s

  unfoldable pub render_failed : ℕ → FrameJob → Session Frame → Session Frame
  render_failed now job s =
      let reported = report_failure (record s { render_failures = s.render_failures + 1 }) in
      if leb (s.fps * 3) (s.render_failures + 1)
      then stop "render_error" now reported
      else finish_tick job s.last_good_frame reported

  abbrev pub rendered : ℕ → FrameJob → Option Frame → Session Frame → Session Frame
  rendered now job none s = render_failed now job s
  rendered now job (some f) s =
      finish_tick job (some f) (record s { last_good_frame = some f; render_failures = 0 })

  -- `tick_async`; `none` is an exception of the scheduler, which is outside of the `try`.
  unfoldable pub tick_async : (FrameJob → Option Frame) → ℕ → Session Frame → Option (Session Frame)
  tick_async render now s = elim (next_frame s.machine.state s.scheduler) [
    | none ↦ none
    | some (job, scheduler) ↦
        some (rendered now job (render job) (record s { scheduler = scheduler }))
  ]

  abbrev pub reap : ℕ → Session Frame → Session Frame
  reap now s =
      if ltb 0 s.keepalive_timeout && ltb (s.last_control + s.keepalive_timeout) now
      then stop "keepalive_timeout" now s
      else s

  abbrev pub after_tick : Bool → ℕ → Session Frame → Session Frame
  after_tick peer now s =
      if s.stopped then s else reap now (if peer then record s { last_control = now } else s)

  -- The clock of the keepalive starts again with the loop.
  abbrev pub begin_loop : ℕ → Session Frame → Session Frame
  begin_loop now s = record s { last_control = now }

  -- The body of `render_loop`; `peer` is whether a WebRTC peer is connected.
  unfoldable pub loop_body :
      (FrameJob → Option Frame) → Bool → ℕ → Session Frame → Option (Session Frame)
  loop_body render peer now s = elim (tick_async render now s) [
    | none ↦ none
    | some s' ↦ some (after_tick peer now s')
  ]

  -- One round of the loop, which is over once the session is stopped.
  unfoldable pub loop_round :
      (FrameJob → Option Frame) → Bool → ℕ → Session Frame → Option (Session Frame)
  loop_round render peer now s = if s.stopped then some s else loop_body render peer now s

-- What happens to a session, as data: a control message, the start of its loop, a round of it, and a
-- call of `stop`.
pub data Call (Frame : Type 0) : Type 0 where
  control : ℕ → ControlMessage → Call Frame
  begins : ℕ → Call Frame
  round : (FrameJob → Option Frame) → Bool → ℕ → Call Frame
  stops : String → ℕ → Call Frame

module _ {Frame : Type 0} where
  abbrev pub perform : Call Frame → Session Frame → Option (Session Frame)
  perform (control now msg) s = some (handle_control now msg s).1
  perform (begins now) s = some (begin_loop now s)
  perform (round render peer now) s = loop_round render peer now s
  perform (stops reason now) s = some (stop reason now s)

  unfoldable pub run : List (Call Frame) → Session Frame → Option (Session Frame)
  run [] s = some s
  run (c ∷ cs) s = elim (perform c s) [ none ↦ none | some s' ↦ run cs s' ]
