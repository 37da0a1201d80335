-- ===== src/Avatar/Session/Faults.antt =====
-- hydralisk/avatar/session.py where its surroundings raise: the egress sink, the receipt file and the
-- renderer's `close`, and the cancellation of a tick. What was done before stays done. An outcome is
-- whether the call raised, and the session after. The waits inside a `stop` are one step.
pub mod Kept
pub mod Calm
pub mod Runs
pub mod Live
pub mod Orderly
use hydralisk.Prelude.{
  ℕ, ◌+◌, ◌*◌, String, Bool, true, false, not, ◌&&◌, ◌||◌, Option, none, some, List, [], ◌∷◌, ◌++◌,
  map, length, take, leb, ltb, ◌==◌, if◌then◌else◌,
}
use hydralisk.Avatar.State.{Machine, Transition, on_interrupt}
use hydralisk.Avatar.Audio.{Sample}
use hydralisk.Avatar.Protocol.{
  ControlMessage, ControlType, speak, speak_end, interrupt, start_listening, stop_listening,
  keepalive, session_error, session_stopped,
}
use hydralisk.Avatar.Receipts.{event, summary}
use hydralisk.Avatar.Scheduler.{FrameJob, flush_audio, next_frame}
use hydralisk.Avatar.Session.{
  Session, emit, write_receipt, handle_control, end_drained, push_video, summary_of, begin_loop,
  Call, control, begins, round, stops,
}

-- Which calls of the surroundings raise, and how many chunks of audio go out before one does.
pub record Faults : Type 0 where
  pub video_raises : Bool
  pub audio_raises : Bool
  pub audio_sent : ℕ
  pub disk_raises : Bool
  pub egress_raises : Bool
  pub renderer_raises : Bool
  pub cancelled : Bool

abbrev pub no_faults : Faults
no_faults = record {
  video_raises = false;
  audio_raises = false;
  audio_sent = 0;
  disk_raises = false;
  egress_raises = false;
  renderer_raises = false;
  cancelled = false;
}

abbrev pub Outcome : Type 0 → Type 0
Outcome Frame = Bool × Session Frame

abbrev pub is_interrupt : ControlType → Bool
is_interrupt interrupt = true
is_interrupt _ = false

module _ {Frame : Type 0} where
  abbrev pub and_then : Outcome Frame → (Session Frame → Outcome Frame) → Outcome Frame
  and_then (true, s) k = (true, s)
  and_then (false, s) k = k s

  -- A step that raises before anything is done, or is done.
  abbrev pub effect : Bool → Session Frame → Session Frame → Outcome Frame
  effect true before after = (true, before)
  effect false before after = (false, after)

  abbrev pub stop_begun : String → Session Frame → Session Frame
  stop_begun reason s = record s { stopped = true; stop_reason = some reason }

  abbrev pub egress_shut : Session Frame → Session Frame
  egress_shut s = record s { egress_closed = true }

  abbrev pub renderer_shut : Session Frame → Session Frame
  renderer_shut s = record s { renderer_closed = true }

  abbrev pub summarised : String → ℕ → Session Frame → Session Frame
  summarised reason now s = record s {
    last_summary = some (summary_of reason now s);
    receipts = s.receipts ++ summary (summary_of reason now s) ∷ [];
    outbox = s.outbox ++ session_stopped reason ∷ [];
  }

  -- `stop`, step by step.
  unfoldable pub stop_with : Faults → String → ℕ → Session Frame → Outcome Frame
  stop_with f reason now s =
      if s.stopped
      then (false, s)
      else and_then
          (effect f.egress_raises (stop_begun reason s) (egress_shut (stop_begun reason s)))
          λ a.
            and_then (effect f.renderer_raises a (renderer_shut a))
              λ b. effect f.disk_raises b (summarised reason now b)

  abbrev pub push_video_with : Faults → Option Frame → Session Frame → Outcome Frame
  push_video_with f none s = (false, s)
  push_video_with f (some frame) s = effect f.video_raises s (push_video (some frame) s)

  abbrev pub push_audio_with : Faults → List (List Sample) → Session Frame → Outcome Frame
  push_audio_with f chunks s =
      effect (f.audio_raises && ltb f.audio_sent (length chunks))
        (record s { audio = s.audio ++ take f.audio_sent chunks })
        (record s { audio = s.audio ++ chunks })

  unfoldable pub finish_tick_with : Faults → FrameJob → Option Frame → Session Frame → Outcome Frame
  finish_tick_with f job frame s =
      and_then (push_video_with f frame s)
        λ a. and_then (push_audio_with f job.audio_chunks a) λ b. (false, end_drained b)

  abbrev pub report_with : Faults → Session Frame → Outcome Frame
  report_with f s =
      if s.render_failures == 1
      then effect f.disk_raises (emit (session_error "render_tick_failed") s) (
          write_receipt (event "render_tick_failed" s.scheduler.frame_number)
            (emit (session_error "render_tick_failed") s))
      else (false, s)

  unfoldable pub render_failed_with : Faults → ℕ → FrameJob → Session Frame → Outcome Frame
  render_failed_with f now job s =
      and_then (report_with f (record s { render_failures = s.render_failures + 1 })) λ a.
        if leb (s.fps * 3) (s.render_failures + 1)
        then stop_with f "render_error" now a
        else finish_tick_with f job s.last_good_frame a

  abbrev pub rendered_with : Faults → ℕ → FrameJob → Option Frame → Session Frame → Outcome Frame
  rendered_with f now job none s = render_failed_with f now job s
  rendered_with f now job (some frame) s =
      finish_tick_with f job (some frame)
        (record s { last_good_frame = some frame; render_failures = 0 })

  -- The job is taken before the wait for the renderer, which may be cancelled.
  abbrev pub job_with :
      Faults → (FrameJob → Option Frame) → ℕ → FrameJob → Session Frame → Outcome Frame
  job_with f render now job s =
      if f.cancelled then (true, s) else rendered_with f now job (render job) s

  unfoldable pub tick_with : Faults → (FrameJob → Option Frame) → ℕ → Session Frame → Outcome Frame
  tick_with f render now s = elim (next_frame s.machine.state s.scheduler) [
    | none ↦ (true, s)
    | some (job, scheduler) ↦ job_with f render now job (record s { scheduler = scheduler })
  ]

  abbrev pub reap_with : Faults → ℕ → Session Frame → Outcome Frame
  reap_with f now s =
      if ltb 0 s.keepalive_timeout && ltb (s.last_control + s.keepalive_timeout) now
      then stop_with f "keepalive_timeout" now s
      else (false, s)

  abbrev pub after_tick_with : Faults → Bool → ℕ → Session Frame → Outcome Frame
  after_tick_with f peer now s =
      if s.stopped
      then (false, s)
      else reap_with f now (if peer then record s { last_control = now } else s)

  unfoldable pub round_with :
      Faults → (FrameJob → Option Frame) → Bool → ℕ → Session Frame → Outcome Frame
  round_with f render peer now s =
      if s.stopped
      then (false, s)
      else and_then (tick_with f render now s) λ a. after_tick_with f peer now a

  -- The receipt of an interrupt raises after the machine and the buffer have changed.
  abbrev pub interrupt_lost : Option Transition × Machine → Session Frame → Outcome Frame
  interrupt_lost (none, m) s = (false, record s { machine = m })
  interrupt_lost (some t, m) s =
      (true, record s { machine = m; scheduler = flush_audio s.scheduler })

  unfoldable pub control_with : Faults → ℕ → ControlMessage → Session Frame → Outcome Frame
  control_with f now msg s =
      if is_interrupt msg.type && f.disk_raises
      then interrupt_lost (on_interrupt s.machine) (record s { last_control = now })
      else (false, (handle_control now msg s).1)

  -- A loop that has raised is over: its later rounds do not come.
  abbrev pub perform_with : Faults → Call Frame → Bool → Session Frame → Outcome Frame
  perform_with f (control now msg) dead s = control_with f now msg s
  perform_with f (begins now) dead s = (false, begin_loop now s)
  perform_with f (round render peer now) true s = (false, s)
  perform_with f (round render peer now) false s = round_with f render peer now s
  perform_with f (stops reason now) dead s = stop_with f reason now s

  abbrev pub is_round : Call Frame → Bool
  is_round (round render peer now) = true
  is_round _ = false

  -- A history, from a loop that runs or is over: whether a call raised, and the session after.
  unfoldable pub run_with : List (Faults × Call Frame) → Bool → Session Frame → Outcome Frame
  run_with [] dead s = (false, s)
  run_with ((f, c) ∷ cs) dead s =
      let o = perform_with f c dead s in
      let later = run_with cs (dead || is_round c && o.0) o.1 in (o.0 || later.0, later.1)

  abbrev pub without_faults : List (Call Frame) → List (Faults × Call Frame)
  without_faults = map (λ c. (no_faults, c))

  abbrev pub calls_of : List (Faults × Call Frame) → List (Call Frame)
  calls_of = map (λ p. p.1)
