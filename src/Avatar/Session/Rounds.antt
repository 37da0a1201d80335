-- ===== src/Avatar/Session/Rounds.antt =====
-- The invariant of a session of hydralisk/avatar/session.py over the rounds of its render loop.
use mathlib.Core.Path.{subst}
use hydralisk.Prelude.{
  ℕ, ◌+◌, ◌*◌, ◌≡◌, inl, inr, String, Bool, ◌&&◌, Option, none, some, List, arith, ltb, leb, ◌==◌,
  if_cases, some_path, Option-cases, drop-nil,
}
use hydralisk.Avatar.State.{Machine, Transition, Event, step, on_audio_drained}
use hydralisk.Avatar.State.History.{step-IsValid, initial-IsValid}
use hydralisk.Avatar.State.History
use hydralisk.Avatar.Audio.{Sample}
use hydralisk.Avatar.Scheduler.{FrameScheduler, FrameJob, audio_drained, next_frame}
use hydralisk.Avatar.Scheduler.Audio.{IsReady}
use hydralisk.Avatar.Scheduler.Frames.{next_frame-Carries}
use hydralisk.Avatar.Session.{
  Session, end_drained, finish_tick, stop, render_failed, tick_async, loop_round, loop_body,
}
use hydralisk.Avatar.Scheduler.Drain.{next_frame-rates, next_frame_rest}
use hydralisk.Avatar.Session.Invariant.{IsQuiet, IsLive, IsLiveSession}
use hydralisk.Avatar.Session.{after_drained, after_tick, report_failure, rendered, reap}

-- The scheduler after a frame of the machine's state.
pub framed-IsLive :
    (m : Machine) (t : FrameScheduler) (job : FrameJob) (t' : FrameScheduler)
    → next_frame m.state t ≡ some (job, t')
    → IsLive m t
    → IsLive m t'
framed-IsLive m t job t' e v = record {
  machine = v.machine;
  ready = ((next_frame-Carries m.state t job t' v.ready e).valid, sized);
  quiet = λ h. still (v.quiet h);
}
  where
    sized : t'.assembler.chunk_samples ≡ t'.chunk_samples
    sized =
        ground
          (arith, v.ready, next_frame-rates m.state t job t' e, next_frame_rest m.state t job t' e)

    still : IsQuiet t → IsQuiet t'
    still q = ground (
      arith,
      next_frame_rest m.state t job t' e,
      drop-nil {A = List Sample} t.audio_chunks_per_frame,
    )

module _ {Frame : Type 0} where
  after_drained-IsLive :
      (ended : Option String) (r : Option Transition × Machine) (s : Session Frame)
      → History.IsValid r.1
      → IsReady s.scheduler
      → IsQuiet s.scheduler
      → IsLiveSession (after_drained ended r s)
  after_drained-IsLive ended (none, m) s v ready q = record {
    machine = v;
    ready = ready;
    quiet = λ _. q;
  }
  after_drained-IsLive ended (some t, m) s v ready q = record {
    machine = v;
    ready = ready;
    quiet = λ _. q;
  }

  pub end_drained-IsLive : (s : Session Frame) → IsLiveSession s → IsLiveSession (end_drained s)
  unfolding end_drained step
  end_drained-IsLive s v =
      if_cases IsLiveSession (s.machine.end_pending && audio_drained s.scheduler) _ _
        (λ h.
          after_drained-IsLive s.machine.active_event_id (on_audio_drained s.machine) s
            (step-IsValid Event.audio_drained s.machine v.machine) v.ready (ground arith))
        (λ _. v)

  finish_tick-IsLive :
      (job : FrameJob) (frame : Option Frame) (s : Session Frame)
      → IsLiveSession s
      → IsLiveSession (finish_tick job frame s)
  unfolding finish_tick
  finish_tick-IsLive job none s v = end_drained-IsLive _ v
  finish_tick-IsLive job (some f) s v = end_drained-IsLive _ v

  pub stop-IsLive :
      (reason : String) (now : ℕ) (s : Session Frame)
      → IsLiveSession s
      → IsLiveSession (stop reason now s)
  unfolding stop
  stop-IsLive reason now s v = if_cases IsLiveSession s.stopped _ _ (λ _. v) (λ _. v)

  render_failed-IsLive :
      (now : ℕ) (job : FrameJob) (s : Session Frame)
      → IsLiveSession s
      → IsLiveSession (render_failed now job s)
  unfolding render_failed
  render_failed-IsLive now job s v =
      if_cases IsLiveSession (leb (s.fps * 3) (s.render_failures + 1)) _ _
        (λ _. stop-IsLive "render_error" now _ reported)
        (λ _. finish_tick-IsLive job s.last_good_frame _ reported)
    where
      reported :
          IsLiveSession (report_failure (record s { render_failures = s.render_failures + 1 }))
      reported = if_cases IsLiveSession (s.render_failures + 1 == 1) _ _ (λ _. v) (λ _. v)

  rendered-IsLive :
      (now : ℕ) (job : FrameJob) (outcome : Option Frame) (s : Session Frame)
      → IsLiveSession s
      → IsLiveSession (rendered now job outcome s)
  rendered-IsLive now job none s v = render_failed-IsLive now job s v
  rendered-IsLive now job (some f) s v = finish_tick-IsLive job (some f) _ v

  pub tick_async-IsLive :
      (render : FrameJob → Option Frame) (now : ℕ) (s s' : Session Frame)
      → IsLiveSession s
      → tick_async render now s ≡ some s'
      → IsLiveSession s'
  unfolding tick_async
  tick_async-IsLive render now s s' v e =
      elim (Option-cases (next_frame s.machine.state s.scheduler)) [
        | inl f ↦ absurd (ground (arith, f))
        | inr ((job, t), f) ↦
            let same : rendered now job (render job) (record s { scheduler = t }) ≡ s' =
              ground (arith, f) in
            subst IsLiveSession same (
              rendered-IsLive now job (render job) _
                (framed-IsLive s.machine s.scheduler job t f v))
      ]

  reap-IsLive : (now : ℕ) (s : Session Frame) → IsLiveSession s → IsLiveSession (reap now s)
  reap-IsLive now s v =
      if_cases IsLiveSession
        (ltb 0 s.keepalive_timeout && ltb (s.last_control + s.keepalive_timeout) now) _ _
        (λ _. stop-IsLive "keepalive_timeout" now s v) (λ _. v)

  after_tick-IsLive :
      (peer : Bool) (now : ℕ) (s : Session Frame)
      → IsLiveSession s
      → IsLiveSession (after_tick peer now s)
  after_tick-IsLive peer now s v =
      if_cases IsLiveSession s.stopped _ _ (λ _. v)
        (λ _. reap-IsLive now _ (if_cases IsLiveSession peer _ _ (λ _. v) (λ _. v)))

  loop_body-IsLive :
      (render : FrameJob → Option Frame) (peer : Bool) (now : ℕ) (s s' : Session Frame)
      → IsLiveSession s
      → loop_body render peer now s ≡ some s'
      → IsLiveSession s'
  unfolding loop_body
  loop_body-IsLive render peer now s s' v e = elim (Option-cases (tick_async render now s)) [
    | inl f ↦ absurd (ground (arith, f))
    | inr (t, f) ↦
        let same : after_tick peer now t ≡ s' = ground (arith, f) in
        subst IsLiveSession same
          (after_tick-IsLive peer now t (tick_async-IsLive render now s t v f))
  ]

  pub loop_round-IsLive :
      (render : FrameJob → Option Frame) (peer : Bool) (now : ℕ) (s s' : Session Frame)
      → IsLiveSession s
      → loop_round render peer now s ≡ some s'
      → IsLiveSession s'
  unfolding loop_round
  loop_round-IsLive render peer now s s' v =
      if_cases (λ o. o ≡ some s' → IsLiveSession s') s.stopped _ _
        (λ _ e. subst IsLiveSession (some_path e) v)
        (λ _ e. loop_body-IsLive render peer now s s' v e)
