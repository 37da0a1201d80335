-- ===== src/Avatar/Session/Faults/Runs.antt =====
-- Any history of a session of hydralisk/avatar/session.py, whatever raises.
use hydralisk.Prelude.{
  ℕ, ◌+◌, ◌*◌, ◌≡◌, refl, Bool, true, false, ◌&&◌, Option, none, some, List, [], ◌∷◌, ◌++◌, String,
  leb, ltb, length, take, if_cases,
}
use hydralisk.Avatar.Audio.{Sample}
use hydralisk.Avatar.Protocol.{ControlMessage}
use hydralisk.Avatar.Scheduler.{FrameScheduler, FrameJob, next_frame}
use hydralisk.Avatar.Session.{Session, Call, control, begins, round, stops, end_drained, push_video}
use hydralisk.Avatar.Session.Faults.{
  Faults, Outcome, stop_with, push_video_with, push_audio_with, finish_tick_with, report_with,
  render_failed_with, rendered_with, job_with, tick_with, reap_with, after_tick_with, round_with,
  control_with, perform_with, run_with,
}
use hydralisk.Avatar.Session.Faults.Kept.{and_then-Leaves, effect-Leaves}

module _ {Frame : Type 0} where
  -- What the steps of a session keep, whatever raises.
  pub record IsClosed (P : Session Frame → Type 0) : Type 0 where
    pub heard : (now : ℕ) (s : Session Frame) → P s → P (record s { last_control = now })
    pub failed : (n : ℕ) (s : Session Frame) → P s → P (record s { render_failures = n })
    pub shown :
        (frame : Frame) (s : Session Frame)
        → P s
        → P (record s { last_good_frame = some frame; render_failures = 0 })
    pub framed :
        (s : Session Frame) (job : FrameJob) (t : FrameScheduler)
        → next_frame s.machine.state s.scheduler ≡ some (job, t)
        → P s
        → P (record s { scheduler = t })
    pub stops_with :
        (f : Faults) (reason : String) (now : ℕ) (s : Session Frame)
        → P s
        → P (stop_with f reason now s).1
    pub reports_with : (f : Faults) (s : Session Frame) → P s → P (report_with f s).1
    pub finishes_with :
        (f : Faults) (job : FrameJob) (frame : Option Frame) (s : Session Frame)
        → P s
        → P (finish_tick_with f job frame s).1
    pub controls_with :
        (f : Faults) (now : ℕ) (msg : ControlMessage) (s : Session Frame)
        → P s
        → P (control_with f now msg s).1

  pub finish_tick_with-Leaves :
      (P : Session Frame → Type 0)
      → ((s : Session Frame) (frame : Frame) → P s → P (push_video (some frame) s))
      → ((s : Session Frame) (chunks : List (List Sample))
          → P s
          → P (record s { audio = s.audio ++ chunks }))
      → ((s : Session Frame) → P s → P (end_drained s))
      → (f : Faults) (job : FrameJob) (frame : Option Frame) (s : Session Frame) → P s
      → P (finish_tick_with f job frame s).1
  unfolding finish_tick_with
  finish_tick_with-Leaves P video sound drained f job frame s v =
      and_then-Leaves P (push_video_with f frame s) _ (pushed frame) λ a va.
        and_then-Leaves P (push_audio_with f job.audio_chunks a) _
          (effect-Leaves P (f.audio_raises && ltb f.audio_sent (length job.audio_chunks)) _ _
            (sound a (take f.audio_sent job.audio_chunks) va) (sound a job.audio_chunks va))
          drained
    where
      pushed : (o : Option Frame) → P (push_video_with f o s).1
      pushed none = v
      pushed (some frame) = effect-Leaves P f.video_raises s _ v (video s frame v)

  module _ (P : Session Frame → Type 0) (closed : IsClosed P) where
    render_failed_with-Leaves :
        (f : Faults) (now : ℕ) (job : FrameJob) (s : Session Frame)
        → P s
        → P (render_failed_with f now job s).1
    unfolding render_failed_with
    render_failed_with-Leaves f now job s v =
        and_then-Leaves P (report_with f (record s { render_failures = s.render_failures + 1 })) _
          (closed.reports_with f _ (closed.failed _ s v))
          λ a va.
            if_cases {A = Outcome Frame} (λ o. P o.1) (leb (s.fps * 3) (s.render_failures + 1)) _ _
              (λ _. closed.stops_with f "render_error" now a va)
              (λ _. closed.finishes_with f job s.last_good_frame a va)

    rendered_with-Leaves :
        (f : Faults) (now : ℕ) (job : FrameJob) (outcome : Option Frame) (s : Session Frame)
        → P s
        → P (rendered_with f now job outcome s).1
    rendered_with-Leaves f now job none s v = render_failed_with-Leaves f now job s v
    rendered_with-Leaves f now job (some frame) s v =
        closed.finishes_with f job (some frame) _ (closed.shown frame s v)

    tick_with-Leaves :
        (f : Faults) (render : FrameJob → Option Frame) (now : ℕ) (s : Session Frame)
        → P s
        → P (tick_with f render now s).1
    unfolding tick_with
    tick_with-Leaves f render now s v = by_job (next_frame s.machine.state s.scheduler) refl
      where
        by_job :
            (o : Option (FrameJob × FrameScheduler))
            → next_frame s.machine.state s.scheduler ≡ o
            → P
                (elim o as (λ _. Outcome Frame) [
                  | none ↦ (true, s)
                  | some (job, t) ↦ job_with f render now job (record s { scheduler = t })
                ]).1
        by_job none e = v
        by_job (some (job, t)) e =
            if_cases {A = Outcome Frame} (λ o. P o.1) f.cancelled _ _
              (λ _. closed.framed s job t e v)
              (λ _. rendered_with-Leaves f now job (render job) _ (closed.framed s job t e v))

    after_tick_with-Leaves :
        (f : Faults) (peer : Bool) (now : ℕ) (s : Session Frame)
        → P s
        → P (after_tick_with f peer now s).1
    after_tick_with-Leaves f peer now s v =
        if_cases {A = Outcome Frame} (λ o. P o.1) s.stopped _ _ (λ _. v)
          (λ _. reaped _ (if_cases P peer _ _ (λ _. closed.heard now s v) (λ _. v)))
      where
        reaped : (t : Session Frame) → P t → P (reap_with f now t).1
        reaped t w =
            if_cases {A = Outcome Frame} (λ o. P o.1)
              (ltb 0 t.keepalive_timeout && ltb (t.last_control + t.keepalive_timeout) now) _ _
              (λ _. closed.stops_with f "keepalive_timeout" now t w) (λ _. w)

    round_with-Leaves :
        (f : Faults) (render : FrameJob → Option Frame) (peer : Bool) (now : ℕ) (s : Session Frame)
        → P s
        → P (round_with f render peer now s).1
    unfolding round_with
    round_with-Leaves f render peer now s v =
        if_cases {A = Outcome Frame} (λ o. P o.1) s.stopped _ _ (λ _. v)
          (λ _.
            and_then-Leaves P (tick_with f render now s) _ (tick_with-Leaves f render now s v)
              (after_tick_with-Leaves f peer now))

    perform_with-Leaves :
        (f : Faults) (c : Call Frame) (dead : Bool) (s : Session Frame)
        → P s
        → P (perform_with f c dead s).1
    perform_with-Leaves f (control now msg) dead s v = closed.controls_with f now msg s v
    perform_with-Leaves f (begins now) dead s v = closed.heard now s v
    perform_with-Leaves f (round render peer now) true s v = v
    perform_with-Leaves f (round render peer now) false s v =
        round_with-Leaves f render peer now s v
    perform_with-Leaves f (stops reason now) dead s v = closed.stops_with f reason now s v

    pub run_with-Leaves :
        (cs : List (Faults × Call Frame)) (dead : Bool) (s : Session Frame)
        → P s
        → P (run_with cs dead s).1
    unfolding run_with
    run_with-Leaves [] dead s v = v
    run_with-Leaves ((f, c) ∷ cs) dead s v =
        run_with-Leaves cs _ (perform_with f c dead s).1 (perform_with-Leaves f c dead s v)
