-- ===== src/Avatar/Session/Faults/Calm.antt =====
-- A session of hydralisk/avatar/session.py where nothing of its surroundings raises.
use hydralisk.Prelude.{
  ℕ, ◌+◌, ◌*◌, ◌≡◌, ◌∙◌, ap, refl, inl, inr, Bool, true, false, ◌&&◌, ◌||◌, Option, none, some,
  List, [], ◌∷◌, String, arith, leb, ltb, ◌==◌, if_cases, if◌then◌else◌, Option-cases,
}
use hydralisk.Avatar.Protocol.{ControlMessage}
use hydralisk.Avatar.Scheduler.{FrameScheduler, FrameJob, next_frame}
use hydralisk.Avatar.Session.{
  Session, Call, control, begins, round, stops, stop, finish_tick, render_failed, rendered, reap,
  after_tick, loop_round, loop_body, tick_async, report_failure, handle_control, perform, run,
}
use hydralisk.Avatar.Session.Faults.{
  Outcome, no_faults, without_faults, and_then, stop_with, finish_tick_with, report_with,
  render_failed_with, rendered_with, job_with, tick_with, reap_with, after_tick_with, round_with,
  control_with, perform_with, run_with, is_interrupt, is_round,
}

module _ {Frame : Type 0} where
  -- Nothing is raised.
  abbrev settled : Session Frame → Outcome Frame
  settled s = (false, s)

  if_settled :
      (b : Bool) (x y : Session Frame) (o p : Outcome Frame)
      → o ≡ settled x
      → p ≡ settled y
      → (if b then o else p) ≡ settled (if b then x else y)
  if_settled true x y o p h k = h
  if_settled false x y o p h k = k

  stop_with_calm :
      (reason : String) (now : ℕ) (s : Session Frame)
      → stop_with no_faults reason now s ≡ settled (stop reason now s)
  unfolding stop_with stop
  stop_with_calm reason now s = if_settled s.stopped _ _ _ _ refl refl

  finish_tick_with_calm :
      (job : FrameJob) (frame : Option Frame) (s : Session Frame)
      → finish_tick_with no_faults job frame s ≡ settled (finish_tick job frame s)
  unfolding finish_tick_with finish_tick
  finish_tick_with_calm job none s = refl
  finish_tick_with_calm job (some frame) s = refl

  report_with_calm : (s : Session Frame) → report_with no_faults s ≡ settled (report_failure s)
  report_with_calm s = if_settled (s.render_failures == 1) _ _ _ _ refl refl

  render_failed_with_calm :
      (now : ℕ) (job : FrameJob) (s : Session Frame)
      → render_failed_with no_faults now job s ≡ settled (render_failed now job s)
  unfolding render_failed_with render_failed
  render_failed_with_calm now job s =
      ap (λ o. and_then o rest)
        (report_with_calm (record s { render_failures = s.render_failures + 1 }))
      ∙ if_settled (leb (s.fps * 3) (s.render_failures + 1)) _ _ _ _
          (stop_with_calm "render_error" now _) (finish_tick_with_calm job s.last_good_frame _)
    where
      rest : Session Frame → Outcome Frame
      rest a =
          if leb (s.fps * 3) (s.render_failures + 1)
          then stop_with no_faults "render_error" now a
          else finish_tick_with no_faults job s.last_good_frame a

  rendered_with_calm :
      (now : ℕ) (job : FrameJob) (outcome : Option Frame) (s : Session Frame)
      → rendered_with no_faults now job outcome s ≡ settled (rendered now job outcome s)
  rendered_with_calm now job none s = render_failed_with_calm now job s
  rendered_with_calm now job (some frame) s = finish_tick_with_calm job (some frame) _

  after_tick_with_calm :
      (peer : Bool) (now : ℕ) (s : Session Frame)
      → after_tick_with no_faults peer now s ≡ settled (after_tick peer now s)
  after_tick_with_calm peer now s = if_settled s.stopped _ _ _ _ refl (reaped _)
    where
      reaped : (t : Session Frame) → reap_with no_faults now t ≡ settled (reap now t)
      reaped t =
          if_settled (ltb 0 t.keepalive_timeout && ltb (t.last_control + t.keepalive_timeout) now) _
            _ _ _ (stop_with_calm "keepalive_timeout" now t) refl

  loop_body_calm :
      (render : FrameJob → Option Frame) (peer : Bool) (now : ℕ) (s s' : Session Frame)
      → loop_body render peer now s ≡ some s'
      → and_then (tick_with no_faults render now s) (after_tick_with no_faults peer now)
        ≡ settled s'
  unfolding loop_body tick_async tick_with
  loop_body_calm render peer now s s' e = by_job (next_frame s.machine.state s.scheduler) e
    where
      by_job :
          (o : Option (FrameJob × FrameScheduler))
          → (elim (elim o as (λ _. Option (Session Frame)) [
            | none ↦ none
            | some (job, t) ↦ some (rendered now job (render job) (record s { scheduler = t }))
          ])
              as (λ _. Option (Session Frame)) [
                | none ↦ none
                | some t ↦ some (after_tick peer now t)
              ])
            ≡ some s'
          → and_then
              (elim o as (λ _. Outcome Frame) [
                | none ↦ (true, s)
                | some (job, t) ↦ job_with no_faults render now job (record s { scheduler = t })
              ])
              (after_tick_with no_faults peer now)
            ≡ settled s'
      by_job none e = absurd (cc)
      by_job (some (job, t)) e =
          ap (λ o. and_then o (after_tick_with no_faults peer now))
            (rendered_with_calm now job (render job) (record s { scheduler = t }))
          ∙ after_tick_with_calm peer now _
          ∙ ap settled (cc)

  round_with_calm :
      (render : FrameJob → Option Frame) (peer : Bool) (now : ℕ) (s s' : Session Frame)
      → loop_round render peer now s ≡ some s'
      → round_with no_faults render peer now s ≡ settled s'
  unfolding loop_round round_with
  round_with_calm render peer now s s' e = by_flag s.stopped e
    where
      by_flag :
          (b : Bool)
          → (if b then some s else loop_body render peer now s) ≡ some s'
          → (if b
              then (false, s)
              else and_then (tick_with no_faults render now s) (after_tick_with no_faults peer now))
            ≡ settled s'
      by_flag true h = ap settled (cc)
      by_flag false h = loop_body_calm render peer now s s' h

  control_with_calm :
      (now : ℕ) (msg : ControlMessage) (s : Session Frame)
      → control_with no_faults now msg s ≡ settled (handle_control now msg s).1
  unfolding control_with
  control_with_calm now msg s =
      if_cases {A = Outcome Frame} (λ o. o ≡ settled (handle_control now msg s).1)
        (is_interrupt msg.type && false) _ _ (λ e. absurd (ground (arith, e))) (λ _. refl)

  perform_with_calm :
      (c : Call Frame) (s s' : Session Frame)
      → perform c s ≡ some s'
      → perform_with no_faults c false s ≡ settled s'
  perform_with_calm (control now msg) s s' e = control_with_calm now msg s ∙ ap settled (cc)
  perform_with_calm (begins now) s s' e = ap settled (cc)
  perform_with_calm (round render peer now) s s' e = round_with_calm render peer now s s' e
  perform_with_calm (stops reason now) s s' e = stop_with_calm reason now s ∙ ap settled (cc)

  pub run_with_calm :
      (cs : List (Call Frame)) (s s' : Session Frame)
      → run cs s ≡ some s'
      → run_with (without_faults cs) false s ≡ (false, s')
  unfolding run run_with
  run_with_calm [] s s' e = ap settled (cc)
  run_with_calm (c ∷ cs) s s' e = elim (Option-cases (perform c s)) [
    | inl f ↦ absurd (ground (arith, f))
    | inr (t, f) ↦
        ap (later (is_round c)) (perform_with_calm c s t f)
        ∙ went_on (is_round c) t (run_with_calm cs t s' (ground (arith, f)))
  ]
    where
      later : Bool → Outcome Frame → Outcome Frame
      later r o = let rest = run_with (without_faults cs) (r && o.0) o.1 in (o.0 || rest.0, rest.1)

      went_on :
          (r : Bool) (t : Session Frame)
          → run_with (without_faults cs) false t ≡ settled s'
          → later r (settled t) ≡ settled s'
      went_on true t h = h
      went_on false t h = h
