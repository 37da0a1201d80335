-- ===== src/Avatar/Session/Ending.antt =====
-- The end of a session of hydralisk/avatar/session.py: one summary, and why a session ends.
use mathlib.Core.Path.{subst}
use hydralisk.Prelude.{
  ℕ, suc, ◌+◌, ◌*◌, ◌≡◌, refl, inl, inr, String, Bool, true, false, ◌&&◌, Option, none, some, List,
  [], ◌∷◌, ◌++◌, arith, ltb, leb, ◌==◌, if_cases, Option-cases, some_path,
}
use hydralisk.Avatar.State.{Machine, Transition, on_interrupt, on_audio_drained}
use hydralisk.Avatar.Protocol.{
  ControlMessage, ControlType, speak, speak_end, interrupt, start_listening, stop_listening,
  keepalive,
}
use hydralisk.Avatar.Scheduler.{audio_drained, FrameScheduler, FrameJob, next_frame}
use hydralisk.Avatar.Receipts.{Receipt, started, event, summary, Summary}
use hydralisk.Avatar.Session.{
  Session, Call, control, begins, round, stops, start, handle_control, control_speak,
  control_speak_end, control_interrupt, control_listening, end_drained, finish_tick, stop,
  after_drained, summary_of, dispatch, render_failed, rendered, report_failure, tick_async,
  after_tick, reap, loop_round, loop_body, perform, run, is_some,
}

abbrev pub summaries_in : List Receipt → ℕ
summaries_in [] = 0
summaries_in (summary x ∷ rest) = suc (summaries_in rest)
summaries_in (started ∷ rest) = summaries_in rest
summaries_in (event n k ∷ rest) = summaries_in rest

pub summaries_in-append :
    (xs ys : List Receipt) → summaries_in (xs ++ ys) ≡ summaries_in xs + summaries_in ys
summaries_in-append [] ys = omega arith
summaries_in-append (started ∷ xs) ys = summaries_in-append xs ys
summaries_in-append (event n k ∷ xs) ys = summaries_in-append xs ys
summaries_in-append (summary x ∷ xs) ys = omega (arith, summaries_in-append xs ys)

abbrev pub count : Bool → ℕ
count true = 1
count false = 0

-- A session has written a summary, has a reason, has kept the summary and has closed its sink and
-- its renderer exactly if it is stopped, and then there is one summary.
pub record Accounts (receipts : List Receipt) (stopped : Bool) (reason : Option String)
    (last : Option Summary) (egress renderer : Bool) : Type 0 where
  pub written : summaries_in receipts ≡ count stopped
  pub has_reason : is_some reason ≡ stopped
  pub kept : is_some last ≡ stopped
  pub egress_closed : egress ≡ stopped
  pub renderer_closed : renderer ≡ stopped

module _ {Frame : Type 0} where
  abbrev pub IsAccounted : Session Frame → Type 0
  IsAccounted s =
      Accounts s.receipts s.stopped s.stop_reason s.last_summary s.egress_closed s.renderer_closed

  pub stop-IsAccounted :
      (reason : String) (now : ℕ) (s : Session Frame)
      → IsAccounted s
      → IsAccounted (stop reason now s)
  unfolding stop
  stop-IsAccounted reason now s v =
      ground (arith, summaries_in-append s.receipts (summary (summary_of reason now s) ∷ []))

  control_interrupt-IsAccounted :
      (s : Session Frame) → IsAccounted s → IsAccounted (control_interrupt s).1
  unfolding control_interrupt on_interrupt
  control_interrupt-IsAccounted s v =
      ground
        (arith, summaries_in-append s.receipts (event "interrupt" (s.machine.interrupts + 1) ∷ []))

  pub handle_control-IsAccounted :
      (now : ℕ) (msg : ControlMessage) (s : Session Frame)
      → IsAccounted s
      → IsAccounted (handle_control now msg s).1
  unfolding handle_control control_speak control_speak_end control_listening
  handle_control-IsAccounted now msg s v = by_type msg.type
    where
      heard : Session Frame
      heard = record s { last_control = now }

      by_type : (t : ControlType) → IsAccounted (dispatch t msg heard).1
      by_type keepalive = v
      by_type speak = v
      by_type speak_end = v
      by_type interrupt = control_interrupt-IsAccounted heard v
      by_type start_listening = v
      by_type stop_listening = v

  after_drained-IsAccounted :
      (ended : Option String) (r : Option Transition × Machine) (s : Session Frame)
      → IsAccounted s
      → IsAccounted (after_drained ended r s)
  after_drained-IsAccounted ended (none, m) s v = v
  after_drained-IsAccounted ended (some t, m) s v = v

  end_drained-IsAccounted : (s : Session Frame) → IsAccounted s → IsAccounted (end_drained s)
  unfolding end_drained
  end_drained-IsAccounted s v =
      if_cases IsAccounted (s.machine.end_pending && audio_drained s.scheduler) _ _
        (λ _. after_drained-IsAccounted s.machine.active_event_id (on_audio_drained s.machine) s v)
        (λ _. v)

  finish_tick-IsAccounted :
      (job : FrameJob) (frame : Option Frame) (s : Session Frame)
      → IsAccounted s
      → IsAccounted (finish_tick job frame s)
  unfolding finish_tick
  finish_tick-IsAccounted job none s v = end_drained-IsAccounted _ v
  finish_tick-IsAccounted job (some f) s v = end_drained-IsAccounted _ v

  report_failure-IsAccounted : (s : Session Frame) → IsAccounted s → IsAccounted (report_failure s)
  report_failure-IsAccounted s v =
      if_cases IsAccounted (s.render_failures == 1) _ _
        (λ _. ground (
          arith,
          summaries_in-append s.receipts (event "render_tick_failed" s.scheduler.frame_number ∷ []),
        ))
        (λ _. v)

  render_failed-IsAccounted :
      (now : ℕ) (job : FrameJob) (s : Session Frame)
      → IsAccounted s
      → IsAccounted (render_failed now job s)
  unfolding render_failed
  render_failed-IsAccounted now job s v =
      if_cases IsAccounted (leb (s.fps * 3) (s.render_failures + 1)) _ _
        (λ _. stop-IsAccounted "render_error" now _ (report_failure-IsAccounted _ v))
        (λ _. finish_tick-IsAccounted job s.last_good_frame _ (report_failure-IsAccounted _ v))

  rendered-IsAccounted :
      (now : ℕ) (job : FrameJob) (outcome : Option Frame) (s : Session Frame)
      → IsAccounted s
      → IsAccounted (rendered now job outcome s)
  rendered-IsAccounted now job none s v = render_failed-IsAccounted now job s v
  rendered-IsAccounted now job (some f) s v = finish_tick-IsAccounted job (some f) _ v

  reap-IsAccounted : (now : ℕ) (s : Session Frame) → IsAccounted s → IsAccounted (reap now s)
  reap-IsAccounted now s v =
      if_cases IsAccounted
        (ltb 0 s.keepalive_timeout && ltb (s.last_control + s.keepalive_timeout) now) _ _
        (λ _. stop-IsAccounted "keepalive_timeout" now s v) (λ _. v)

  after_tick-IsAccounted :
      (peer : Bool) (now : ℕ) (s : Session Frame)
      → IsAccounted s
      → IsAccounted (after_tick peer now s)
  after_tick-IsAccounted peer now s v =
      if_cases IsAccounted s.stopped _ _ (λ _. v)
        (λ _. reap-IsAccounted now _ (if_cases IsAccounted peer _ _ (λ _. v) (λ _. v)))

  loop_body-IsAccounted :
      (render : FrameJob → Option Frame) (peer : Bool) (now : ℕ) (s s' : Session Frame)
      → IsAccounted s
      → loop_body render peer now s ≡ some s'
      → IsAccounted s'
  unfolding loop_body tick_async
  loop_body-IsAccounted render peer now s s' v e =
      elim (Option-cases (next_frame s.machine.state s.scheduler)) [
        | inl f ↦ absurd (ground (arith, f))
        | inr ((job, t), f) ↦
            let same : after_tick peer now
                  (rendered now job (render job) (record s { scheduler = t }))
                ≡ s' =
              ground (arith, f) in
            subst IsAccounted same
              (after_tick-IsAccounted peer now _ (rendered-IsAccounted now job (render job) _ v))
      ]

  loop_round-IsAccounted :
      (render : FrameJob → Option Frame) (peer : Bool) (now : ℕ) (s s' : Session Frame)
      → IsAccounted s
      → loop_round render peer now s ≡ some s'
      → IsAccounted s'
  unfolding loop_round
  loop_round-IsAccounted render peer now s s' v =
      if_cases (λ o. o ≡ some s' → IsAccounted s') s.stopped _ _
        (λ _ e. subst IsAccounted (some_path e) v)
        (λ _ e. loop_body-IsAccounted render peer now s s' v e)

  perform-IsAccounted :
      (c : Call Frame) (s s' : Session Frame)
      → IsAccounted s
      → perform c s ≡ some s'
      → IsAccounted s'
  perform-IsAccounted (control now msg) s s' v e =
      subst IsAccounted (some_path e) (handle_control-IsAccounted now msg s v)
  perform-IsAccounted (begins now) s s' v e = subst IsAccounted (some_path e) v
  perform-IsAccounted (round render peer now) s s' v e =
      loop_round-IsAccounted render peer now s s' v e
  perform-IsAccounted (stops reason now) s s' v e =
      subst IsAccounted (some_path e) (stop-IsAccounted reason now s v)

  run-IsAccounted :
      (cs : List (Call Frame)) (s s' : Session Frame)
      → IsAccounted s
      → run cs s ≡ some s'
      → IsAccounted s'
  unfolding run
  run-IsAccounted [] s s' v e = subst IsAccounted (some_path e) v
  run-IsAccounted (c ∷ cs) s s' v e = elim (Option-cases (perform c s)) [
    | inl f ↦ absurd (ground (arith, f))
    | inr (t, f) ↦ run-IsAccounted cs t s' (perform-IsAccounted c s t v f) (ground (arith, f))
  ]

  -- A history of a session that leads to `s` has written one summary if `s` is stopped and none
  -- otherwise; and `s` has a stop reason and a kept summary, and has closed its sink and its renderer,
  -- exactly if it is stopped.
  pub run-start-IsAccounted :
      (fps timeout now : ℕ) (t : FrameScheduler) (cs : List (Call Frame)) (s : Session Frame)
      → run cs (start fps timeout t now) ≡ some s
      → IsAccounted s
  unfolding start
  run-start-IsAccounted fps timeout now t cs s e =
      run-IsAccounted cs (start fps timeout t now) s begun e
    where
      begun : IsAccounted (start {Frame = Frame} fps timeout t now)
      begun = record {
        written = refl;
        has_reason = refl;
        kept = refl;
        egress_closed = refl;
        renderer_closed = refl;
      }
