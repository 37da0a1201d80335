-- ===== src/Avatar/Session/Faults/Kept.antt =====
-- What holds of a session of hydralisk/avatar/session.py whatever raises.
use hydralisk.Prelude.{
  ℕ, ◌+◌, ◌*◌, ◌≡◌, sym, refl, inl, inr, ◌⊎◌, subst, String, Bool, true, false, ◌&&◌, ◌||◌, Option,
  none, some, List, [], ◌∷◌, ◌++◌, arith, ltb, leb, ◌==◌, if◌then◌else◌, if_cases, length, take,
  Bool-cases,
}
use hydralisk.Avatar.State.{Machine, Transition, on_interrupt}
use hydralisk.Avatar.Audio.{Sample}
use hydralisk.Avatar.Protocol.{
  ControlMessage, ControlType, speak, speak_end, interrupt, start_listening, stop_listening,
  keepalive,
}
use hydralisk.Avatar.Scheduler.{FrameScheduler, FrameJob, next_frame}
use hydralisk.Avatar.Session.{
  Session, Call, control, begins, round, stops, stop, finish_tick, end_drained, push_video,
  render_failed, rendered, reap, after_tick, loop_round, loop_body, tick_async, report_failure,
  handle_control, perform, run, control_interrupt, after_interrupt, dispatch, loop_body,
}
use hydralisk.Avatar.Session.Faults.{
  Faults, Outcome, and_then, effect, stop_begun, egress_shut, renderer_shut, stop_with,
  push_video_with, push_audio_with, finish_tick_with, report_with, render_failed_with,
  rendered_with, job_with, tick_with, reap_with, after_tick_with, round_with, interrupt_lost,
  control_with, perform_with, is_interrupt, run_with, is_round, calls_of,
}

module _ {Frame : Type 0} where
  -- A predicate of the session after, raised or not; and the same that a call that does not raise gives.
  abbrev pub Leaves : (Session Frame → Type 0) → Outcome Frame → Type 0
  Leaves P o = P o.1

  abbrev pub IsLike : Session Frame → Outcome Frame → Type 0
  IsLike s o = (o.0 ≡ true) ⊎ (o.1 ≡ s)

  pub and_then-Leaves :
      (P : Session Frame → Type 0) (o : Outcome Frame) (k : Session Frame → Outcome Frame)
      → P o.1
      → ((s : Session Frame) → P s → P (k s).1)
      → P (and_then o k).1
  and_then-Leaves P (true, s) k h f = h
  and_then-Leaves P (false, s) k h f = f s h

  pub effect-Leaves :
      (P : Session Frame → Type 0) (b : Bool) (before after : Session Frame)
      → P before
      → P after
      → P (effect b before after).1
  effect-Leaves P true before after h k = h
  effect-Leaves P false before after h k = k

  and_then-IsLike :
      (s t : Session Frame) (o : Outcome Frame) (k : Session Frame → Outcome Frame)
      → IsLike s o
      → IsLike t (k s)
      → IsLike t (and_then o k)
  and_then-IsLike s t (true, u) k h f = inl refl
  and_then-IsLike s t (false, u) k (inl e) f = absurd (cc)
  and_then-IsLike s t (false, u) k (inr e) f = subst (λ v. IsLike t (k v)) (sym e) f

  effect-IsLike : (b : Bool) (before after : Session Frame) → IsLike after (effect b before after)
  effect-IsLike true before after = inl refl
  effect-IsLike false before after = inr refl

  if-IsLike :
      (b : Bool) {x y : Session Frame} {o p : Outcome Frame}
      → IsLike x o
      → IsLike y p
      → IsLike (if b then x else y) (if b then o else p)
  if-IsLike true h k = h
  if-IsLike false h k = k

  stop_with-IsLike :
      (f : Faults) (reason : String) (now : ℕ) (s : Session Frame)
      → IsLike (stop reason now s) (stop_with f reason now s)
  unfolding stop stop_with
  stop_with-IsLike f reason now s = elim (Bool-cases s.stopped) [
    | inl e ↦ rw (e) (inr refl)
    | inr e ↦ rw (e) (
        and_then-IsLike (egress_shut (stop_begun reason s)) _ _ _
          (effect-IsLike f.egress_raises _ _)
          (and_then-IsLike (renderer_shut (egress_shut (stop_begun reason s))) _ _ _
            (effect-IsLike f.renderer_raises _ _) (effect-IsLike f.disk_raises _ _)))
  ]

  push_video_with-IsLike :
      (f : Faults) (frame : Option Frame) (s : Session Frame)
      → IsLike (push_video frame s) (push_video_with f frame s)
  push_video_with-IsLike f none s = inr refl
  push_video_with-IsLike f (some frame) s = effect-IsLike f.video_raises _ _

  push_audio_with-IsLike :
      (f : Faults) (chunks : List (List Sample)) (s : Session Frame)
      → IsLike (record s { audio = s.audio ++ chunks }) (push_audio_with f chunks s)
  push_audio_with-IsLike f chunks s =
      effect-IsLike (f.audio_raises && ltb f.audio_sent (length chunks))
        (record s { audio = s.audio ++ take f.audio_sent chunks })
        (record s { audio = s.audio ++ chunks })

  finish_tick_with-IsLike :
      (f : Faults) (job : FrameJob) (frame : Option Frame) (s : Session Frame)
      → IsLike (finish_tick job frame s) (finish_tick_with f job frame s)
  unfolding finish_tick finish_tick_with
  finish_tick_with-IsLike f job frame s =
      let pushed : Session Frame = push_video frame s in
      and_then-IsLike pushed (finish_tick job frame s) (push_video_with f frame s) _
        (push_video_with-IsLike f frame s)
        (and_then-IsLike (record pushed { audio = pushed.audio ++ job.audio_chunks })
          (finish_tick job frame s) (push_audio_with f job.audio_chunks pushed)
          (λ b. (false, end_drained b)) (push_audio_with-IsLike f job.audio_chunks pushed)
          (inr refl))

  report_with-IsLike :
      (f : Faults) (s : Session Frame) → IsLike (report_failure s) (report_with f s)
  report_with-IsLike f s = elim (Bool-cases (s.render_failures == 1)) [
    | inl e ↦ rw (e) (effect-IsLike f.disk_raises _ _)
    | inr e ↦ rw (e) (inr refl)
  ]

  render_failed_with-IsLike :
      (f : Faults) (now : ℕ) (job : FrameJob) (s : Session Frame)
      → IsLike (render_failed now job s) (render_failed_with f now job s)
  unfolding render_failed render_failed_with
  render_failed_with-IsLike f now job s =
      and_then-IsLike (report_failure (record s { render_failures = s.render_failures + 1 })) _ _ _
        (report_with-IsLike f (record s { render_failures = s.render_failures + 1 }))
        (if-IsLike (leb (s.fps * 3) (s.render_failures + 1))
          (stop_with-IsLike f "render_error" now _)
          (finish_tick_with-IsLike f job s.last_good_frame _))

  rendered_with-IsLike :
      (f : Faults) (now : ℕ) (job : FrameJob) (outcome : Option Frame) (s : Session Frame)
      → IsLike (rendered now job outcome s) (rendered_with f now job outcome s)
  rendered_with-IsLike f now job none s = render_failed_with-IsLike f now job s
  rendered_with-IsLike f now job (some frame) s = finish_tick_with-IsLike f job (some frame) _

  -- The same where the call without faults may fail, on an exception of the scheduler.
  abbrev pub Matches : Option (Session Frame) → Outcome Frame → Type 0
  Matches none o = o.0 ≡ true
  Matches (some s) o = IsLike s o

  job_with-IsLike :
      (f : Faults) (render : FrameJob → Option Frame) (now : ℕ) (job : FrameJob) (s : Session Frame)
      → IsLike (rendered now job (render job) s) (job_with f render now job s)
  job_with-IsLike f render now job s =
      if_cases (IsLike (rendered now job (render job) s)) f.cancelled _ _ (λ _. inl refl)
        (λ _. rendered_with-IsLike f now job (render job) s)

  tick_with-Matches :
      (f : Faults) (render : FrameJob → Option Frame) (now : ℕ) (s : Session Frame)
      → Matches (tick_async render now s) (tick_with f render now s)
  unfolding tick_async tick_with
  tick_with-Matches f render now s = by_job (next_frame s.machine.state s.scheduler)
    where
      by_job :
          (o : Option (FrameJob × FrameScheduler))
          → Matches
              (elim o [
                | none ↦ none
                | some (job, t) ↦ some (rendered now job (render job) (record s { scheduler = t }))
              ])
              (elim o [
                | none ↦ (true, s)
                | some (job, t) ↦ job_with f render now job (record s { scheduler = t })
              ])
      by_job none = refl
      by_job (some (job, t)) = job_with-IsLike f render now job (record s { scheduler = t })

  reap_with-IsLike :
      (f : Faults) (now : ℕ) (s : Session Frame) → IsLike (reap now s) (reap_with f now s)
  reap_with-IsLike f now s =
      elim (Bool-cases
        (ltb 0 s.keepalive_timeout && ltb (s.last_control + s.keepalive_timeout) now)) [
          | inl e ↦ rw (e) (stop_with-IsLike f "keepalive_timeout" now s)
          | inr e ↦ rw (e) (inr refl)
        ]

  after_tick_with-IsLike :
      (f : Faults) (peer : Bool) (now : ℕ) (s : Session Frame)
      → IsLike (after_tick peer now s) (after_tick_with f peer now s)
  after_tick_with-IsLike f peer now s =
      if-IsLike s.stopped (inr refl)
        (reap_with-IsLike f now (if peer then record s { last_control = now } else s))

  round_with-Matches :
      (f : Faults) (render : FrameJob → Option Frame) (peer : Bool) (now : ℕ) (s : Session Frame)
      → Matches (loop_round render peer now s) (round_with f render peer now s)
  unfolding loop_round loop_body round_with
  round_with-Matches f render peer now s =
      by_flag s.stopped _ (and_then (tick_with f render now s) λ a. after_tick_with f peer now a) (
        ticked (tick_async render now s) (tick_with f render now s)
          (tick_with-Matches f render now s))
    where
      by_flag :
          (b : Bool) (x : Option (Session Frame)) (o : Outcome Frame)
          → Matches x o
          → Matches (if b then some s else x) (if b then (false, s) else o)
      by_flag true x o h = inr refl
      by_flag false x o h = h

      ticked :
          (o : Option (Session Frame)) (p : Outcome Frame)
          → Matches o p
          → Matches
              (elim o [ none ↦ none | some s' ↦ some (after_tick peer now s') ])
              (and_then p λ a. after_tick_with f peer now a)
      ticked none (true, u) h = refl
      ticked none (false, u) h = absurd (cc)
      ticked (some t) p h =
          and_then-IsLike t (after_tick peer now t) p (λ a. after_tick_with f peer now a) h
            (after_tick_with-IsLike f peer now t)

  interrupt_with-IsLike :
      (now : ℕ) (msg : ControlMessage) (s : Session Frame)
      → is_interrupt msg.type ≡ true
      → IsLike
          (handle_control now msg s).1
          (interrupt_lost (on_interrupt s.machine) (record s { last_control = now }))
  unfolding handle_control control_interrupt
  interrupt_with-IsLike now msg s h = by_type msg.type h
    where
      heard : Session Frame
      heard = record s { last_control = now }

      by_outcome :
          (r : Option Transition × Machine)
          → IsLike (after_interrupt r heard).1 (interrupt_lost r heard)
      by_outcome (none, m) = inr refl
      by_outcome (some t, m) = inl refl

      by_type :
          (t : ControlType)
          → is_interrupt t ≡ true
          → IsLike (dispatch t msg heard).1 (interrupt_lost (on_interrupt s.machine) heard)
      by_type interrupt e = by_outcome (on_interrupt s.machine)
      by_type keepalive e = absurd (cc)
      by_type speak e = absurd (cc)
      by_type speak_end e = absurd (cc)
      by_type start_listening e = absurd (cc)
      by_type stop_listening e = absurd (cc)

  control_with-IsLike :
      (f : Faults) (now : ℕ) (msg : ControlMessage) (s : Session Frame)
      → IsLike (handle_control now msg s).1 (control_with f now msg s)
  unfolding control_with
  control_with-IsLike f now msg s =
      if_cases (IsLike (handle_control now msg s).1) (is_interrupt msg.type && f.disk_raises) _ _
        (λ e. interrupt_with-IsLike now msg s (ground (arith, e))) (λ _. inr refl)

  perform_with-Matches :
      (f : Faults) (c : Call Frame) (s : Session Frame)
      → Matches (perform c s) (perform_with f c false s)
  perform_with-Matches f (control now msg) s = control_with-IsLike f now msg s
  perform_with-Matches f (begins now) s = inr refl
  perform_with-Matches f (round render peer now) s = round_with-Matches f render peer now s
  perform_with-Matches f (stops reason now) s = stop_with-IsLike f reason now s

  pub run_with-Matches :
      (cs : List (Faults × Call Frame)) (s : Session Frame)
      → Matches (run (calls_of cs) s) (run_with cs false s)
  unfolding run run_with
  run_with-Matches [] s = inr refl
  run_with-Matches ((f, c) ∷ cs) s =
      went_on (perform c s) (perform_with f c false s) (is_round c) (perform_with-Matches f c s)
        (λ t. run_with-Matches cs t)
    where
      later : Bool → Bool × Session Frame → Outcome Frame
      later r o = let rest = run_with cs (r && o.0) o.1 in (o.0 || rest.0, rest.1)

      raised : (x : Option (Session Frame)) (o : Outcome Frame) → o.0 ≡ true → Matches x o
      raised none o h = h
      raised (some t) o h = inl h

      went_on :
          (x : Option (Session Frame)) (o : Outcome Frame) (r : Bool)
          → Matches x o
          → ((t : Session Frame) → Matches (run (calls_of cs) t) (run_with cs false t))
          → Matches (elim x [ none ↦ none | some t ↦ run (calls_of cs) t ]) (later r o)
      went_on none (true, u) r h ih = refl
      went_on none (false, u) r h ih = absurd (cc)
      went_on (some t) (true, u) r h ih = raised (run (calls_of cs) t) (later r (true, u)) refl
      went_on (some t) (false, u) r (inl h) ih = absurd (cc)
      went_on (some t) (false, u) true (inr h) ih =
          subst (λ v. Matches (run (calls_of cs) t) (run_with cs false v)) (sym h) (ih t)
      went_on (some t) (false, u) false (inr h) ih =
          subst (λ v. Matches (run (calls_of cs) t) (run_with cs false v)) (sym h) (ih t)
