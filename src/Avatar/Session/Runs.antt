-- ===== src/Avatar/Session/Runs.antt =====
-- Any history of a session of hydralisk/avatar/session.py.
use mathlib.Core.Path.{subst}
use hydralisk.Prelude.{
  ℕ, ◌≡◌, refl, sym, ◌∙◌, inl, inr, String, Bool, Option, none, some, List, [], ◌∷◌, arith,
  if_cases, Option-cases, some_path, leb, ◌==◌, ◌+◌, ◌*◌,
}
use hydralisk.Avatar.State.History.{initial-IsValid}
use hydralisk.Avatar.Clips.{ClipCatalog, make_catalog, frames_per_clip_default}
use hydralisk.Avatar.Clips.Frames.{frame_for-default}
use hydralisk.Avatar.Protocol.{ControlMessage}
use hydralisk.Avatar.Scheduler.{
  FrameScheduler, FrameJob, make_scheduler, put_pcm, flush_audio, end_of_utterance,
}
use hydralisk.Avatar.Scheduler.Audio.{IsReady}
use hydralisk.Avatar.Scheduler.Frames.{Covers, next_frame_total}
use hydralisk.Avatar.Scheduler.Drain.{next_frame-catalog}
use hydralisk.Avatar.Session.Invariant.{IsQuiet, IsLiveSession, handle_control-IsLive}
use hydralisk.Avatar.Session.Rounds.{stop-IsLive, loop_round-IsLive}
use hydralisk.Avatar.Session.{
  Session, Call, control, begins, begin_loop, round, stops, start, handle_control, loop_round,
  loop_body, tick_async, stop, perform, run, rendered, after_tick, render_failed, finish_tick,
  end_drained, control_speak, control_speak_end, control_interrupt, control_listening,
  report_failure,
}

pub make_scheduler-IsReady :
    (c : ClipCatalog) (fps rate per_frame crossfade jitter : ℕ) (t : FrameScheduler)
    → make_scheduler c fps rate per_frame crossfade jitter ≡ some t
    → IsReady t × IsQuiet t × (t.catalog ≡ c)
unfolding make_scheduler
make_scheduler-IsReady c fps rate per_frame crossfade jitter t e = ground arith

pub start-IsLive :
    (Frame : Type 0) (fps timeout now : ℕ) (t : FrameScheduler)
    → IsReady t
    → IsQuiet t
    → IsLiveSession (start {Frame = Frame} fps timeout t now)
unfolding start
start-IsLive Frame fps timeout now t v q = record {
  machine = initial-IsValid;
  ready = v;
  quiet = λ _. q;
}

module _ {Frame : Type 0} where
  perform-IsLive :
      (c : Call Frame) (s s' : Session Frame)
      → IsLiveSession s
      → perform c s ≡ some s'
      → IsLiveSession s'
  perform-IsLive (control now msg) s s' v e =
      subst IsLiveSession (some_path e) (handle_control-IsLive now msg s v)
  perform-IsLive (begins now) s s' v e = subst IsLiveSession (some_path e) v
  perform-IsLive (round render peer now) s s' v e = loop_round-IsLive render peer now s s' v e
  perform-IsLive (stops reason now) s s' v e =
      subst IsLiveSession (some_path e) (stop-IsLive reason now s v)

  run-IsLive :
      (cs : List (Call Frame)) (s s' : Session Frame)
      → IsLiveSession s
      → run cs s ≡ some s'
      → IsLiveSession s'
  unfolding run
  run-IsLive [] s s' v e = subst IsLiveSession (some_path e) v
  run-IsLive (c ∷ cs) s s' v e = elim (Option-cases (perform c s)) [
    | inl f ↦ absurd (ground (arith, f))
    | inr (t, f) ↦ run-IsLive cs t s' (perform-IsLive c s t v f) (ground (arith, f))
  ]

  -- A session keeps the catalogue of its scheduler.
  abbrev catalog : Session Frame → ClipCatalog
  catalog s = s.scheduler.catalog

  handle_control-catalog :
      (now : ℕ) (msg : ControlMessage) (s : Session Frame)
      → catalog (handle_control now msg s).1 ≡ catalog s
  unfolding handle_control control_speak control_speak_end control_interrupt control_listening
      put_pcm flush_audio end_of_utterance
  handle_control-catalog now msg s = ground arith

  finish_tick-catalog :
      (job : FrameJob) (frame : Option Frame) (s : Session Frame)
      → catalog (finish_tick job frame s) ≡ catalog s
  unfolding finish_tick end_drained
  finish_tick-catalog job frame s = ground arith

  stop-catalog :
      (reason : String) (now : ℕ) (s : Session Frame) → catalog (stop reason now s) ≡ catalog s
  unfolding stop
  stop-catalog reason now s = ground arith

  render_failed-catalog :
      (now : ℕ) (job : FrameJob) (s : Session Frame) → catalog (render_failed now job s) ≡ catalog s
  unfolding render_failed
  render_failed-catalog now job s =
      if_cases (λ t. catalog t ≡ catalog s) (leb (s.fps * 3) (s.render_failures + 1)) _ _
        (λ _. stop-catalog "render_error" now _ ∙ reported)
        (λ _. finish_tick-catalog job s.last_good_frame _ ∙ reported)
    where
      reported :
          catalog (report_failure (record s { render_failures = s.render_failures + 1 }))
          ≡ catalog s
      reported =
          if_cases (λ t. catalog t ≡ catalog s) (s.render_failures + 1 == 1) _ _ (λ _. refl)
            (λ _. refl)

  rendered-catalog :
      (now : ℕ) (job : FrameJob) (outcome : Option Frame) (s : Session Frame)
      → catalog (rendered now job outcome s) ≡ catalog s
  rendered-catalog now job none s = render_failed-catalog now job s
  rendered-catalog now job (some f) s = finish_tick-catalog job (some f) _

  after_tick-catalog :
      (peer : Bool) (now : ℕ) (s : Session Frame) → catalog (after_tick peer now s) ≡ catalog s
  unfolding stop
  after_tick-catalog peer now s = ground arith

  -- A call never fails over a catalogue that covers all, and keeps it.
  loop_body_total :
      (render : FrameJob → Option Frame) (peer : Bool) (now : ℕ) (s : Session Frame)
      → Covers (catalog s)
      → (s' : Session Frame) × (loop_body render peer now s ≡ some s') × Covers (catalog s')
  unfolding loop_body tick_async
  loop_body_total render peer now s covers =
      let (job, t, e) = next_frame_total s.machine.state s.scheduler covers in
      let made : Session Frame = rendered now job (render job) (record s { scheduler = t }) in
      let kept : catalog (after_tick peer now made) ≡ catalog s =
        after_tick-catalog peer now made
        ∙ rendered-catalog now job (render job) (record s { scheduler = t })
        ∙ next_frame-catalog s.machine.state s.scheduler job t e in
      (after_tick peer now made, ground (arith, e), subst Covers (sym kept) covers)

  loop_round_total :
      (render : FrameJob → Option Frame) (peer : Bool) (now : ℕ) (s : Session Frame)
      → Covers (catalog s)
      → (s' : Session Frame) × (loop_round render peer now s ≡ some s') × Covers (catalog s')
  unfolding loop_round
  loop_round_total render peer now s covers =
      if_cases (λ o. (s' : Session Frame) × (o ≡ some s') × Covers (catalog s')) s.stopped _ _
        (λ _. (s, refl, covers)) (λ _. loop_body_total render peer now s covers)

  perform_total :
      (c : Call Frame) (s : Session Frame)
      → Covers (catalog s)
      → (s' : Session Frame) × (perform c s ≡ some s') × Covers (catalog s')
  perform_total (control now msg) s covers = (
    (handle_control now msg s).1,
    refl,
    subst Covers (sym (handle_control-catalog now msg s)) covers,
  )
  perform_total (begins now) s covers = (begin_loop now s, refl, covers)
  perform_total (round render peer now) s covers = loop_round_total render peer now s covers
  perform_total (stops reason now) s covers =
      (stop reason now s, refl, subst Covers (sym (stop-catalog reason now s)) covers)

  run_total :
      (cs : List (Call Frame)) (s : Session Frame)
      → Covers (catalog s)
      → (s' : Session Frame) × (run cs s ≡ some s')
  unfolding run
  run_total [] s covers = (s, refl)
  run_total (c ∷ cs) s covers =
      let (t, e, covers') = perform_total c s covers in
      let (s', f) = run_total cs t covers' in (s', ground (arith, e, f))

  -- A session that starts with the default catalogue never fails, whatever messages come, whatever
  -- the renderer does and however often it is stopped; and at every point its machine is valid, its
  -- audio buffer is well formed, and speech is buffered only while the avatar speaks.
  pub run-start :
      (c : ClipCatalog) (rate per_frame crossfade jitter fps timeout now : ℕ) (t : FrameScheduler)
      (cs : List (Call Frame))
      → make_catalog frames_per_clip_default [] ≡ some c
      → make_scheduler c fps rate per_frame crossfade jitter ≡ some t
      → (s : Session Frame) × (run cs (start fps timeout t now) ≡ some s) × IsLiveSession s
  run-start c rate per_frame crossfade jitter fps timeout now t cs made scheduled =
      let (ready, quiet, same) =
        make_scheduler-IsReady c fps rate per_frame crossfade jitter t scheduled in
      let covers : Covers c =
        λ state cursor. let (r, e, _, _) = frame_for-default state cursor c made in (r, e) in
      let (s, e) =
        run_total cs (start fps timeout t now) (unfold start in subst Covers (sym same) covers) in
      (
        s,
        e,
        run-IsLive cs (start fps timeout t now) s (start-IsLive Frame fps timeout now t ready quiet)
            e,
      )
