-- ===== src/Avatar/Session/Failures.antt =====
-- Why a session of hydralisk/avatar/session.py stops by itself: its renderer, or its keepalive.
use mathlib.Core.Path.{subst}
use hydralisk.Prelude.{
  ℕ, zero, suc, ◌+◌, ◌*◌, ◌≤◌, ◌<◌, ◌≡◌, refl, sym, ◌∙◌, inl, inr, Bool, false, not, ◌&&◌, Option,
  none, some, arith, ltb, leb, if◌then◌else◌, if_cases, leb→gt, Bool-cases,
}
use hydralisk.Avatar.Scheduler.{FrameJob}
use hydralisk.Avatar.Scheduler.Frames.{Covers, next_frame_total}
use hydralisk.Avatar.Scheduler.Drain.{next_frame-catalog}
use hydralisk.Avatar.Session.{
  Session, stop, finish_tick, end_drained, render_failed, report_failure, tick_async, after_tick,
  loop_round, loop_body,
}

module _ {Frame : Type 0} where
  -- What the renderer's failures depend on.
  record Alike (s t : Session Frame) : Type 0 where
    fps : t.fps ≡ s.fps
    timeout : t.keepalive_timeout ≡ s.keepalive_timeout
    heard : t.last_control ≡ s.last_control
    stopped : t.stopped ≡ s.stopped
    reason : t.stop_reason ≡ s.stop_reason
    catalog : t.scheduler.catalog ≡ s.scheduler.catalog

  finish_tick-Alike :
      (job : FrameJob) (frame : Option Frame) (s : Session Frame)
      → Alike s (finish_tick job frame s)
        × ((finish_tick job frame s).render_failures ≡ s.render_failures)
  unfolding finish_tick end_drained
  finish_tick-Alike job frame s = ground arith

  -- A tick whose `render` raises, of a session that runs.
  record Failed (s t : Session Frame) : Type 0 where
    catalog : t.scheduler.catalog ≡ s.scheduler.catalog
    fps : t.fps ≡ s.fps
    counted : t.render_failures ≡ s.render_failures + 1
    stops : t.stopped ≡ leb (s.fps * 3) (s.render_failures + 1)
    reason :
        t.stop_reason
        ≡ (if leb (s.fps * 3) (s.render_failures + 1) then some "render_error" else s.stop_reason)

  render_failed-Failed :
      (now : ℕ) (job : FrameJob) (s : Session Frame)
      → s.stopped ≡ false
      → Failed s (render_failed now job s)
  unfolding render_failed stop
  render_failed-Failed now job s runs =
      if_cases (Failed s) (leb (s.fps * 3) (s.render_failures + 1)) _ _ (λ h. ground arith)
        (λ h. ground (
          arith,
          finish_tick-Alike job s.last_good_frame
              (report_failure (record s { render_failures = s.render_failures + 1 })),
        ))

  -- Ticks at which the renderer raises each time.
  unfoldable pub failing : ℕ → ℕ → Session Frame → Option (Session Frame)
  failing now zero s = some s
  failing now (suc n) s = elim (tick_async (λ job. none) now s) [
    | none ↦ none
    | some t ↦ failing now n t
  ]

  failing_step :
      (now : ℕ) (s : Session Frame)
      → Covers s.scheduler.catalog
      → s.stopped ≡ false
      → (t : Session Frame) × (tick_async (λ job. none) now s ≡ some t)
        × Failed s t
        × Covers t.scheduler.catalog
  unfolding tick_async
  failing_step now s covers runs =
      let (job, u, e) = next_frame_total s.machine.state s.scheduler covers in
      let f : Failed (record s { scheduler = u })
          (render_failed now job (record s { scheduler = u })) =
        render_failed-Failed now job (record s { scheduler = u }) runs in
      let same = f.catalog ∙ next_frame-catalog s.machine.state s.scheduler job u e in
      (
        render_failed now job (record s { scheduler = u }),
        ground (arith, e),
        record {
          catalog = same;
          fps = f.fps;
          counted = f.counted;
          stops = f.stops;
          reason = f.reason;
        },
        subst Covers (sym same) covers,
      )

  -- A renderer that raises at every tick ends the session at the tick with which the failures in a row
  -- reach three seconds of frames, not earlier, and for that reason.
  pub failing-stops :
      (now n : ℕ) (s : Session Frame)
      → Covers s.scheduler.catalog
      → s.stopped ≡ false
      → s.render_failures < s.fps * 3
      → s.render_failures + n ≤ s.fps * 3
      → let over = leb (s.fps * 3) (s.render_failures + n) in
        (t : Session Frame) × (failing now n s ≡ some t)
        × (t.render_failures ≡ s.render_failures + n)
        × (t.stopped ≡ over)
        × (t.stop_reason ≡ (if over then some "render_error" else s.stop_reason))
  unfolding failing
  failing-stops now zero s covers runs below enough =
      (s, refl, omega arith, ground arith, ground arith)
  failing-stops now (suc n) s covers runs below enough =
      let (t, e, f, covers') = failing_step now s covers runs in
      elim (Bool-cases (leb (s.fps * 3) (s.render_failures + 1))) [
        | inl h ↦
            let last : n ≡ 0 = ground arith in
            (
              t,
              ground (arith, e, last),
              ground (arith, f.counted, last),
              ground (arith, f.stops, h),
              ground (arith, f.reason, h),
            )
        | inr h ↦
            let (u, d, counted, stops, reason) =
              failing-stops now n t covers' (f.stops ∙ h)
                (omega (arith, f.counted, f.fps, leb→gt _ _ h))
                (omega (arith, f.counted, f.fps, enough)) in
            (
              u,
              ground (arith, e, d),
              omega (arith, counted, f.counted),
              ground (arith, stops, f.counted, f.fps),
              ground (arith, reason, f.counted, f.fps, f.reason, h),
            )
      ]

  -- The session is to end for want of messages.
  abbrev pub silent_too_long : Bool → ℕ → Session Frame → Bool
  silent_too_long peer now s =
      not peer && (ltb 0 s.keepalive_timeout && ltb (s.last_control + s.keepalive_timeout) now)

  after_tick_lem :
      (peer : Bool) (now : ℕ) (s : Session Frame)
      → s.stopped ≡ false
      → ((after_tick peer now s).stopped ≡ silent_too_long peer now s)
        × ((after_tick peer now s).stop_reason
            ≡ (if silent_too_long peer now s then some "keepalive_timeout" else s.stop_reason))
  unfolding stop
  after_tick_lem peer now s runs = ground arith

  -- While the renderer works, a round of the loop ends a running session exactly where no viewer is
  -- connected, a keepalive timeout is set, and the last control message is older than that.
  pub loop_round_keepalive :
      (render : FrameJob → Frame) (peer : Bool) (now : ℕ) (s : Session Frame)
      → Covers s.scheduler.catalog
      → s.stopped ≡ false
      → let over = silent_too_long peer now s in
        (t : Session Frame) × (loop_round (λ job. some (render job)) peer now s ≡ some t)
        × (t.stopped ≡ over)
        × (t.stop_reason ≡ (if over then some "keepalive_timeout" else s.stop_reason))
  unfolding loop_round loop_body tick_async
  loop_round_keepalive render peer now s covers runs =
      let (job, u, e) = next_frame_total s.machine.state s.scheduler covers in
      let t : Session Frame = record s {
        scheduler = u;
        last_good_frame = some (render job);
        render_failures = 0;
      } in
      let made : Session Frame = finish_tick job (some (render job)) t in
      let (same, _) = finish_tick-Alike job (some (render job)) t in
      let after = after_tick_lem peer now made (same.stopped ∙ runs) in
      (
        after_tick peer now made,
        ground (arith, e, runs),
        ground (arith, after, same),
        ground (arith, after, same),
      )
