-- ===== src/Avatar/Session/Faults/Live.antt =====
-- What holds at every point of a session of hydralisk/avatar/session.py, whatever raises.
use hydralisk.Prelude.{
  ℕ, ◌≡◌, ◌⊎◌, subst, true, false, ◌&&◌, Option, none, some, List, [], String, if_cases, ◌==◌,
}
use hydralisk.Avatar.State.{Machine, Transition, on_interrupt}
use hydralisk.Avatar.Clips.{ClipCatalog, make_catalog, frames_per_clip_default}
use hydralisk.Avatar.Protocol.{ControlMessage}
use hydralisk.Avatar.Scheduler.{FrameScheduler, make_scheduler}
use hydralisk.Avatar.Session.{Session, Call, start, after_interrupt, control_interrupt, run}
use hydralisk.Avatar.Session.Invariant.{
  IsLiveSession, handle_control-IsLive, control_interrupt-IsLive,
}
use hydralisk.Avatar.Session.Rounds.{end_drained-IsLive, framed-IsLive}
use hydralisk.Avatar.Session.Runs.{run-start, start-IsLive, make_scheduler-IsReady}
use hydralisk.Avatar.Session.Faults.{
  Faults, Outcome, effect, stop_begun, egress_shut, renderer_shut, summarised, stop_with,
  report_with, interrupt_lost, control_with, is_interrupt, run_with, calls_of,
}
use hydralisk.Avatar.Session.Faults.Kept.{and_then-Leaves, effect-Leaves, Matches, run_with-Matches}
use hydralisk.Avatar.Session.Faults.Runs.{IsClosed, finish_tick_with-Leaves, run_with-Leaves}
use hydralisk.Avatar.Session.Faults.{without_faults}
use hydralisk.Avatar.Session.Faults.Calm.{run_with_calm}

module _ {Frame : Type 0} where
  stop_with-IsLive :
      (f : Faults) (reason : String) (now : ℕ) (s : Session Frame)
      → IsLiveSession s
      → IsLiveSession (stop_with f reason now s).1
  unfolding stop_with
  stop_with-IsLive f reason now s v =
      if_cases {A = Outcome Frame} (λ o. IsLiveSession o.1) s.stopped _ _ (λ _. v)
        (λ _.
          and_then-Leaves IsLiveSession
            (effect f.egress_raises (stop_begun reason s) (egress_shut (stop_begun reason s))) _
            (effect-Leaves IsLiveSession f.egress_raises _ _ v v)
            λ a va.
              and_then-Leaves IsLiveSession (effect f.renderer_raises a (renderer_shut a)) _
                (effect-Leaves IsLiveSession f.renderer_raises _ _ va va)
                λ b vb. effect-Leaves IsLiveSession f.disk_raises b (summarised reason now b) vb vb)

  report_with-IsLive :
      (f : Faults) (s : Session Frame) → IsLiveSession s → IsLiveSession (report_with f s).1
  report_with-IsLive f s v =
      if_cases {A = Outcome Frame} (λ o. IsLiveSession o.1) (s.render_failures == 1) _ _
        (λ _. effect-Leaves IsLiveSession f.disk_raises _ _ v v) (λ _. v)

  control_with-IsLive :
      (f : Faults) (now : ℕ) (msg : ControlMessage) (s : Session Frame)
      → IsLiveSession s
      → IsLiveSession (control_with f now msg s).1
  unfolding control_with control_interrupt
  control_with-IsLive f now msg s v =
      if_cases {A = Outcome Frame} (λ o. IsLiveSession o.1) (is_interrupt msg.type && f.disk_raises)
        _ _
        (λ _.
          lost (on_interrupt s.machine)
            (control_interrupt-IsLive (record s { last_control = now }) v))
        (λ _. handle_control-IsLive now msg s v)
    where
      lost :
          (r : Option Transition × Machine)
          → IsLiveSession (after_interrupt r (record s { last_control = now })).1
          → IsLiveSession (interrupt_lost r (record s { last_control = now })).1
      lost (none, m) w = w
      lost (some t, m) w = w

  live_closed : IsClosed {Frame = Frame} IsLiveSession
  live_closed = record {
    heard = λ now s v. v;
    failed = λ n s v. v;
    shown = λ frame s v. v;
    framed = λ s job t e v. framed-IsLive s.machine s.scheduler job t e v;
    stops_with = stop_with-IsLive;
    reports_with = report_with-IsLive;
    finishes_with =
        finish_tick_with-Leaves IsLiveSession (λ s frame v. v) (λ s chunks v. v) end_drained-IsLive;
    controls_with = control_with-IsLive;
  }

  -- A session that starts with the default catalogue has any history of calls, each one step. In each
  -- the egress, the receipt file or the closing calls may raise and a tick may be cancelled; a loop
  -- that has raised is over. After each call, raised or not, its machine is valid, its audio buffer is
  -- well formed, and speech is buffered only while the avatar speaks. The same calls without such
  -- faults raise nothing, whatever messages come and whatever frames the renderer makes or fails to
  -- make; and if no call raises, the session is the one that they lead to.
  pub run_with-IsLive :
      (c : ClipCatalog) (rate per_frame crossfade jitter fps timeout now : ℕ) (t : FrameScheduler)
      (cs : List (Faults × Call Frame))
      → make_catalog frames_per_clip_default [] ≡ some c
      → make_scheduler c fps rate per_frame crossfade jitter ≡ some t
      → IsLiveSession (run_with cs false (start fps timeout t now)).1
        × ((s : Session Frame) × (run (calls_of cs) (start fps timeout t now) ≡ some s)
            × (run_with (without_faults (calls_of cs)) false (start fps timeout t now) ≡ (false, s))
            × IsLiveSession s
            × (((run_with cs false (start fps timeout t now)).0 ≡ true)
                ⊎ ((run_with cs false (start fps timeout t now)).1 ≡ s)))
  run_with-IsLive c rate per_frame crossfade jitter fps timeout now t cs made scheduled =
      let (s, e, live) =
        run-start c rate per_frame crossfade jitter fps timeout now t (calls_of cs) made
          scheduled in
      let (ready, quiet, _) =
        make_scheduler-IsReady c fps rate per_frame crossfade jitter t scheduled in
      (
        run_with-Leaves IsLiveSession live_closed cs false (start fps timeout t now)
            (start-IsLive Frame fps timeout now t ready quiet),
        (
          s,
          e,
          run_with_calm (calls_of cs) (start fps timeout t now) s e,
          live,
          subst (λ o. Matches o (run_with cs false (start fps timeout t now))) e
              (run_with-Matches cs (start fps timeout t now)),
        ),
      )
