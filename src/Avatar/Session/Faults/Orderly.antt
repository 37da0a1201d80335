-- ===== src/Avatar/Session/Faults/Orderly.antt =====
-- What a session of hydralisk/avatar/session.py promises whatever raises.
use hydralisk.Prelude.{
  ℕ, ◌≡◌, sym, ◌⊎◌, subst, refl, inl, inr, Bool, true, false, ◌&&◌, Option, none, some, List, [],
  ◌∷◌, String, arith, if_cases,
}
use hydralisk.Avatar.State.{Machine, Transition, on_interrupt, on_audio_drained}
use hydralisk.Avatar.Protocol.{
  ControlMessage, ControlType, speak, speak_end, interrupt, start_listening, stop_listening,
  keepalive,
}
use hydralisk.Avatar.Receipts.{Receipt, event, summary, Summary}
use hydralisk.Avatar.Scheduler.{FrameScheduler}
use hydralisk.Avatar.Session.{
  Session, Call, start, is_some, end_drained, after_drained, after_interrupt, control_interrupt,
  handle_control, summary_of, run, dispatch, control_speak, control_speak_end, control_listening,
}
use hydralisk.Avatar.Session.Ending.{
  summaries_in, summaries_in-append, count, IsAccounted, run-start-IsAccounted,
}
use hydralisk.Avatar.Session.Faults.{
  Faults, Outcome, stop_with, report_with, interrupt_lost, control_with, is_interrupt, run_with,
  calls_of,
}
use hydralisk.Avatar.Session.Faults.Kept.{Matches, run_with-Matches}
use hydralisk.Avatar.Session.Faults.Runs.{IsClosed, finish_tick_with-Leaves, run_with-Leaves}

-- The steps of the end, in their order: the reason and the flag, the sink, the renderer, the summary.
pub record Steps (receipts : List Receipt) (stopped : Bool) (reason : Option String)
    (last : Option Summary) (egress renderer : Bool) : Type 0 where
  pub written : summaries_in receipts ≡ count (is_some last)
  pub has_reason : is_some reason ≡ stopped
  pub summary_last : is_some last ≡ true → renderer ≡ true
  pub renderer_second : renderer ≡ true → egress ≡ true
  pub egress_first : egress ≡ true → stopped ≡ true

module _ {Frame : Type 0} where
  abbrev pub IsOrdered : Session Frame → Type 0
  IsOrdered s =
      Steps s.receipts s.stopped s.stop_reason s.last_summary s.egress_closed s.renderer_closed

  stop_with-IsOrdered :
      (f : Faults) (reason : String) (now : ℕ) (s : Session Frame)
      → IsOrdered s
      → IsOrdered (stop_with f reason now s).1
  unfolding stop_with
  stop_with-IsOrdered f reason now s v =
      ground (arith, summaries_in-append s.receipts (summary (summary_of reason now s) ∷ []))

  report_with-IsOrdered :
      (f : Faults) (s : Session Frame) → IsOrdered s → IsOrdered (report_with f s).1
  report_with-IsOrdered f s v = ground (
    arith,
    summaries_in-append s.receipts (event "render_tick_failed" s.scheduler.frame_number ∷ []),
  )

  end_drained-IsOrdered : (s : Session Frame) → IsOrdered s → IsOrdered (end_drained s)
  unfolding end_drained
  end_drained-IsOrdered s v =
      if_cases IsOrdered _ _ _ (λ _. drained (on_audio_drained s.machine)) (λ _. v)
    where
      drained :
          (r : Option Transition × Machine)
          → IsOrdered (after_drained s.machine.active_event_id r s)
      drained (none, m) = v
      drained (some t, m) = v

  interrupt_with-IsOrdered :
      (r : Option Transition × Machine) (s : Session Frame)
      → IsOrdered s
      → IsOrdered (after_interrupt r s).1 × IsOrdered (interrupt_lost r s).1
  interrupt_with-IsOrdered (none, m) s v = (v, v)
  interrupt_with-IsOrdered (some t, m) s v =
      (ground (arith, summaries_in-append s.receipts (event "interrupt" m.interrupts ∷ [])), v)

  control_with-IsOrdered :
      (f : Faults) (now : ℕ) (msg : ControlMessage) (s : Session Frame)
      → IsOrdered s
      → IsOrdered (control_with f now msg s).1
  unfolding control_with handle_control control_speak control_speak_end control_interrupt
      control_listening
  control_with-IsOrdered f now msg s v =
      if_cases {A = Outcome Frame} (λ o. IsOrdered o.1) (is_interrupt msg.type && f.disk_raises) _ _
        (λ _. (interrupt_with-IsOrdered (on_interrupt s.machine) heard v).1) (λ _. by_type msg.type)
    where
      heard : Session Frame
      heard = record s { last_control = now }

      by_type : (t : ControlType) → IsOrdered (dispatch t msg heard).1
      by_type keepalive = v
      by_type speak = v
      by_type speak_end = v
      by_type interrupt = (interrupt_with-IsOrdered (on_interrupt s.machine) heard v).0
      by_type start_listening = v
      by_type stop_listening = v

  end_closed : IsClosed {Frame = Frame} IsOrdered
  end_closed = record {
    heard = λ now s v. v;
    failed = λ n s v. v;
    shown = λ frame s v. v;
    framed = λ s job t e v. v;
    stops_with = stop_with-IsOrdered;
    reports_with = report_with-IsOrdered;
    finishes_with =
        finish_tick_with-Leaves IsOrdered (λ s frame v. v) (λ s chunks v. v) end_drained-IsOrdered;
    controls_with = control_with-IsOrdered;
  }

  -- After any history of calls, each one step, and whatever has raised in it, a session has a stop
  -- reason exactly if it is stopped; its sink is closed only if it is stopped, its renderer only if
  -- the sink is, and its summary kept only if the renderer is closed; and one summary is written if
  -- one is kept, and none otherwise. If no call has raised, a session that is stopped has done all of
  -- it, and one that is not has done none.
  pub run_with-IsOrdered :
      (fps timeout now : ℕ) (t : FrameScheduler) (cs : List (Faults × Call Frame))
      → IsOrdered (run_with cs false (start fps timeout t now)).1
        × (((run_with cs false (start fps timeout t now)).0 ≡ true)
            ⊎ IsAccounted (run_with cs false (start fps timeout t now)).1)
  run_with-IsOrdered fps timeout now t cs = (
    run_with-Leaves IsOrdered end_closed cs false (start fps timeout t now) (
        unfold start in
        record {
          written = refl;
          has_reason = refl;
          summary_last = λ e. absurd (cc);
          renderer_second = λ e. absurd (cc);
          egress_first = λ e. absurd (cc);
        }),
    settled (run (calls_of cs) (start fps timeout t now)) refl
        (run_with-Matches cs (start fps timeout t now)),
  )
    where
      settled :
          (o : Option (Session Frame))
          → run (calls_of cs) (start fps timeout t now) ≡ o
          → Matches o (run_with cs false (start fps timeout t now))
          → ((run_with cs false (start fps timeout t now)).0 ≡ true)
            ⊎ IsAccounted (run_with cs false (start fps timeout t now)).1
      settled none e h = inl h
      settled (some s) e (inl h) = inl h
      settled (some s) e (inr h) =
          inr
            (subst IsAccounted (sym h) (run-start-IsAccounted fps timeout now t (calls_of cs) s e))
