-- ===== src/Avatar/Session/Drains.antt =====
-- The end of an utterance in a session of hydralisk/avatar/session.py: that the avatar stops speaking.
use mathlib.Core.Path.{subst, subst₂}
use hydralisk.Prelude.{
  ℕ, zero, suc, ◌+◌, ◌*◌, ◌≤◌, ◌<◌, ◌≡◌, refl, sym, ap, ◌∙◌, ◌⊎◌, inl, inr, String, true, false,
  Option, none, some, List, [], ◌∷◌, ◌++◌, arith, length, eq_iff, Bool-cases, append_assoc,
  length-append, List-cases, drop, replicate,
}
use hydralisk.Avatar.State.{speaking, idle, is_stale, on_speak_end, on_audio_drained, move}
use hydralisk.Avatar.Audio.{Assembler, flush_tail, buffered_chunks}
use hydralisk.Avatar.Protocol.{ServerEvent, session_state, speak_ended}
use hydralisk.Avatar.Scheduler.{
  FrameScheduler, FrameJob, next_frame, audio_drained, end_of_utterance,
}
use hydralisk.Avatar.Scheduler.Frames.{Covers, next_frame_total}
use hydralisk.Avatar.Scheduler.Drain.{
  Draining, next_frame-Draining, next_frame-catalog, Draining-empty,
}
use hydralisk.Avatar.Session.{
  Session, handle_control, control_speak_end, end_drained, finish_tick, tick_async, rendered,
}
use hydralisk.Avatar.Session.Control.{speak_end_message}

positive_of : (n b k : ℕ) → b + 1 ≤ n * k → 0 < n
positive_of zero b k h = absurd (omega (arith, h))
positive_of (suc n) b k h = omega arith

module _ {Frame : Type 0} (render : FrameJob → Frame) (now : ℕ) where
  -- Ticks of the render loop while the renderer works.
  unfoldable pub ticks : ℕ → Session Frame → Option (Session Frame)
  ticks zero s = some s
  ticks (suc n) s = elim (tick_async (λ job. some (render job)) now s) [
    | none ↦ none
    | some s' ↦ ticks n s'
  ]

  -- The session speaks, knows that no more speech follows, and has at most `n` ticks of it left.
  record Closing (n : ℕ) (s : Session Frame) : Type 0 where
    speaks : s.machine.state ≡ speaking
    ending : s.machine.end_pending ≡ true
    draining : Draining n s.scheduler

  -- The session is silent and has told the client so.
  record Ended (outbox : List ServerEvent) (active : Option String) (s : Session Frame)
      : Type 0 where
    idles : s.machine.state ≡ idle
    settled : s.machine.end_pending ≡ false
    inactive : s.machine.active_event_id ≡ none
    told : s.outbox ≡ outbox ++ speak_ended active ∷ session_state idle ∷ []

  end_drained-drained :
      (s : Session Frame)
      → s.machine.state ≡ speaking
      → s.machine.end_pending ≡ true
      → audio_drained s.scheduler ≡ true
      → Ended s.outbox s.machine.active_event_id (end_drained s)
  unfolding end_drained on_audio_drained move
  end_drained-drained s speaks ending empty_now = ground (
    arith,
    append_assoc s.outbox (speak_ended s.machine.active_event_id ∷ []) (session_state idle ∷ []),
  )

  end_drained-waits :
      (s : Session Frame)
      → (s.machine.end_pending ≡ false) ⊎ (audio_drained s.scheduler ≡ false)
      → end_drained s ≡ s
  unfolding end_drained
  end_drained-waits s (inl h) = rw h refl
  end_drained-waits s (inr h) = elim (Bool-cases s.machine.end_pending) [
    | inl e ↦ rw (e, h) refl
    | inr e ↦ rw e refl
  ]

  -- The session of a tick before its last step.
  abbrev played : FrameJob → FrameScheduler → Session Frame → Session Frame
  played job t s = record s {
    scheduler = t;
    last_good_frame = some (render job);
    render_failures = 0;
    video = s.video ++ render job ∷ [];
    audio = s.audio ++ job.audio_chunks;
  }

  tick_played :
      (s : Session Frame) (job : FrameJob) (t : FrameScheduler)
      → next_frame s.machine.state s.scheduler ≡ some (job, t)
      → tick_async (λ job. some (render job)) now s ≡ some (end_drained (played job t s))
  unfolding tick_async finish_tick
  tick_played s job t e = ap outcome e
    where
      outcome : Option (FrameJob × FrameScheduler) → Option (Session Frame)
      outcome o = elim o [
        | none ↦ none
        | some (j, u) ↦ some (rendered now j (some (render j)) (record s { scheduler = u }))
      ]

  tick-Ended :
      (outbox : List ServerEvent) (active : Option String) (s : Session Frame)
      → Ended outbox active s
      → Covers s.scheduler.catalog
      → (t : Session Frame) × (tick_async (λ job. some (render job)) now s ≡ some t)
        × Ended outbox active t
        × Covers t.scheduler.catalog
  tick-Ended outbox active s d covers =
      let (job, t, e) = next_frame_total s.machine.state s.scheduler covers in
      let still = end_drained-waits (played job t s) (inl d.settled) in
      (
        played job t s,
        tick_played s job t e ∙ ap some still,
        record { idles = d.idles; settled = d.settled; inactive = d.inactive; told = d.told },
        subst Covers (sym (next_frame-catalog s.machine.state s.scheduler job t e)) covers,
      )

  ticks-Ended :
      (n : ℕ) (outbox : List ServerEvent) (active : Option String) (s : Session Frame)
      → Ended outbox active s
      → Covers s.scheduler.catalog
      → (t : Session Frame) × (ticks n s ≡ some t) × Ended outbox active t
  unfolding ticks
  ticks-Ended zero outbox active s d covers = (s, refl, d)
  ticks-Ended (suc n) outbox active s d covers =
      let (s', e, d', covers') = tick-Ended outbox active s d covers in
      let (t, f, ended) = ticks-Ended n outbox active s' d' covers' in
      (t, ground (arith, e, f), ended)

  end_drained-scheduler : (s : Session Frame) → (end_drained s).scheduler ≡ s.scheduler
  unfolding end_drained on_audio_drained
  end_drained-scheduler s = ground arith

  -- A tick of a closing session ends the utterance, or leaves one tick less.
  tick-Closing :
      (n : ℕ) (s : Session Frame)
      → Closing (suc n) s
      → Covers s.scheduler.catalog
      → (t : Session Frame) × (tick_async (λ job. some (render job)) now s ≡ some t)
        × Covers t.scheduler.catalog
        × (Ended s.outbox s.machine.active_event_id t
            ⊎ (Closing n t
                × (audio_drained t.scheduler ≡ false)
                × (t.outbox ≡ s.outbox)
                × (t.machine.active_event_id ≡ s.machine.active_event_id)))
  tick-Closing n s c covers = (
    end_drained made,
    tick_played s job u framed.2,
    subst (λ (v : FrameScheduler). Covers v.catalog) (sym (end_drained-scheduler made)) covers',
    by_drained (Bool-cases (audio_drained u)),
  )
    where
      framed :
          (job : FrameJob) × (u : FrameScheduler) × (next_frame s.machine.state s.scheduler
            ≡ some (job, u))
      framed = next_frame_total s.machine.state s.scheduler covers

      job : FrameJob
      job = framed.0

      u : FrameScheduler
      u = framed.1

      made : Session Frame
      made = played job u s

      left : Draining n u
      left = next_frame-Draining n s.scheduler job u c.draining (rw (sym c.speaks) framed.2)

      covers' : Covers u.catalog
      covers' =
          subst Covers (sym (next_frame-catalog s.machine.state s.scheduler job u framed.2)) covers

      waiting : Session Frame → Type 0
      waiting t =
          Closing n t
          × (audio_drained t.scheduler ≡ false)
          × (t.outbox ≡ s.outbox)
          × (t.machine.active_event_id ≡ s.machine.active_event_id)

      by_drained :
          (audio_drained u ≡ true) ⊎ (audio_drained u ≡ false)
          → Ended s.outbox s.machine.active_event_id (end_drained made) ⊎ waiting (end_drained made)
      by_drained (inl h) = inl (end_drained-drained made c.speaks c.ending h)
      by_drained (inr h) = inr (
          subst waiting (sym (end_drained-waits made (inr h)))
            (record { speaks = c.speaks; ending = c.ending; draining = left }, h, refl, refl))

  ticks-Closing :
      (n : ℕ) (s : Session Frame)
      → Closing n s
      → (0 < n) ⊎ (audio_drained s.scheduler ≡ false)
      → Covers s.scheduler.catalog
      → (t : Session Frame) × (ticks n s ≡ some t) × Ended s.outbox s.machine.active_event_id t
  unfolding ticks
  ticks-Closing zero s c (inl h) covers = absurd (omega arith)
  ticks-Closing zero s c (inr h) covers =
      absurd (ground (arith, Draining-empty s.scheduler c.draining, h))
  ticks-Closing (suc n) s c some_left covers =
      let (s', e, covers', after) = tick-Closing n s c covers in
      elim after [
        | inl d ↦
            let (t, f, ended) = ticks-Ended n s.outbox s.machine.active_event_id s' d covers' in
            (t, ground (arith, e, f), ended)
        | inr (c', some_left', same, active) ↦
            let (t, f, ended) = ticks-Closing n s' c' (inr some_left') covers' in
            (
              t,
              ground (arith, e, f),
              subst₂ (λ outbox active. Ended outbox active t) same active ended,
            )
      ]

  flush_tail-few : (a : Assembler) → length (flush_tail a).chunks ≤ buffered_chunks a + 1
  unfolding flush_tail
  flush_tail-few a = elim (List-cases a.pending) [
    | inl e ↦ ground (arith, e)
    | inr (x, xs, e) ↦ ground (
      arith,
      e,
      length-append a.chunks
          ((a.pending ++ drop (length a.pending) (replicate a.chunk_samples 0)) ∷ []),
    )
  ]

  flush_tail-no_tail : (a : Assembler) → (flush_tail a).pending ≡ []
  unfolding flush_tail
  flush_tail-no_tail a = ground arith

  -- An utterance ends: once `speak_end` comes for the utterance that the avatar speaks, as many ticks
  -- as its buffered chunks need (the padded tail counts as one) leave the avatar idle with no active
  -- utterance, provided the renderer works; and in these ticks the client is told just
  -- `speak_ended` of that utterance and the new state, once each.
  pub ticks-ends :
      (s : Session Frame) (e : String) (n : ℕ)
      → s.machine.state ≡ speaking
      → s.machine.active_event_id ≡ some e
      → buffered_chunks s.scheduler.assembler + 1 ≤ n * s.scheduler.audio_chunks_per_frame
      → Covers s.scheduler.catalog
      → (t : Session Frame) × (ticks n (handle_control now (speak_end_message (some e)) s).1
          ≡ some t)
        × (t.machine.state ≡ idle)
        × (t.machine.active_event_id ≡ none)
        × (t.outbox ≡ s.outbox ++ speak_ended (some e) ∷ session_state idle ∷ [])
  unfolding handle_control control_speak_end on_speak_end end_of_utterance
  ticks-ends s e n speaks active enough covers =
      let (t, ticked, ended) =
        ticks-Closing n (handle_control now (speak_end_message (some e)) s).1 closing (inl positive)
          covers in
      (
        t,
        ticked,
        ended.idles,
        ended.inactive,
        ended.told ∙ ap (λ a. s.outbox ++ speak_ended a ∷ session_state idle ∷ []) still,
      )
    where
      fresh : is_stale (some e) s.machine.active_event_id ≡ false
      fresh = ground (arith, active, eq_iff e e)

      marked : on_speak_end (some e) s.machine ≡ record s.machine { end_pending = true }
      marked = ground (arith, fresh, speaks)

      still : (on_speak_end (some e) s.machine).active_event_id ≡ some e
      still = ground (arith, marked, active)

      positive : 0 < n
      positive =
          positive_of n (buffered_chunks s.scheduler.assembler) s.scheduler.audio_chunks_per_frame
            enough

      closing : Closing n (handle_control now (speak_end_message (some e)) s).1
      closing = record {
        speaks = ground (arith, marked, speaks);
        ending = ground (arith, marked);
        draining = record {
          no_tail = flush_tail-no_tail s.scheduler.assembler;
          few = omega (arith, flush_tail-few s.scheduler.assembler, enough);
          gate = inl refl;
        };
      }
