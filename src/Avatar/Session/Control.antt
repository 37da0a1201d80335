-- ===== src/Avatar/Session/Control.antt =====
-- What the control messages do to the buffered speech of hydralisk/avatar/session.py.
use hydralisk.Prelude.{
  ℕ, ◌+◌, ◌<◌, ◌≡◌, ◌≢◌, refl, ap, ◌∙◌, ◌⊎◌, inl, inr, String, Bool, true, not, ◌&&◌, Option, none,
  some, List, [], ◌∷◌, ◌++◌, arith, eq_iff, if◌then◌else◌, Option-cases, replicate,
}
use hydralisk.Avatar.State.{
  listening, speaking, Machine, is_active, on_speak, on_speak_end, on_interrupt,
}
use hydralisk.Avatar.Audio.{Sample, clear}
use hydralisk.Avatar.Audio.Stream.{contents, contents-push, flush_tail_lem}
use hydralisk.Avatar.Protocol.{
  ControlMessage, speak, speak_end, interrupt, session_state, speak_started,
}
use hydralisk.Avatar.Scheduler.{FrameScheduler, put_pcm, flush_audio, end_of_utterance}
use hydralisk.Avatar.Session.Invariant.{IsQuiet, IsLive, IsLiveSession, on_speak_speaks}
use hydralisk.Avatar.Receipts.{event}
use hydralisk.Avatar.Session.{
  Session, handle_control, control_speak, control_speak_end, control_interrupt, is_some,
  state_events,
}

-- The samples that a session has yet to play.
abbrev pub speech : {Frame : Type 0} → Session Frame → List Sample
speech s = contents s.scheduler.assembler

IsQuiet-contents : (t : FrameScheduler) → IsQuiet t → contents t.assembler ≡ []
IsQuiet-contents t q = ground arith

not_speaking :
    (m : Machine) (t : FrameScheduler) → IsLive m t → m.active_event_id ≡ none → IsQuiet t
not_speaking m t v e = v.quiet λ h. v.machine.heard h e

abbrev pub speak_message : String → List Sample → ControlMessage
speak_message e pcm = record { type = speak; event_id = some e; pcm = some pcm }

on_speak-active : (e : String) (m : Machine) → (on_speak e m).1.active_event_id ≡ some e
unfolding on_speak
on_speak-active e m = elim (Option-cases m.active_event_id) [
  | inl f ↦ ground (arith, f)
  | inr (a, f) ↦ ground (arith, f, eq_iff e a)
]

abbrev pub interrupt_message : ControlMessage
interrupt_message = record { type = interrupt; event_id = none; pcm = none }

abbrev pub speak_end_message : Option String → ControlMessage
speak_end_message e = record { type = speak_end; event_id = e; pcm = none }

module _ {Frame : Type 0} (now : ℕ) (s : Session Frame) (live : IsLiveSession s) where
  -- PCM of the active utterance is appended to the speech that waits. PCM of a new utterance replaces
  -- it: nothing that is left of another utterance is played. In both cases the avatar then speaks
  -- that utterance, and the client is told of its start exactly if it is a new one.
  pub handle_control-speak :
      (e : String) (pcm : List Sample)
      → let r = handle_control now (speak_message e pcm) s in
        let known = is_active e s.machine.active_event_id in
        (speech r.1 ≡ (if known then speech s else []) ++ pcm)
        × (r.1.machine.state ≡ speaking)
        × (r.1.machine.active_event_id ≡ some e)
        × (r.0
            ≡ (if known then [] else speak_started (some e) ∷ [])
              ++ state_events (on_speak e s.machine).0 r.1.machine)
  unfolding handle_control control_speak
  handle_control-speak e pcm = (
    unfold put_pcm in
        contents-push pcm flushed.assembler
        ∙ ap (λ t. t ++ pcm) (kept (Option-cases s.machine.active_event_id)),
    on_speak_speaks e s.machine,
    on_speak-active e s.machine,
    refl,
  )
    where
      known : Bool
      known = is_active e s.machine.active_event_id

      flushed : FrameScheduler
      flushed =
          if not known && is_some s.machine.active_event_id
          then flush_audio s.scheduler
          else s.scheduler

      kept :
          (s.machine.active_event_id ≡ none) ⊎ ((a : String) × (s.machine.active_event_id ≡ some a))
          → contents flushed.assembler ≡ (if known then speech s else [])
      kept (inl f) = rw f (IsQuiet-contents s.scheduler (not_speaking s.machine s.scheduler live f))
      kept (inr (a, f)) = unfold flush_audio clear in ground (arith, f)

  -- An interrupt leaves no speech to play and nobody speaking. Of a speaking avatar it makes a
  -- listening one, tells the client so, and is counted in a receipt; otherwise it does nothing.
  pub handle_control-interrupt :
      let r = handle_control now interrupt_message s in
      (speech r.1 ≡ [])
      × (r.1.machine.state ≢ speaking)
      × ((s.machine.state ≡ speaking)
            × (r.1.machine.state ≡ listening)
            × (r.0 ≡ session_state listening ∷ [])
            × (r.1.receipts ≡ s.receipts ++ event "interrupt" (s.machine.interrupts + 1) ∷ [])
          ⊎ (s.machine.state ≢ speaking) × (r.0 ≡ []) × (r.1 ≡ record s { last_control = now }))
  unfolding handle_control control_interrupt on_interrupt flush_audio clear
  handle_control-interrupt = ground arith

  -- A late end of another utterance than the active one leaves the machine alone, but not the speech
  -- of the active utterance: if that has a partial tail, silence is put behind it, in the middle of
  -- the utterance. The jitter gate opens too.
  pub handle_control-stale_end :
      (e a : String)
      → s.machine.active_event_id ≡ some a
      → e ≢ a
      → let r = handle_control now (speak_end_message (some e)) s in
        (r.1.machine ≡ s.machine)
        × (r.1.scheduler.jitter_gate_open ≡ true)
        × (k : ℕ) × (speech r.1 ≡ speech s ++ replicate k 0)
        × ((s.scheduler.assembler.pending ≡ []) ⊎ (0 < k))
  unfolding handle_control control_speak_end on_speak_end end_of_utterance
  handle_control-stale_end e a active other =
      let (k, added, short, no_tail, some_tail) =
        flush_tail_lem s.scheduler.assembler live.ready.0 in
      (ground (arith, active, eq_iff e a), refl, k, added, some_tail)
