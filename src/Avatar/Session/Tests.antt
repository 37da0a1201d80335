-- ===== src/Avatar/Session/Tests.antt =====
-- Examples for hydralisk/avatar/session.py: `AvatarSession`.
use hydralisk.Prelude.{
  ℕ, ◌<◌, ◌≡◌, ◌≢◌, ◌⊎◌, refl, ap, String, true, false, none, some, List, [], ◌∷◌, ◌++◌, arith,
  str_eq, replicate,
}
use hydralisk.Avatar.State.{
  AvatarState, Machine, Reason, Event, initial, step, speaking, listening, idle, is_active,
  on_speak, on_interrupt, on_start_listening, move,
}
use hydralisk.Avatar.State
use hydralisk.Avatar.State.History.{run-initial-IsValid}
use hydralisk.Avatar.Clips.{ClipCatalog, state_clip_cycle, make_catalog}
use hydralisk.Avatar.Clips.Frames.{frame_for_total, default_clips, cycle_of-default}
use hydralisk.Avatar.Audio.{make_assembler}
use hydralisk.Avatar.Protocol.{session_state, speak_started, speak_ended}
use hydralisk.Avatar.Scheduler.{FrameScheduler, make_scheduler}
use hydralisk.Avatar.Scheduler.Frames.{Covers}
use hydralisk.Avatar.Session.{
  Session, Call, control, begins, round, stops, start, run, handle_control, loop_round,
}
use hydralisk.Avatar.Session.Invariant.{IsLiveSession}
use hydralisk.Avatar.Session.Faults.{
  Faults, no_faults, without_faults, calls_of, run_with, stop_with,
}
use hydralisk.Avatar.Session.Faults.Live.{run_with-IsLive}
use hydralisk.Avatar.Session.Faults.Orderly.{IsOrdered, run_with-IsOrdered}
use hydralisk.Avatar.Session.Control.{
  speech, speak_message, speak_end_message, handle_control-speak, handle_control-stale_end,
}
use hydralisk.Avatar.Session.Drains.{ticks, ticks-ends}
use hydralisk.Avatar.Session.Ending.{IsAccounted}
use hydralisk.Avatar.Session.Failures.{failing, failing-stops, loop_round_keepalive}

abbrev catalog : ClipCatalog
catalog = record { frames_per_clip = 192; state_cycles = state_clip_cycle }

abbrev fresh : FrameScheduler
fresh = record {
  catalog = catalog;
  fps = 25;
  sample_rate = 100;
  audio_chunks_per_frame = 2;
  chunk_samples = 2;
  crossfade_frames = 3;
  jitter_buffer_chunks = 8;
  assembler = record { chunk_samples = 2; chunks = []; pending = [] };
  frame_number = 0;
  frames_rendered = 0;
  speaking_frames = 0;
  active_state = idle;
  cursor = 0;
  crossfade_remaining = 0;
  crossfade_state = none;
  crossfade_cursor = 0;
  jitter_gate_open = false;
}

make_scheduler-fresh : make_scheduler catalog 25 100 2 3 4 ≡ some fresh
unfolding make_scheduler make_assembler
make_scheduler-fresh = refl

-- A viewer speaks, a frame is shown, and the renderer fails once.
abbrev a_visit : List (Call ℕ)
a_visit =
    control 1000 (speak_message "a" (1 ∷ 2 ∷ 3 ∷ []))
    ∷ begins 1010
    ∷ round (λ job. some job.frame_number) true 1040
    ∷ round (λ job. none) false 1080
    ∷ control 1100 (speak_end_message (some "a"))
    ∷ []

-- Then the renderer does not close: the session is stopped, and a second call of `stop` changes nothing.
abbrev a_bad_end : List (Faults × Call ℕ)
a_bad_end =
    without_faults a_visit
    ++ (record no_faults { renderer_raises = true }, stops "client" 2000)
      ∷ (no_faults, stops "again" 2001)
      ∷ []

run_with-IsLive_example :
    IsLiveSession (run_with a_bad_end false (start 25 60000 fresh 500)).1
    × ((s : Session ℕ) × (run (calls_of a_bad_end) (start 25 60000 fresh 500) ≡ some s)
        × (run_with (without_faults (calls_of a_bad_end)) false (start 25 60000 fresh 500)
            ≡ (false, s))
        × IsLiveSession s
        × (((run_with a_bad_end false (start 25 60000 fresh 500)).0 ≡ true)
            ⊎ ((run_with a_bad_end false (start 25 60000 fresh 500)).1 ≡ s)))
unfolding make_catalog
run_with-IsLive_example =
    run_with-IsLive catalog 100 2 3 4 25 60000 500 fresh a_bad_end refl make_scheduler-fresh

run_with-IsOrdered_example :
    IsOrdered (run_with a_bad_end false (start 25 60000 fresh 500)).1
    × (((run_with a_bad_end false (start 25 60000 fresh 500)).0 ≡ true)
        ⊎ IsAccounted (run_with a_bad_end false (start 25 60000 fresh 500)).1)
run_with-IsOrdered_example = run_with-IsOrdered 25 60000 500 fresh a_bad_end

-- The stop that raises leaves a stopped session with an open renderer and no summary.
stop_with-raises :
    let o =
      stop_with
        (record no_faults { renderer_raises = true })
        "client"
        2000
        (start {Frame = ℕ} 25 60000 fresh 500) in
    (o.0 ≡ true) × (o.1.stopped ≡ true) × (o.1.renderer_closed ≡ false) × (o.1.last_summary ≡ none)
unfolding stop_with start
stop_with-raises = (refl, refl, refl, refl)

catalog-Covers : Covers catalog
catalog-Covers state cursor =
    let (r, e, _, _, _) =
      frame_for_total 192 [] catalog state (default_clips state) cursor
        (unfold make_catalog in refl) (cycle_of-default state) in
    (r, e)

-- Utterance "a" is being spoken: one chunk and half another wait.
abbrev speaks_a : Session ℕ
speaks_a = record {
  fps = 25;
  keepalive_timeout = 60000;
  machine = record {
    state = speaking;
    active_event_id = some "a";
    end_pending = false;
    interrupts = 0;
    utterances = 1;
    transitions = record { previous = idle; current = speaking; reason = Reason.speak } ∷ [];
  };
  scheduler = record fresh {
    assembler = record { chunk_samples = 2; chunks = (1 ∷ 2 ∷ []) ∷ []; pending = 3 ∷ [] };
  };
  created = 0;
  last_control = 0;
  stopped = false;
  stop_reason = none;
  last_summary = none;
  outbox = [];
  receipts = [];
  video = [];
  audio = [];
  egress_closed = false;
  renderer_closed = false;
  last_good_frame = none;
  render_failures = 0;
}

ticks-ends_example :
    (t : Session ℕ) × (ticks
        (λ job. job.frame_number)
        7
        1
        (handle_control 7 (speak_end_message (some "a")) speaks_a).1
      ≡ some t)
    × (t.machine.state ≡ idle)
    × (t.machine.active_event_id ≡ none)
    × (t.outbox ≡ speak_ended (some "a") ∷ session_state idle ∷ [])
ticks-ends_example =
    ticks-ends (λ job. job.frame_number) 7 speaks_a "a" 1 refl refl (omega arith) catalog-Covers

failing-stops_example :
    (t : Session ℕ) × (failing 7 75 speaks_a ≡ some t)
    × (t.render_failures ≡ 75)
    × (t.stopped ≡ true)
    × (t.stop_reason ≡ some "render_error")
failing-stops_example = failing-stops 7 75 speaks_a catalog-Covers refl (omega arith) (omega arith)

loop_round_keepalive_example :
    (t : Session ℕ) × (loop_round (λ job. some job.frame_number) false 60001 speaks_a ≡ some t)
    × (t.stopped ≡ true)
    × (t.stop_reason ≡ some "keepalive_timeout")
loop_round_keepalive_example =
    loop_round_keepalive (λ job. job.frame_number) false 60001 speaks_a catalog-Covers refl

speaks_a-IsLive : IsLiveSession speaks_a
unfolding State.run step on_speak move
speaks_a-IsLive = record {
  machine = run-initial-IsValid (Event.speak "a" ∷ []);
  ready =
      (record { size_pos = omega arith; full_chunks = (refl, tt); short_tail = omega arith }, refl);
  quiet = λ h. absurd (h refl);
}

handle_control-speak_example :
    let r = handle_control 9 (speak_message "b" (7 ∷ [])) speaks_a in
    (speech r.1 ≡ 7 ∷ [])
    × (r.1.machine.state ≡ speaking)
    × (r.1.machine.active_event_id ≡ some "b")
    × (r.0 ≡ speak_started (some "b") ∷ [])
unfolding on_speak move
handle_control-speak_example = handle_control-speak 9 speaks_a speaks_a-IsLive "b" (7 ∷ [])

a_is_not_b : ◌≢◌ {A = String} "b" "a"
a_is_not_b h = let same : str_eq "b" "a" ≡ true = ap (λ s. str_eq s "a") h in absurd (cc)

handle_control-stale_end_example :
    let r = handle_control 9 (speak_end_message (some "b")) speaks_a in
    (r.1.machine ≡ speaks_a.machine)
    × (r.1.scheduler.jitter_gate_open ≡ true)
    × (k : ℕ) × (speech r.1 ≡ 1 ∷ 2 ∷ 3 ∷ replicate k 0)
    × ((speaks_a.scheduler.assembler.pending ≡ []) ⊎ (0 < k))
handle_control-stale_end_example =
    handle_control-stale_end 9 speaks_a speaks_a-IsLive "b" "a" refl a_is_not_b
