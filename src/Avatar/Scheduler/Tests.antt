-- ===== src/Avatar/Scheduler/Tests.antt =====
-- Examples for hydralisk/avatar/scheduler.py.
use hydralisk.Prelude.{◌≡◌, refl, true, false, none, some, [], ◌∷◌, arith}
use hydralisk.Avatar.State.{idle, speaking}
use hydralisk.Avatar.Clips.{ClipCatalog, state_clip_cycle, make_catalog}
use hydralisk.Avatar.Audio.Stream
use hydralisk.Avatar.Scheduler.{
  FrameScheduler, FrameJob, next_frame, take_audio, consume, observe_state, crossfade, take_chunks,
}
use hydralisk.Avatar.Clips.Frames.{frame_for_total, default_clips, cycle_of-default}
use hydralisk.Avatar.Scheduler.Audio.{Carries}
use hydralisk.Avatar.Scheduler.Frames.{next_frame-Carries, Covers}
use hydralisk.Avatar.Scheduler.Blend.{IsBlending, advance, ramp, crossfade_ramp}
use hydralisk.Avatar.Clips.{frame_for, cycle_of, cycle_length, mirror_index, frame_at}
use hydralisk.Avatar.Audio.{pop}

abbrev catalog : ClipCatalog
catalog = record { frames_per_clip = 4; state_cycles = state_clip_cycle }

-- One chunk of two samples and half another wait, and the avatar begins to speak.
abbrev waiting : FrameScheduler
waiting = record {
  catalog = catalog;
  fps = 25;
  sample_rate = 50;
  audio_chunks_per_frame = 1;
  chunk_samples = 2;
  crossfade_frames = 2;
  jitter_buffer_chunks = 1;
  assembler = record { chunk_samples = 2; chunks = (1 ∷ 2 ∷ []) ∷ []; pending = 3 ∷ [] };
  frame_number = 7;
  frames_rendered = 7;
  speaking_frames = 0;
  active_state = idle;
  cursor = 7;
  crossfade_remaining = 0;
  crossfade_state = none;
  crossfade_cursor = 0;
  jitter_gate_open = false;
}

abbrev first_job : FrameJob
first_job = record {
  frame_number = 7;
  state = speaking;
  clip = record { clip_index = 8; frame_index = 0 };
  speaking = true;
  audio_chunks = (1 ∷ 2 ∷ []) ∷ [];
  crossfade_from = some (record { clip_index = 3; frame_index = 3 });
  crossfade_alpha = record { numerator = 1; denominator = 3 };
}

abbrev after_first : FrameScheduler
after_first = record waiting {
  assembler = record { chunk_samples = 2; chunks = []; pending = 3 ∷ [] };
  frame_number = 8;
  frames_rendered = 8;
  speaking_frames = 1;
  active_state = speaking;
  cursor = 1;
  crossfade_remaining = 1;
  crossfade_state = some idle;
  crossfade_cursor = 8;
  jitter_gate_open = true;
}

next_frame-waiting : next_frame speaking waiting ≡ some (first_job, after_first)
unfolding next_frame take_audio consume observe_state crossfade take_chunks frame_for cycle_of
    cycle_length mirror_index frame_at pop
next_frame-waiting = refl

waiting-IsValid : Stream.IsValid waiting.assembler
waiting-IsValid = record {
  size_pos = omega arith;
  full_chunks = (refl, tt);
  short_tail = omega arith;
}

waiting-IsBlending : IsBlending waiting
waiting-IsBlending = record {
  within = omega arith;
  source = ((λ h. absurd (h refl)), λ h. absurd (omega (arith, h)));
}

catalog-Covers : Covers catalog
catalog-Covers state cursor =
    let (r, e, _, _, _) =
      frame_for_total 4 [] catalog state (default_clips state) cursor (unfold make_catalog in refl)
        (cycle_of-default state) in
    (r, e)

next_frame-Carries_example :
    Carries 2 1 waiting.assembler first_job.audio_chunks true after_first.assembler
next_frame-Carries_example =
    next_frame-Carries speaking waiting first_job after_first (waiting-IsValid, refl)
      next_frame-waiting

crossfade_ramp_example : first_job.crossfade_alpha ≡ ramp 0 2
crossfade_ramp_example =
    crossfade_ramp 0 speaking waiting waiting after_first first_job waiting-IsBlending
      (λ h. ground (arith, h)) (unfold advance in refl) next_frame-waiting
