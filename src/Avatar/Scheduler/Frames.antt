-- ===== src/Avatar/Scheduler/Frames.antt =====
-- One frame of hydralisk/avatar/scheduler.py: what a job holds and what it leaves.
use mathlib.Core.Path.{transport}
use hydralisk.Prelude.{
  ℕ, ◌+◌, ◌≡◌, refl, sym, ap, ◌∙◌, ◌⊎◌, inl, inr, false, none, some, arith, ltb, if◌then◌else◌,
  Option-cases, if_cases,
}
use hydralisk.Avatar.State.{AvatarState, speaking, same_state}
use hydralisk.Avatar.Clips.{ClipCatalog, ClipFrameRef, frame_for}
use hydralisk.Avatar.Scheduler.Audio.{Carries, IsReady, CarriesAudio, take_audio-Carries}
use hydralisk.Avatar.Scheduler.{
  FrameScheduler, FrameJob, Audio, Blend, consume, observe_state, take_audio, crossfade, blend_from,
  count_frame, next_frame,
}

-- The audio of the frame, and the scheduler once it is taken.
abbrev pub heard : AvatarState → FrameScheduler → Audio
heard state s = take_audio state (observe_state state s)

abbrev pub job_of : Audio → ClipFrameRef → Blend → FrameJob
job_of a clip b = record {
  frame_number = a.2.frame_number;
  state = a.2.active_state;
  clip = clip;
  speaking = a.1;
  audio_chunks = a.0;
  crossfade_from = b.0;
  crossfade_alpha = b.1;
}

-- The parts of a frame that was made.
pub record Parts (a : Audio) (job : FrameJob) (s' : FrameScheduler) : Type 0 where
  pub clip : ClipFrameRef
  pub blend : Blend
  pub found : frame_for a.2.catalog a.2.active_state a.2.cursor ≡ some clip
  pub blended : crossfade a.2 ≡ some blend
  pub job_eq : job ≡ job_of a clip blend
  pub after_eq : s' ≡ count_frame a.1 blend.2

pub next_frame-Parts :
    (state : AvatarState) (s : FrameScheduler) (job : FrameJob) (s' : FrameScheduler)
    → next_frame state s ≡ some (job, s')
    → Parts (heard state s) job s'
unfolding next_frame
next_frame-Parts state s job s' e =
    elim (Option-cases (
      frame_for (heard state s).2.catalog (heard state s).2.active_state
        (heard state s).2.cursor)) [
          | inl n ↦ absurd (ground (arith, n))
          | inr (clip, p) ↦ elim (Option-cases (crossfade (heard state s).2)) [
            | inl n ↦ absurd (ground (arith, p, n))
            | inr (b, q) ↦ record {
              clip = clip;
              blend = b;
              found = p;
              blended = q;
              job_eq = ground (arith, p, q);
              after_eq = ground (arith, p, q);
            }
          ]
        ]

-- The fields that neither the audio nor the state of a frame changes.
pub record SameRates (s t : FrameScheduler) : Type 0 where
  pub chunk_samples : t.chunk_samples ≡ s.chunk_samples
  pub per_frame : t.audio_chunks_per_frame ≡ s.audio_chunks_per_frame
  pub catalog : t.catalog ≡ s.catalog
  pub crossfade_frames : t.crossfade_frames ≡ s.crossfade_frames
  pub jitter : t.jitter_buffer_chunks ≡ s.jitter_buffer_chunks
  pub number : t.frame_number ≡ s.frame_number
  pub rendered : t.frames_rendered ≡ s.frames_rendered
  pub spoken : t.speaking_frames ≡ s.speaking_frames

pub observe_state-SameRates :
    (state : AvatarState) (s : FrameScheduler) → SameRates s (observe_state state s)
unfolding observe_state
observe_state-SameRates state s = ground arith

pub observe_state-assembler :
    (state : AvatarState) (s : FrameScheduler) → (observe_state state s).assembler ≡ s.assembler
unfolding observe_state
observe_state-assembler state s = ground arith

take_audio-SameRates :
    (state : AvatarState) (s : FrameScheduler) → SameRates s (take_audio state s).2
unfolding take_audio consume
take_audio-SameRates state s = ground arith

pub heard-SameRates : (state : AvatarState) (s : FrameScheduler) → SameRates s (heard state s).2
heard-SameRates state s =
    ground
      (arith, take_audio-SameRates state (observe_state state s), observe_state-SameRates state s)

pub crossfade-SameRates :
    (s : FrameScheduler) (b : Blend)
    → crossfade s ≡ some b
    → SameRates s b.2
      × (b.2.assembler ≡ s.assembler)
      × (b.2.active_state ≡ s.active_state)
      × (b.2.jitter_gate_open ≡ s.jitter_gate_open)
unfolding crossfade
crossfade-SameRates s b e = ground arith

observe_state-Carries :
    (state : AvatarState) (s : FrameScheduler) → IsReady s → IsReady (observe_state state s)
unfolding observe_state
observe_state-Carries state s v =
    if_cases IsReady (same_state state s.active_state) _ _ (λ _. v)
      λ _.
        if_cases
          (λ t. IsReady (record t {
            active_state = state;
            cursor = 0;
            jitter_gate_open = if same_state state speaking then s.jitter_gate_open else false;
          }))
          (ltb 0 s.crossfade_frames) _ _ (λ _. v) (λ _. v)

-- A frame carries exactly `audio_chunks_per_frame` chunks of `chunk_samples` samples. They are the
-- front of the buffered stream, in order, and then silence; what they do not hold stays buffered.
-- A frame that is not marked as speaking takes nothing from the stream.
pub next_frame-Carries :
    (state : AvatarState) (s : FrameScheduler) (job : FrameJob) (s' : FrameScheduler)
    → IsReady s
    → next_frame state s ≡ some (job, s')
    → Carries s.chunk_samples s.audio_chunks_per_frame s.assembler job.audio_chunks job.speaking
        s'.assembler
next_frame-Carries state s job s' v e = moved (next_frame-Parts state s job s' e)
  where
    o : FrameScheduler
    o = observe_state state s

    c : CarriesAudio o (heard state s)
    c = take_audio-Carries state o (observe_state-Carries state s v)

    moved :
        Parts (heard state s) job s'
        → Carries s.chunk_samples s.audio_chunks_per_frame s.assembler job.audio_chunks job.speaking
            s'.assembler
    moved p =
        let rates = observe_state-SameRates state s in
        let kept = crossfade-SameRates (heard state s).2 p.blend p.blended in
        transport
          (λ i.
            Carries (rates.chunk_samples i) (rates.per_frame i) (observe_state-assembler state s i)
              (sym p.job_eq i).audio_chunks (sym p.job_eq i).speaking
              (sym (ap (λ (t : FrameScheduler). t.assembler) p.after_eq ∙ kept.1) i))
          c

-- Playing one frame numbers it, and counts it as rendered, and as speaking where it is.
pub next_frame-counts :
    (state : AvatarState) (s : FrameScheduler) (job : FrameJob) (s' : FrameScheduler)
    → next_frame state s ≡ some (job, s')
    → (job.frame_number ≡ s.frame_number)
      × (s'.frame_number ≡ s.frame_number + 1)
      × (s'.frames_rendered ≡ s.frames_rendered + 1)
      × (s'.speaking_frames ≡ (if job.speaking then s.speaking_frames + 1 else s.speaking_frames))
next_frame-counts state s job s' e = counted (next_frame-Parts state s job s' e)
  where
    counted :
        Parts (heard state s) job s'
        → (job.frame_number ≡ s.frame_number)
          × (s'.frame_number ≡ s.frame_number + 1)
          × (s'.frames_rendered ≡ s.frames_rendered + 1)
          × (s'.speaking_frames
              ≡ (if job.speaking then s.speaking_frames + 1 else s.speaking_frames))
    counted p = ground (
      arith,
      p.job_eq,
      p.after_eq,
      heard-SameRates state s,
      crossfade-SameRates (heard state s).2 p.blend p.blended,
    )

-- A catalogue with a frame for every state and cursor.
abbrev pub Covers : ClipCatalog → Type 0
Covers c =
    (state : AvatarState) (cursor : ℕ) → (r : ClipFrameRef) × (frame_for c state cursor ≡ some r)

crossfade_total : (s : FrameScheduler) → Covers s.catalog → (b : Blend) × (crossfade s ≡ some b)
unfolding crossfade
crossfade_total s h =
    if_cases (λ o. (b : Blend) × (o ≡ some b)) (ltb 0 s.crossfade_remaining) _ _
      (λ _. blended (Option-cases s.crossfade_state)) (λ _. (_, refl))
  where
    blended :
        (s.crossfade_state ≡ none) ⊎ ((old : AvatarState) × (s.crossfade_state ≡ some old))
        → (b : Blend) × (blend_from s.crossfade_state s ≡ some b)
    blended (inl e) = rw e (_, refl)
    blended (inr (old, e)) = let (r, f) = h old s.crossfade_cursor in rw (e, f) (_, refl)

-- The scheduler never fails over a catalogue with a frame for every state and cursor.
pub next_frame_total :
    (state : AvatarState) (s : FrameScheduler)
    → Covers s.catalog
    → (job : FrameJob) × (s' : FrameScheduler) × (next_frame state s ≡ some (job, s'))
unfolding next_frame
next_frame_total state s h =
    let a = heard state s in
    let covers : Covers a.2.catalog = rw (heard-SameRates state s).catalog h in
    let (clip, found) = covers a.2.active_state a.2.cursor in
    let (b, blended) = crossfade_total a.2 covers in
    (job_of a clip b, count_frame a.1 b.2, rw (found, blended))
