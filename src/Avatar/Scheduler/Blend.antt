-- ===== src/Avatar/Scheduler/Blend.antt =====
-- The crossfade of hydralisk/avatar/scheduler.py.
use mathlib.Core.Path.{subst}
use hydralisk.Prelude.{
  ℕ, zero, suc, ◌+◌, ◌-◌, ◌≤◌, ◌<◌, ◌≡◌, ◌≢◌, inl, inr, ◌↔◌, Option, none, some, arith, ltb,
  if◌then◌else◌, Option-cases,
}
use hydralisk.Avatar.State.{AvatarState}
use hydralisk.Avatar.Clips.{ClipFrameRef}
use hydralisk.Avatar.Scheduler.{
  FrameScheduler, FrameJob, Fraction, Blend, whole, consume, observe_state, take_audio, crossfade,
  next_frame,
}
use hydralisk.Avatar.Scheduler.Frames.{heard, Parts, next_frame-Parts}

-- The blending of a scheduler: `remaining` frames are left to blend, out of `crossfade_frames`, from
-- a state that is known exactly while some are left.
pub record IsBlending (s : FrameScheduler) : Type 0 where
  pub within : s.crossfade_remaining ≤ s.crossfade_frames
  pub source : (s.crossfade_state ≢ none) ↔ (0 < s.crossfade_remaining)

observe_state-IsBlending :
    (state : AvatarState) (s : FrameScheduler) → IsBlending s → IsBlending (observe_state state s)
unfolding observe_state
observe_state-IsBlending state s v = ground arith

take_audio-IsBlending :
    (state : AvatarState) (s : FrameScheduler) → IsBlending s → IsBlending (take_audio state s).2
unfolding take_audio consume
take_audio-IsBlending state s v = ground arith

-- A blend has a source exactly where its weight is below one, and then lies strictly between.
abbrev pub IsBlend : Option ClipFrameRef → Fraction → Type 0
IsBlend none w = w ≡ whole
IsBlend (some r) w = (0 < w.numerator) × (w.numerator < w.denominator)

crossfade-IsBlending :
    (s : FrameScheduler) (b : Blend)
    → IsBlending s
    → crossfade s ≡ some b
    → IsBlending b.2 × IsBlend b.0 b.1
unfolding crossfade
crossfade-IsBlending s b v e = ground arith

-- Blending stays in order over a frame, and the job blends exactly where its weight is not whole:
-- the weight of the new state's frame is then strictly between 0 and 1.
pub next_frame-IsBlending :
    (state : AvatarState) (s : FrameScheduler) (job : FrameJob) (s' : FrameScheduler)
    → IsBlending s
    → next_frame state s ≡ some (job, s')
    → IsBlending s' × IsBlend job.crossfade_from job.crossfade_alpha
next_frame-IsBlending state s job s' v e = moved (next_frame-Parts state s job s' e)
  where
    moved :
        Parts (heard state s) job s'
        → IsBlending s' × IsBlend job.crossfade_from job.crossfade_alpha
    moved p =
        let (kept, blend) =
          crossfade-IsBlending (heard state s).2 p.blend
            (take_audio-IsBlending state (observe_state state s)
              (observe_state-IsBlending state s v))
            p.blended in
        rw (p.job_eq, p.after_eq) (record { within = kept.within; source = kept.source }, blend)

-- The scheduler after `n` frames of one state.
unfoldable pub advance : ℕ → AvatarState → FrameScheduler → Option FrameScheduler
advance zero state s = some s
advance (suc n) state s = elim (next_frame state s) [
  | none ↦ none
  | some (job, s') ↦ advance n state s'
]

-- The scheduler, once it observes `state`, has blended `i` frames since it turned to it.
pub record Turned (i n : ℕ) (state : AvatarState) (o : FrameScheduler) : Type 0 where
  pub frames : o.crossfade_frames ≡ n
  pub left : o.crossfade_remaining ≡ n - i
  pub source : i < n → o.crossfade_state ≢ none
  pub active : o.active_state ≡ state

observe_state-Turned :
    (state : AvatarState) (s : FrameScheduler)
    → state ≢ s.active_state
    → IsBlending s
    → Turned 0 s.crossfade_frames state (observe_state state s)
unfolding observe_state
observe_state-Turned state s h v = ground arith

observe_state_again :
    (i n : ℕ) (state : AvatarState) (s : FrameScheduler)
    → Turned i n state s
    → observe_state state s ≡ s
unfolding observe_state
observe_state_again i n state s t = ground arith

take_audio-Turned :
    (i n : ℕ) (state : AvatarState) (o : FrameScheduler)
    → Turned i n state o
    → Turned i n state (take_audio state o).2
unfolding take_audio consume
take_audio-Turned i n state o t = ground arith

-- The weight of the frame after `i` frames of `n` to blend.
abbrev pub ramp : ℕ → ℕ → Fraction
ramp i n = if ltb i n then record { numerator = i + 1; denominator = n + 1 } else whole

crossfade-Turned :
    (i n : ℕ) (state : AvatarState) (s : FrameScheduler) (b : Blend)
    → Turned i n state s
    → crossfade s ≡ some b
    → Turned (i + 1) n state b.2 × (b.1 ≡ ramp i n)
unfolding crossfade
crossfade-Turned i n state s b t e = ground arith

next_frame-Turned :
    (i n : ℕ) (state : AvatarState) (s : FrameScheduler) (job : FrameJob) (s' : FrameScheduler)
    → Turned i n state (observe_state state s)
    → next_frame state s ≡ some (job, s')
    → Turned (i + 1) n state (observe_state state s') × (job.crossfade_alpha ≡ ramp i n)
next_frame-Turned i n state s job s' t e = moved (next_frame-Parts state s job s' e)
  where
    moved :
        Parts (heard state s) job s'
        → Turned (i + 1) n state (observe_state state s') × (job.crossfade_alpha ≡ ramp i n)
    moved p =
        let (kept, weight) =
          crossfade-Turned i n state (heard state s).2 p.blend
            (take_audio-Turned i n state (observe_state state s) t) p.blended in
        let after : Turned (i + 1) n state s' = rw p.after_eq (record {
          frames = kept.frames;
          left = kept.left;
          source = kept.source;
          active = kept.active;
        }) in
        (rw (observe_state_again (i + 1) n state s' after) after, rw p.job_eq weight)

advance-Turned :
    (k i n j : ℕ) (state : AvatarState) (s t : FrameScheduler)
    → i + k ≡ j
    → Turned i n state (observe_state state s)
    → advance k state s ≡ some t
    → Turned j n state (observe_state state t)
unfolding advance
advance-Turned zero i n j state s t e v h =
    let same : s ≡ t = cc in
    let turned : i ≡ j = omega arith in
    subst (λ k. Turned k n state (observe_state state t)) turned
      (subst (λ u. Turned i n state (observe_state state u)) same v)
advance-Turned (suc k) i n j state s t e v h = elim (Option-cases (next_frame state s)) [
  | inl f ↦ absurd (ground (arith, f))
  | inr ((job, s'), f) ↦
      advance-Turned k (i + 1) n j state s' t (omega arith)
        (next_frame-Turned i n state s job s' v f).0 (ground (arith, f))
]

-- A change of state blends in over exactly `crossfade_frames` frames: the frame after `i` frames of
-- the new state has the weight (i + 1) / (crossfade_frames + 1) where `i` is below
-- `crossfade_frames`, and is whole from there on.
pub crossfade_ramp :
    (i : ℕ) (state : AvatarState) (s t t' : FrameScheduler) (job : FrameJob)
    → IsBlending s
    → state ≢ s.active_state
    → advance i state s ≡ some t
    → next_frame state t ≡ some (job, t')
    → job.crossfade_alpha ≡ ramp i s.crossfade_frames
crossfade_ramp i state s t t' job v h a e =
    (next_frame-Turned i s.crossfade_frames state t job t'
      (advance-Turned i 0 s.crossfade_frames i state s t (omega arith)
        (observe_state-Turned state s h v) a)
      e).1
