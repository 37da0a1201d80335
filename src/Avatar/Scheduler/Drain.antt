-- ===== src/Avatar/Scheduler/Drain.antt =====
-- When the frames of hydralisk/avatar/scheduler.py speak, and that the buffered audio runs out.
use mathlib.Core.Path.{subst}
use hydralisk.Prelude.{
  ℕ, zero, suc, ◌*◌, ◌≤◌, ◌<◌, max, ◌≡◌, ◌≢◌, refl, ap, ◌∙◌, ◌⊎◌, inl, inr, Bool, true, false, ◌&&◌,
  ◌||◌, some, List, [], ◌∷◌, arith, leb, length, Bool-cases, Option-cases, take, drop, length-drop,
  drop-nil, List-cases,
}
use hydralisk.Avatar.State.{AvatarState, speaking, same_state}
use hydralisk.Avatar.Audio.{Sample, Assembler, empty}
use hydralisk.Avatar.Scheduler.Audio.{waits, taken_lem}
use hydralisk.Avatar.Scheduler.Frames.{
  heard, Parts, next_frame-Parts, heard-SameRates, crossfade-SameRates, observe_state-assembler,
  observe_state-SameRates,
}
use hydralisk.Avatar.Scheduler.Blend.{advance}
use hydralisk.Avatar.Scheduler.{
  FrameScheduler, FrameJob, consume, observe_state, take_audio, next_frame,
}

-- The gate lets speech through: it is open, or enough chunks are buffered.
abbrev pub opens : FrameScheduler → Bool
opens s = s.jitter_gate_open || leb (max 1 s.jitter_buffer_chunks) (length s.assembler.chunks)

take_audio_spoke :
    (state : AvatarState) (o : FrameScheduler)
    → (take_audio state o).1
      ≡ same_state state speaking
        && (opens o && waits (take o.audio_chunks_per_frame o.assembler.chunks))
unfolding take_audio consume
take_audio_spoke state o =
    ground (arith, taken_lem o, taken_lem (record o { jitter_gate_open = true }))

waits-take {ℓ} : {A : Type ℓ} (k : ℕ) (xs : List A) → 0 < k → waits (take k xs) ≡ waits xs
waits-take zero xs h = absurd (omega arith)
waits-take (suc k) [] h = refl
waits-take (suc k) (x ∷ xs) h = refl

observe_state-gate :
    (state : AvatarState) (s : FrameScheduler)
    → same_state state speaking ≡ true
    → (observe_state state s).jitter_gate_open ≡ s.jitter_gate_open
unfolding observe_state
observe_state-gate state s h = ground arith

take_audio-rest :
    (state : AvatarState) (o : FrameScheduler)
    → ((take_audio state o).2.assembler ≡ o.assembler)
      ⊎ ((take_audio state o).2.assembler
          ≡ record o.assembler { chunks = drop o.audio_chunks_per_frame o.assembler.chunks })
unfolding take_audio consume
take_audio-rest state o =
    ground (arith, taken_lem o, taken_lem (record o { jitter_gate_open = true }))

take_audio-open :
    (o : FrameScheduler)
    → o.jitter_gate_open ≡ true
    → ((take_audio speaking o).2.assembler
        ≡ record o.assembler { chunks = drop o.audio_chunks_per_frame o.assembler.chunks })
      × ((take_audio speaking o).2.assembler.chunks ≢ []
          → (take_audio speaking o).2.jitter_gate_open ≡ true)
unfolding take_audio consume
take_audio-open o h = ground (arith, taken_lem o)

-- A frame is marked as speech exactly where the state is speaking, whole chunks are buffered, and
-- the gate is open or at least the jitter buffer's worth of chunks (one, if it is none) waits.
pub next_frame_speaks :
    (state : AvatarState) (s : FrameScheduler) (job : FrameJob) (s' : FrameScheduler)
    → 0 < s.audio_chunks_per_frame
    → next_frame state s ≡ some (job, s')
    → job.speaking ≡ same_state state speaking && (opens s && waits s.assembler.chunks)
next_frame_speaks state s job s' h e =
    spoken (next_frame-Parts state s job s' e) (Bool-cases (same_state state speaking))
  where
    o : FrameScheduler
    o = observe_state state s

    spoken :
        Parts (heard state s) job s'
        → (same_state state speaking ≡ true) ⊎ (same_state state speaking ≡ false)
        → job.speaking ≡ same_state state speaking && (opens s && waits s.assembler.chunks)
    spoken p (inl t) = ground (
      arith,
      p.job_eq,
      take_audio_spoke state o,
      observe_state-gate state s t,
      observe_state-SameRates state s,
      observe_state-assembler state s,
      waits-take s.audio_chunks_per_frame s.assembler.chunks h,
    )
    spoken p (inr f) = rw (p.job_eq, take_audio_spoke state o, f)

pub next_frame_rest :
    (state : AvatarState) (s : FrameScheduler) (job : FrameJob) (s' : FrameScheduler)
    → next_frame state s ≡ some (job, s')
    → (s'.assembler ≡ s.assembler)
      ⊎ (s'.assembler
          ≡ record s.assembler { chunks = drop s.audio_chunks_per_frame s.assembler.chunks })
next_frame_rest state s job s' e = moved (next_frame-Parts state s job s' e)
  where
    moved :
        Parts (heard state s) job s'
        → (s'.assembler ≡ s.assembler)
          ⊎ (s'.assembler
              ≡ record s.assembler { chunks = drop s.audio_chunks_per_frame s.assembler.chunks })
    moved p = ground (
      arith,
      p.after_eq,
      crossfade-SameRates (heard state s).2 p.blend p.blended,
      take_audio-rest state (observe_state state s),
      observe_state-SameRates state s,
      observe_state-assembler state s,
    )

-- With the gate open a speaking frame takes as many chunks as it can.
pub next_frame_open :
    (s : FrameScheduler) (job : FrameJob) (s' : FrameScheduler)
    → s.jitter_gate_open ≡ true
    → next_frame speaking s ≡ some (job, s')
    → (s'.assembler
        ≡ record s.assembler { chunks = drop s.audio_chunks_per_frame s.assembler.chunks })
      × (s'.assembler.chunks ≢ [] → s'.jitter_gate_open ≡ true)
      × (s'.audio_chunks_per_frame ≡ s.audio_chunks_per_frame)
next_frame_open s job s' h e = moved (next_frame-Parts speaking s job s' e)
  where
    o : FrameScheduler
    o = observe_state speaking s

    moved :
        Parts (heard speaking s) job s'
        → (s'.assembler
            ≡ record s.assembler { chunks = drop s.audio_chunks_per_frame s.assembler.chunks })
          × (s'.assembler.chunks ≢ [] → s'.jitter_gate_open ≡ true)
          × (s'.audio_chunks_per_frame ≡ s.audio_chunks_per_frame)
    moved p = ground (
      arith,
      p.after_eq,
      crossfade-SameRates (heard speaking s).2 p.blend p.blended,
      take_audio-open o (observe_state-gate speaking s refl ∙ h),
      heard-SameRates speaking s,
      observe_state-SameRates speaking s,
      observe_state-assembler speaking s,
    )

pub next_frame-rates :
    (state : AvatarState) (s : FrameScheduler) (job : FrameJob) (s' : FrameScheduler)
    → next_frame state s ≡ some (job, s')
    → (s'.audio_chunks_per_frame ≡ s.audio_chunks_per_frame) × (s'.chunk_samples ≡ s.chunk_samples)
next_frame-rates state s job s' e = moved (next_frame-Parts state s job s' e)
  where
    moved :
        Parts (heard state s) job s'
        → (s'.audio_chunks_per_frame ≡ s.audio_chunks_per_frame)
          × (s'.chunk_samples ≡ s.chunk_samples)
    moved p = ground (
      arith,
      p.after_eq,
      crossfade-SameRates (heard state s).2 p.blend p.blended,
      heard-SameRates state s,
    )

pub next_frame-catalog :
    (state : AvatarState) (s : FrameScheduler) (job : FrameJob) (s' : FrameScheduler)
    → next_frame state s ≡ some (job, s')
    → s'.catalog ≡ s.catalog
next_frame-catalog state s job s' e = moved (next_frame-Parts state s job s' e)
  where
    moved : Parts (heard state s) job s' → s'.catalog ≡ s.catalog
    moved p =
        ap (λ (t : FrameScheduler). t.catalog) p.after_eq
        ∙ (crossfade-SameRates (heard state s).2 p.blend p.blended).0.catalog
        ∙ (heard-SameRates state s).catalog

-- `n` speaking frames are enough to empty the buffer.
pub record Draining (n : ℕ) (s : FrameScheduler) : Type 0 where
  pub no_tail : s.assembler.pending ≡ []
  pub few : length s.assembler.chunks ≤ n * s.audio_chunks_per_frame
  pub gate : (s.jitter_gate_open ≡ true) ⊎ (s.assembler.chunks ≡ [])

drained_Draining :
    {n : ℕ} {s : FrameScheduler} → s.assembler.pending ≡ [] → s.assembler.chunks ≡ [] → Draining n s
drained_Draining p c = record { no_tail = p; few = omega (arith, ap length c); gate = inr c }

pub next_frame-Draining :
    (n : ℕ) (s : FrameScheduler) (job : FrameJob) (s' : FrameScheduler)
    → Draining (suc n) s
    → next_frame speaking s ≡ some (job, s')
    → Draining n s'
next_frame-Draining n s job s' d e = by_gate d.gate
  where
    k : ℕ
    k = s.audio_chunks_per_frame

    same_k : s'.audio_chunks_per_frame ≡ k
    same_k = (next_frame-rates speaking s job s' e).0

    fewer :
        s'.assembler.chunks ≡ drop k s.assembler.chunks
        → length s'.assembler.chunks ≤ n * s'.audio_chunks_per_frame
    fewer c = rw (c, same_k) (omega (arith, length-drop k s.assembler.chunks, d.few))

    by_gate : (s.jitter_gate_open ≡ true) ⊎ (s.assembler.chunks ≡ []) → Draining n s'
    by_gate (inl open_gate) =
        let (rest, gate, _) = next_frame_open s job s' open_gate e in
        record {
          no_tail = ap (λ (a : Assembler). a.pending) rest ∙ d.no_tail;
          few = fewer (ap (λ (a : Assembler). a.chunks) rest);
          gate = elim (List-cases s'.assembler.chunks) [
            | inl none_left ↦ inr none_left
            | inr (c, cs, some_left) ↦ inl (gate (λ none_left. cc))
          ];
        }
    by_gate (inr none_left) = elim (next_frame_rest speaking s job s' e) [
      | inl rest ↦ drained_Draining (ground (arith, d.no_tail)) (ground (arith, none_left))
      | inr rest ↦
          drained_Draining (ground (arith, d.no_tail))
            (ground (arith, none_left, drop-nil {A = List Sample} k))
    ]

pub Draining-empty : (s : FrameScheduler) → Draining 0 s → empty s.assembler ≡ true
Draining-empty s d = elim (List-cases s.assembler.chunks) [
  | inl none_left ↦ ground (arith, d.no_tail)
  | inr (c, cs, e) ↦ absurd (omega (arith, ap length e, d.few))
]

-- The speech that is left drains in the frames that its chunks need: with the gate open and no
-- partial tail, `n` frames empty a buffer of at most `n * audio_chunks_per_frame` chunks.
pub advance_drains :
    (n : ℕ) (s t : FrameScheduler)
    → Draining n s
    → advance n speaking s ≡ some t
    → empty t.assembler ≡ true
unfolding advance
advance_drains zero s t d e =
    let same : s ≡ t = cc in subst (λ u. empty u.assembler ≡ true) same (Draining-empty s d)
advance_drains (suc n) s t d e = elim (Option-cases (next_frame speaking s)) [
  | inl f ↦ absurd (ground (arith, f))
  | inr ((job, s'), f) ↦
      advance_drains n s' t (next_frame-Draining n s job s' d f) (ground (arith, f))
]
