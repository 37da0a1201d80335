-- ===== src/Avatar/Scheduler.antt =====
-- hydralisk/avatar/scheduler.py: the frame scheduler, which turns the state and the buffered audio
-- into one job for each video frame.
-- The arguments of the constructor are numbers, so a test `<= 0` is `== 0` and `max(0, n)` is `n`.
-- A `ValueError`, and a state that the catalogue lacks, are `none`. The blend weight, a float in
-- the source, is the fraction of integers that the source divides.
pub mod Audio
pub mod Frames
pub mod Blend
pub mod Drain
pub mod Tests
use hydralisk.Prelude.{
  ◌>>=◌, ℕ, zero, suc, ◌+◌, ◌-◌, ◌*◌, ◌/◌, max, Bool, true, false, not, ◌&&◌, Option, none, some,
  List, [], ◌∷◌, ◌++◌, ltb, leb, ◌==◌, if◌then◌else◌, replicate,
}
use hydralisk.Avatar.State.{AvatarState, idle, speaking, same_state}
use hydralisk.Avatar.Clips.{ClipCatalog, ClipFrameRef, frame_for}
use hydralisk.Avatar.Audio.{
  Sample, Assembler, make_assembler, push, pop, flush_tail, clear, buffered_chunks, empty,
}

pub record Fraction : Type 0 where
  pub numerator : ℕ
  pub denominator : ℕ

pub record FrameJob : Type 0 where
  pub frame_number : ℕ
  pub state : AvatarState
  pub clip : ClipFrameRef
  pub speaking : Bool
  pub audio_chunks : List (List Sample)
  pub crossfade_from : Option ClipFrameRef
  pub crossfade_alpha : Fraction

pub record FrameScheduler : Type 0 where
  pub catalog : ClipCatalog
  pub fps : ℕ
  pub sample_rate : ℕ
  pub audio_chunks_per_frame : ℕ
  pub chunk_samples : ℕ
  pub crossfade_frames : ℕ
  pub jitter_buffer_chunks : ℕ
  pub assembler : Assembler
  pub frame_number : ℕ
  pub frames_rendered : ℕ
  pub speaking_frames : ℕ
  pub active_state : AvatarState
  pub cursor : ℕ
  pub crossfade_remaining : ℕ
  pub crossfade_state : Option AvatarState
  pub crossfade_cursor : ℕ
  pub jitter_gate_open : Bool

abbrev require : Bool → Option (Unit {0})
require true = some tt
require false = none

infixl 5 ◌>>◌
abbrev ◌>>◌ {ℓ} : {B : Type ℓ} → Option (Unit {0}) → Option B → Option B
m >> k = m >>= λ _. k

-- `FrameScheduler(catalog, fps, sample_rate, audio_chunks_per_frame, crossfade_frames,
-- jitter_buffer_frames)`
unfoldable pub make_scheduler : ClipCatalog → ℕ → ℕ → ℕ → ℕ → ℕ → Option FrameScheduler
unfolding make_assembler
make_scheduler catalog fps sample_rate per_frame crossfade jitter = do
  require (not (fps == 0))
  require (not (per_frame == 0))
  assembler ← make_assembler (sample_rate / (fps * per_frame))
  some (record {
    catalog = catalog;
    fps = fps;
    sample_rate = sample_rate;
    audio_chunks_per_frame = per_frame;
    chunk_samples = sample_rate / (fps * per_frame);
    crossfade_frames = crossfade;
    jitter_buffer_chunks = jitter * per_frame;
    assembler = assembler;
    frame_number = 0;
    frames_rendered = 0;
    speaking_frames = 0;
    active_state = idle;
    cursor = 0;
    crossfade_remaining = 0;
    crossfade_state = none;
    crossfade_cursor = 0;
    jitter_gate_open = false;
  })

unfoldable pub put_pcm : List Sample → FrameScheduler → FrameScheduler
put_pcm samples s = record s { assembler = push samples s.assembler }

unfoldable pub end_of_utterance : FrameScheduler → FrameScheduler
end_of_utterance s = record s { assembler = flush_tail s.assembler; jitter_gate_open = true }

unfoldable pub flush_audio : FrameScheduler → FrameScheduler
flush_audio s = record s { assembler = clear s.assembler; jitter_gate_open = false }

abbrev pub audio_drained : FrameScheduler → Bool
audio_drained s = empty s.assembler

-- `_observe_state` first remembers the frame to blend from, if there is blending at all.
abbrev start_crossfade : FrameScheduler → FrameScheduler
start_crossfade s =
    if ltb 0 s.crossfade_frames
    then record s {
      crossfade_state = some s.active_state;
      crossfade_cursor = s.cursor;
      crossfade_remaining = s.crossfade_frames;
    }
    else s

unfoldable pub observe_state : AvatarState → FrameScheduler → FrameScheduler
observe_state state s = if same_state state s.active_state then s else record (start_crossfade s) {
  active_state = state;
  cursor = 0;
  jitter_gate_open = if same_state state speaking then s.jitter_gate_open else false;
}

abbrev pub silence_chunk : FrameScheduler → List Sample
silence_chunk s = replicate s.chunk_samples 0

-- What a round of the loop over a frame's chunks leaves: the chunks, whether one was buffered, and
-- the buffer.
pub record Taken : Type 0 where
  pub chunks : List (List Sample)
  pub consumed_any : Bool
  pub rest : Assembler

abbrev take_one : List Sample → Option (List Sample) × Assembler → Taken → Taken
take_one silence (none, a) t = record {
  chunks = t.chunks ++ silence ∷ [];
  consumed_any = t.consumed_any;
  rest = a;
}
take_one silence (some c, a) t = record {
  chunks = t.chunks ++ c ∷ [];
  consumed_any = true;
  rest = a;
}

unfoldable pub take_chunks : ℕ → List Sample → Taken → Taken
take_chunks zero silence t = t
take_chunks (suc k) silence t = take_chunks k silence (take_one silence (pop t.rest) t)

-- The frame's chunks, whether speech was among them, and the scheduler after.
abbrev pub Audio : Type 0
Audio = List (List Sample) × Bool × FrameScheduler

abbrev pub silent : FrameScheduler → Audio
silent s = (replicate s.audio_chunks_per_frame (silence_chunk s), false, s)

abbrev pub taken : FrameScheduler → Taken
taken s =
    take_chunks s.audio_chunks_per_frame (silence_chunk s)
      (record { chunks = []; consumed_any = false; rest = s.assembler })

-- The gate is open.
unfoldable pub consume : FrameScheduler → Audio
unfolding take_chunks
consume s =
    let t = taken s in
    (
      t.chunks,
      t.consumed_any,
      record s {
        assembler = t.rest;
        jitter_gate_open = if empty t.rest && not t.consumed_any then false else s.jitter_gate_open;
      },
    )

unfoldable pub take_audio : AvatarState → FrameScheduler → Audio
take_audio state s =
    if not (same_state state speaking)
    then silent s
    else if s.jitter_gate_open
    then consume s
    else if leb (max 1 s.jitter_buffer_chunks) (buffered_chunks s.assembler)
    then consume (record s { jitter_gate_open = true })
    else silent s

-- The frame to blend from with its weight, and the scheduler after.
abbrev pub Blend : Type 0
Blend = Option ClipFrameRef × Fraction × FrameScheduler

abbrev pub whole : Fraction
whole = record { numerator = 1; denominator = 1 }

abbrev pub blend_from : Option AvatarState → FrameScheduler → Option Blend
blend_from none s = some (none, whole, s)
blend_from (some old) s = do
  from ← frame_for s.catalog old s.crossfade_cursor
  some (
    some from,
    record {
      numerator = s.crossfade_frames - s.crossfade_remaining + 1;
      denominator = s.crossfade_frames + 1;
    },
    record s {
      crossfade_cursor = s.crossfade_cursor + 1;
      crossfade_remaining = s.crossfade_remaining - 1;
      crossfade_state = if s.crossfade_remaining - 1 == 0 then none else some old;
    },
  )

unfoldable pub crossfade : FrameScheduler → Option Blend
crossfade s =
    if ltb 0 s.crossfade_remaining then blend_from s.crossfade_state s else some (none, whole, s)

abbrev pub count_frame : Bool → FrameScheduler → FrameScheduler
count_frame spoke s = record s {
  frame_number = s.frame_number + 1;
  frames_rendered = s.frames_rendered + 1;
  speaking_frames = if spoke then s.speaking_frames + 1 else s.speaking_frames;
  cursor = s.cursor + 1;
}

unfoldable pub next_frame : AvatarState → FrameScheduler → Option (FrameJob × FrameScheduler)
next_frame state s =
    let (chunks, spoke, heard) = take_audio state (observe_state state s) in
    do
      clip ← frame_for heard.catalog heard.active_state heard.cursor
      blend ← crossfade heard
      some (
        record {
          frame_number = heard.frame_number;
          state = heard.active_state;
          clip = clip;
          speaking = spoke;
          audio_chunks = chunks;
          crossfade_from = blend.0;
          crossfade_alpha = blend.1;
        },
        count_frame spoke blend.2,
      )
