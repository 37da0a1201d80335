-- ===== src/Avatar/Clips/Frames.antt =====
-- The frames that a catalogue of hydralisk/avatar/clips.py plays.
use native.Mathlib.Nat.{mod-lt, div-lt_iff_lt-mul}
use hydralisk.Prelude.{
  ℕ, ◌+◌, ◌*◌, ◌/◌, ◌%◌, ◌≤◌, ◌<◌, ◌≡◌, refl, inl, inr, true, some, List, [], ◌∷◌, arith, length,
  get_elem?, get_elem?-lt, Option-cases, ◌∙◌, All, All-get_elem?,
}
use hydralisk.Avatar.State.{AvatarState, idle, listening, speaking}
use hydralisk.Avatar.Clips.{
  ClipFrameRef, ClipCatalog, Cycles, mirror_index, cycle_of, make_catalog, frame_at, frame_for,
  no_empty_cycle, state_clip_cycle, frames_per_clip_default,
}
use hydralisk.Avatar.Clips.Mirror.{mirror_index_bounds, mirror_index_continuous}
use hydralisk.Avatar.Clips.Table.{ClipRole, ClipSpec, clip_by_index}

cycle_of-nonempty :
    (s : AvatarState) (m : Cycles) (clips : List ℕ)
    → no_empty_cycle m ≡ true
    → cycle_of s m ≡ some clips
    → 0 < length clips
unfolding cycle_of
cycle_of-nonempty s [] clips h e = ground arith
cycle_of-nonempty s ((t, []) ∷ rest) clips h e = cc
cycle_of-nonempty s ((t, c ∷ cs) ∷ rest) clips h e =
    ground (arith, cycle_of-nonempty s rest clips h)

-- A position of a cycle has a frame.
frame_at_total :
    (f : ℕ) (clips : List ℕ) (p : ℕ)
    → 0 < f
    → p < length clips * f
    → (r : ClipFrameRef) × (frame_at f clips p ≡ some r)
      × (get_elem? clips (p / f) ≡ some r.clip_index)
      × (r.frame_index < f)
unfolding frame_at
frame_at_total f clips p h lt = found (get_elem?-lt clips (p / f) ((div-lt_iff_lt-mul h).1 lt))
  where
    found :
        (c : ℕ) × (get_elem? clips (p / f) ≡ some c)
        → (r : ClipFrameRef) × (frame_at f clips p ≡ some r)
          × (get_elem? clips (p / f) ≡ some r.clip_index)
          × (r.frame_index < f)
    found (c, e) =
        (record { clip_index = c; frame_index = p % f }, ground (arith, e), e, mod-lt p h)

module _ (c : ClipCatalog) (s : AvatarState) (clips : List ℕ)
    (found : cycle_of s c.state_cycles ≡ some clips) where
  abbrev cycle : ℕ
  cycle = length clips * c.frames_per_clip

  frame_for_lem :
      (cursor p : ℕ)
      → mirror_index cycle cursor ≡ some p
      → frame_for c s cursor ≡ frame_at c.frames_per_clip clips p
  unfolding frame_for
  frame_for_lem cursor p e = ground (arith, found, e)

  frame_for_inv :
      (cursor : ℕ) (r : ClipFrameRef)
      → frame_for c s cursor ≡ some r
      → (p : ℕ) × (mirror_index cycle cursor ≡ some p)
        × (frame_at c.frames_per_clip clips p ≡ some r)
  unfolding frame_for
  frame_for_inv cursor r e = elim (Option-cases (mirror_index cycle cursor)) [
    | inl n ↦ absurd (ground (arith, found, n))
    | inr (p, q) ↦ (p, q, ground (arith, found, q))
  ]

-- A catalogue that was constructed has a frame for each of its states and each cursor: a frame
-- below `frames_per_clip`, of a clip in the state's cycle.
pub frame_for_total :
    (frames : ℕ) (cycles : Cycles) (c : ClipCatalog) (s : AvatarState) (clips : List ℕ) (cursor : ℕ)
    → make_catalog frames cycles ≡ some c
    → cycle_of s c.state_cycles ≡ some clips
    → (r : ClipFrameRef) × (frame_for c s cursor ≡ some r)
      × (k : ℕ) × (get_elem? clips k ≡ some r.clip_index)
      × (r.frame_index < c.frames_per_clip)
unfolding make_catalog
frame_for_total frames cycles c s clips cursor made found = shown (
    mirror_index_bounds (length clips * c.frames_per_clip) cursor
      (grind (arith, frames_pos, clips_pos)))
  where
    frames_pos : 0 < c.frames_per_clip
    frames_pos = ground arith

    valid : no_empty_cycle c.state_cycles ≡ true
    valid = ground arith

    clips_pos : 0 < length clips
    clips_pos = cycle_of-nonempty s c.state_cycles clips valid found

    shown :
        (p : ℕ) × (mirror_index (length clips * c.frames_per_clip) cursor ≡ some p)
          × (p < length clips * c.frames_per_clip)
        → (r : ClipFrameRef) × (frame_for c s cursor ≡ some r)
          × (k : ℕ) × (get_elem? clips k ≡ some r.clip_index)
          × (r.frame_index < c.frames_per_clip)
    shown (p, e, lt) =
        let (r, at, slot, small) = frame_at_total c.frames_per_clip clips p frames_pos lt in
        (r, frame_for_lem c s clips found cursor p e ∙ at, p / c.frames_per_clip, slot, small)

-- Playback never jumps: the frames at a cursor and at the next one are frames of the state's
-- concatenated cycle at positions that differ by one at most.
pub frame_for_continuous :
    (c : ClipCatalog) (s : AvatarState) (clips : List ℕ) (cursor : ℕ) (a b : ClipFrameRef)
    → cycle_of s c.state_cycles ≡ some clips
    → frame_for c s cursor ≡ some a
    → frame_for c s (cursor + 1) ≡ some b
    → (p : ℕ) × (q : ℕ) × (frame_at c.frames_per_clip clips p ≡ some a)
      × (frame_at c.frames_per_clip clips q ≡ some b)
      × (p ≤ q + 1)
      × (q ≤ p + 1)
frame_for_continuous c s clips cursor a b found ha hb =
    let (p, mp, fp) = frame_for_inv c s clips found cursor a ha in
    let (q, mq, fq) = frame_for_inv c s clips found (cursor + 1) b hb in
    let near = mirror_index_continuous (length clips * c.frames_per_clip) cursor p q mp mq in
    (p, q, fp, fq, near.0, near.1)

abbrev pub role_of : AvatarState → ClipRole
role_of idle = ClipRole.idle
role_of listening = ClipRole.listening
role_of speaking = ClipRole.speaking

abbrev pub default_clips : AvatarState → List ℕ
default_clips idle = 6 ∷ 3 ∷ []
default_clips listening = 4 ∷ 5 ∷ []
default_clips speaking = 8 ∷ 0 ∷ []

-- Plays a catalogued clip of the role `r`, which the catalogue lists under its own index.
abbrev pub Plays : ClipRole → ℕ → Type 0
Plays r i = (spec : ClipSpec) × (clip_by_index i ≡ some spec) × (spec.role ≡ r) × (spec.index ≡ i)

default_clips-Plays : (s : AvatarState) → All (Plays (role_of s)) (default_clips s)
unfolding clip_by_index
default_clips-Plays idle = ((_, refl, refl, refl), ((_, refl, refl, refl), tt))
default_clips-Plays listening = ((_, refl, refl, refl), ((_, refl, refl, refl), tt))
default_clips-Plays speaking = ((_, refl, refl, refl), ((_, refl, refl, refl), tt))

pub cycle_of-default : (s : AvatarState) → cycle_of s state_clip_cycle ≡ some (default_clips s)
unfolding cycle_of
cycle_of-default idle = refl
cycle_of-default listening = refl
cycle_of-default speaking = refl

-- The catalogue made by default has a frame for every state and cursor, and it is a frame of a
-- catalogued clip whose role is that state's: no flair clip is ever played.
pub frame_for-default :
    (s : AvatarState) (cursor : ℕ) (c : ClipCatalog)
    → make_catalog frames_per_clip_default [] ≡ some c
    → (r : ClipFrameRef) × (frame_for c s cursor ≡ some r)
      × Plays (role_of s) r.clip_index
      × (r.frame_index < 192)
frame_for-default s cursor c made =
    let (cycles, frames) = default_parts in
    let (r, e, k, slot, small) =
      frame_for_total frames_per_clip_default [] c s (default_clips s) cursor made
        (rw cycles (cycle_of-default s)) in
    (
      r,
      e,
      All-get_elem? _ (default_clips s) k r.clip_index (default_clips-Plays s) slot,
      omega arith,
    )
  where
    default_parts : (c.state_cycles ≡ state_clip_cycle) × (c.frames_per_clip ≡ 192)
    default_parts = unfold make_catalog in ground arith
