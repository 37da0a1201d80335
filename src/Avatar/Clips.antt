-- ===== src/Avatar/Clips.antt =====
-- hydralisk/avatar/clips.py: the choice of a clip and a frame for a state and a cursor.
-- A `ValueError`, a missing dict key and an index out of range are `none`. A state's cycle is a
-- list of clip indices; a dict is an association list.
pub mod Table
pub mod Mirror
pub mod Frames
pub mod Tests
use hydralisk.Prelude.{
  ◌>>=◌, ℕ, zero, suc, ◌+◌, ◌-◌, ◌*◌, ◌/◌, ◌%◌, Bool, true, false, Option, none, some, List, [],
  ◌∷◌, ltb, ◌==◌, if◌then◌else◌, length, get_elem?,
}
use hydralisk.Avatar.State.{AvatarState, idle, listening, speaking, same_state}

-- A cycle of `size` frames is played forwards and backwards in turn.
unfoldable pub mirror_index : ℕ → ℕ → Option ℕ
mirror_index size index =
    if size == 0
    then none
    else let turn = index / size in
      let res = index % size in if turn % 2 == 0 then some res else some (size - res - 1)

pub record ClipFrameRef : Type 0 where
  pub clip_index : ℕ
  pub frame_index : ℕ

abbrev pub Cycles : Type 0
Cycles = List (AvatarState × List ℕ)

pub record ClipCatalog : Type 0 where
  pub frames_per_clip : ℕ
  pub state_cycles : Cycles

-- `self.state_cycles[state]`
unfoldable pub cycle_of : AvatarState → Cycles → Option (List ℕ)
cycle_of s [] = none
cycle_of s ((t, clips) ∷ rest) = if same_state t s then some clips else cycle_of s rest

abbrev pub frames_per_clip_default : ℕ
frames_per_clip_default = 192

abbrev pub state_clip_cycle : Cycles
state_clip_cycle = (idle, 6 ∷ 3 ∷ []) ∷ (listening, 4 ∷ 5 ∷ []) ∷ (speaking, 8 ∷ 0 ∷ []) ∷ []

abbrev pub no_empty_cycle : Cycles → Bool
no_empty_cycle [] = true
no_empty_cycle ((s, []) ∷ rest) = false
no_empty_cycle ((s, c ∷ cs) ∷ rest) = no_empty_cycle rest

-- `dict(state_cycles or STATE_CLIP_CYCLE)`
abbrev pub or_default : Cycles → Cycles
or_default [] = state_clip_cycle
or_default (c ∷ cs) = c ∷ cs

unfoldable pub make_catalog : ℕ → Cycles → Option ClipCatalog
make_catalog frames cycles =
    if frames == 0
    then none
    else if no_empty_cycle (or_default cycles)
    then some (record { frames_per_clip = frames; state_cycles = or_default cycles })
    else none

unfoldable pub cycle_length : ClipCatalog → AvatarState → Option ℕ
cycle_length c s = do clips ← cycle_of s c.state_cycles; some (length clips * c.frames_per_clip)

-- `divmod(position, frames_per_clip)`, and the clip in that slot of the cycle.
unfoldable pub frame_at : ℕ → List ℕ → ℕ → Option ClipFrameRef
frame_at frames clips position = do
  clip ← get_elem? clips (position / frames)
  some (record { clip_index = clip; frame_index = position % frames })

unfoldable pub frame_for : ClipCatalog → AvatarState → ℕ → Option ClipFrameRef
unfolding cycle_of cycle_length
frame_for c s cursor = do
  clips ← cycle_of s c.state_cycles
  cycle ← cycle_length c s
  position ← mirror_index cycle cursor
  frame_at c.frames_per_clip clips position
