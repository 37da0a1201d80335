-- ===== src/Avatar/Audio.antt =====
-- hydralisk/avatar/audio.py: `PcmChunkAssembler`, which cuts the incoming PCM into fixed chunks.
-- A sample is the 16-bit pattern of an int16, a number below 2 ^ 16; 0 is silence. A deque is a
-- list, its left end first. A `ValueError` of the constructor is `none`.
pub mod Stream
pub mod Unique
pub mod Tests
use hydralisk.Prelude.{
  ℕ, zero, suc, ◌+◌, ◌*◌, ◌/◌, Bool, true, false, ◌&&◌, Option, none, some, List, [], ◌∷◌, ◌++◌,
  ◌==◌, if◌then◌else◌, length, take, drop, replicate,
}

abbrev pub Sample : Type 0
Sample = ℕ

pub record Assembler : Type 0 where
  pub chunk_samples : ℕ
  pub chunks : List (List Sample)
  pub pending : List Sample

unfoldable pub make_assembler : ℕ → Option Assembler
make_assembler n =
    if n == 0 then none else some (record { chunk_samples = n; chunks = []; pending = [] })

-- `buffered[i * n : i * n + n]` for `k` values of `i`.
unfoldable pub slices : ℕ → List Sample → ℕ → ℕ → List (List Sample)
slices n buffered i zero = []
slices n buffered i (suc k) = take n (drop (i * n) buffered) ∷ slices n buffered (i + 1) k

abbrev pub is_empty {ℓ} : {A : Type ℓ} → List A → Bool
is_empty [] = true
is_empty (x ∷ xs) = false

unfoldable pub push : List Sample → Assembler → Assembler
push samples a =
    if is_empty samples
    then a
    else let buffered = a.pending ++ samples in
      let full = length buffered / a.chunk_samples in
      record a {
        chunks = a.chunks ++ slices a.chunk_samples buffered 0 full;
        pending = drop (full * a.chunk_samples) buffered;
      }

unfoldable pub pop : Assembler → Option (List Sample) × Assembler
pop a = elim a.chunks [ [] ↦ (none, a) | chunk ∷ rest ↦ (some chunk, record a { chunks = rest }) ]

-- Zero-pads a partial tail into a last chunk: `chunk[: pending.size] = pending`.
unfoldable pub flush_tail : Assembler → Assembler
flush_tail a = if is_empty a.pending then a else record a {
  chunks = a.chunks ++ (a.pending ++ drop (length a.pending) (replicate a.chunk_samples 0)) ∷ [];
  pending = [];
}

unfoldable pub clear : Assembler → Assembler
clear a = record a { chunks = []; pending = [] }

abbrev pub buffered_chunks : Assembler → ℕ
buffered_chunks a = length a.chunks

unfoldable pub buffered_samples : Assembler → ℕ
buffered_samples a = length a.chunks * a.chunk_samples + length a.pending

abbrev pub empty : Assembler → Bool
empty a = is_empty a.chunks && is_empty a.pending
