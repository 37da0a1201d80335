-- ===== src/Avatar/Audio/Tests.antt =====
-- Examples for hydralisk/avatar/audio.py.
use hydralisk.Prelude.{◌≡◌, refl, [], ◌∷◌, arith}
use hydralisk.Avatar.Audio.{Assembler, push, slices}
use hydralisk.Avatar.Audio.Stream.{IsValid}
use hydralisk.Avatar.Audio.Unique.{push-append}

abbrev two_and_a_tail : Assembler
two_and_a_tail = record { chunk_samples = 2; chunks = (1 ∷ 2 ∷ []) ∷ []; pending = 3 ∷ [] }

two_and_a_tail-IsValid : IsValid two_and_a_tail
two_and_a_tail-IsValid = record {
  size_pos = omega arith;
  full_chunks = (refl, tt);
  short_tail = omega arith;
}

push-append_example :
    push (4 ∷ 5 ∷ 6 ∷ []) two_and_a_tail ≡ push (5 ∷ 6 ∷ []) (push (4 ∷ []) two_and_a_tail)
push-append_example = push-append two_and_a_tail (4 ∷ []) (5 ∷ 6 ∷ []) two_and_a_tail-IsValid

push-two_and_a_tail :
    push (4 ∷ 5 ∷ []) two_and_a_tail
    ≡ record { chunk_samples = 2; chunks = (1 ∷ 2 ∷ []) ∷ (3 ∷ 4 ∷ []) ∷ []; pending = 5 ∷ [] }
unfolding push slices
push-two_and_a_tail = refl
