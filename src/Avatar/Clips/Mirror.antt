-- ===== src/Avatar/Clips/Mirror.antt =====
-- The ping-pong index of hydralisk/avatar/clips.py.
use native.Mathlib.Nat.{
  mod-lt, div-add-mod', div-eq_of_lt-le, add-mul-div_right, add-mul-mod_self_right,
}
use hydralisk.Prelude.{
  ℕ, zero, suc, ◌+◌, ◌-◌, ◌*◌, ◌/◌, ◌%◌, ◌≤◌, ◌<◌, ◌≡◌, ◌⊎◌, inl, inr, refl, none, some, arith,
  ◌==◌, if◌then◌else◌,
}
use hydralisk.Avatar.Clips.{mirror_index}

abbrev mirrored : ℕ → ℕ → ℕ → ℕ
mirrored size turn res = if turn % 2 == 0 then res else size - res - 1

mirror_index_lem :
    (size i : ℕ) → 0 < size → mirror_index size i ≡ some (mirrored size (i / size) (i % size))
unfolding mirror_index
mirror_index_lem size i h = ground arith

-- Every index of a non-empty cycle has a mirror, inside the cycle.
pub mirror_index_bounds :
    (size i : ℕ) → 0 < size → (p : ℕ) × (mirror_index size i ≡ some p) × (p < size)
mirror_index_bounds size i h =
    (mirrored size (i / size) (i % size), mirror_index_lem size i h, ground (arith, mod-lt i h))

-- The next index lies in the same turn, or begins the next one.
next_turn :
    (size i : ℕ)
    → 0 < size
    → (((i + 1) / size ≡ i / size) × ((i + 1) % size ≡ i % size + 1))
      ⊎ (((i + 1) / size ≡ i / size + 1) × ((i + 1) % size ≡ 0) × (i % size + 1 ≡ size))
next_turn size i h = elim split [
  | inl less ↦ inl (stay less, omega (arith, rest (stay less)))
  | inr full ↦ inr (turn full, omega (arith, rest (turn full)), full)
]
  where
    split : (i % size + 1 < size) ⊎ (i % size + 1 ≡ size)
    split = grind (arith, mod-lt i h)

    rest :
        {q : ℕ}
        → (i + 1) / size ≡ q
        → (q * size + (i + 1) % size ≡ i + 1) × (i / size * size + i % size ≡ i)
    rest e = (rw e at (div-add-mod' (i + 1) size), div-add-mod' i size)

    stay : i % size + 1 < size → (i + 1) / size ≡ i / size
    stay less =
        div-eq_of_lt-le size (omega (arith, div-add-mod' i size))
          (omega (arith, div-add-mod' i size))

    turn : i % size + 1 ≡ size → (i + 1) / size ≡ i / size + 1
    turn full =
        div-eq_of_lt-le size (omega (arith, div-add-mod' i size))
          (omega (arith, div-add-mod' i size))

mirror_index_zero : (i : ℕ) → mirror_index 0 i ≡ none
unfolding mirror_index
mirror_index_zero i = refl

-- Two frames that are shown one after the other lie next to each other, or are the same.
pub mirror_index_continuous :
    (size i p q : ℕ)
    → mirror_index size i ≡ some p
    → mirror_index size (i + 1) ≡ some q
    → (p ≤ q + 1) × (q ≤ p + 1)
mirror_index_continuous zero i p q hp hq = ground (arith, mirror_index_zero i)
mirror_index_continuous (suc n) i p q hp hq = ground (
  arith,
  mirror_index_lem (suc n) i,
  mirror_index_lem (suc n) (i + 1),
  next_turn (suc n) i,
  mod-lt i {m = suc n},
)

-- The cycle repeats after one pass forwards and one backwards.
pub mirror_index_periodic : (size i : ℕ) → mirror_index size (i + 2 * size) ≡ mirror_index size i
unfolding mirror_index
mirror_index_periodic zero i = ground arith
mirror_index_periodic (suc n) i =
    ground (arith, add-mul-div_right i 2 {z = suc n}, add-mul-mod_self_right i 2 (suc n))
