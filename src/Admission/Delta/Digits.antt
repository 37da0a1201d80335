-- ===== src/Admission/Delta/Digits.antt =====
-- The number of a layer in the names of hydralisk/admission/deepseek_v4_fable.py.
use hydralisk.Prelude.{ℕ, zero, suc, ◌/◌, ◌≡◌, ◌<◌, refl, arith, ltb, ltb→le, Bool-cases, inl, inr}
use hydralisk.Admission.Delta.{decimal}

-- More fuel than the number and one more does not change its digits.
pub decimal_fuel : (fuel gas n : ℕ) → n < fuel → n < gas → decimal fuel n ≡ decimal gas n
unfolding decimal
decimal_fuel zero gas n h k = absurd (omega arith)
decimal_fuel (suc fuel) zero n h k = absurd (omega arith)
decimal_fuel (suc fuel) (suc gas) n h k = elim (Bool-cases (ltb n 10)) [
  | inl e ↦ rw (e) refl
  | inr e ↦
      rw
        (decimal_fuel fuel gas (n / 10) (omega (arith, ltb→le n 10 e))
          (omega (arith, ltb→le n 10 e)))
        refl
]
