-- ===== src/Base/Bits/Step.antt =====
-- `bit_and`, `bit_or` and `bit_xor` by their lowest digit, from the digit recursion that the native
-- operations stand for.
use Prim.Native.Nat.{digits, bitwise, differ, bit_and-bitwise, bit_or-bitwise, bit_xor-bitwise}
use Prim.Native.Nat.{
  ℕ, zero, suc, ◌+◌, ◌-◌, ◌*◌, ◌/◌, ◌%◌, ◌≤◌, ◌<◌, min, max, bit_and, bit_or, bit_xor,
}
use mathlib.Core.Path.{◌≡◌, refl, ◌∙◌, ap}
use native.Mathlib.Omega.{arith}

module _ (rest : ℕ → ℕ) (digit : ℕ → ℕ → ℕ) where
  -- A round beyond the size of the number changes nothing.
  spare_round :
      (x y rounds : ℕ)
      → x ≤ rounds
      → digits rest digit (suc rounds) x y ≡ digits rest digit rounds x y
  spare_round zero y zero le = refl
  spare_round zero y (suc rounds) le = refl
  spare_round (suc x) y zero le = absurd (omega arith)
  spare_round (suc x) y (suc rounds) le = rw (spare_round (suc x / 2) (y / 2) rounds (omega arith))

  spare_rounds : (extra x y : ℕ) → digits rest digit (extra + x) x y ≡ bitwise rest digit x y
  spare_rounds zero x y = ap (λ t. digits rest digit t x y) (omega arith)
  spare_rounds (suc extra) x y =
      let regrouped : suc extra + x ≡ suc (extra + x) = omega arith in
      ap (λ t. digits rest digit t x y) regrouped
      ∙ spare_round x y (extra + x) (omega arith)
      ∙ spare_rounds extra x y

  halved_rounds :
      (x y : ℕ) → digits rest digit x (suc x / 2) (y / 2) ≡ bitwise rest digit (suc x / 2) (y / 2)
  halved_rounds x y =
      ap (λ t. digits rest digit t (suc x / 2) (y / 2)) (omega arith)
      ∙ spare_rounds (x - suc x / 2) (suc x / 2) (y / 2)

  low_digit :
      (x y : ℕ)
      → bitwise rest digit (suc x) y
        ≡ digit (suc x % 2) (y % 2) + 2 * bitwise rest digit (suc x / 2) (y / 2)
  low_digit x y = omega (arith, halved_rounds x y)

pub bit_and_step : (x y : ℕ) → bit_and x y ≡ min (x % 2) (y % 2) + 2 * bit_and (x / 2) (y / 2)
bit_and_step zero y = simp bit_and-bitwise (omega arith)
bit_and_step (suc x) y = simp bit_and-bitwise (low_digit (λ _. 0) min x y)

pub bit_or_step : (x y : ℕ) → bit_or x y ≡ max (x % 2) (y % 2) + 2 * bit_or (x / 2) (y / 2)
bit_or_step zero y = simp bit_or-bitwise (omega arith)
bit_or_step (suc x) y = simp bit_or-bitwise (low_digit (λ t. t) max x y)

-- On digits the exclusive or is the sum modulo 2.
differ_digits : (p q : ℕ) → p < 2 → q < 2 → differ p q ≡ (p + q) % 2
differ_digits zero q hp hq = omega arith
differ_digits (suc zero) zero hp hq = refl
differ_digits (suc zero) (suc zero) hp hq = refl
differ_digits (suc zero) (suc (suc q)) hp hq = absurd (omega arith)
differ_digits (suc (suc p)) q hp hq = absurd (omega arith)

pub bit_xor_step : (x y : ℕ) → bit_xor x y ≡ (x + y) % 2 + 2 * bit_xor (x / 2) (y / 2)
bit_xor_step zero y = simp bit_xor-bitwise (omega arith)
bit_xor_step (suc x) y = simp bit_xor-bitwise (
    omega (
      arith,
      low_digit (λ t. t) differ x y,
      differ_digits (suc x % 2) (y % 2) (omega arith) (omega arith),
    ))
