-- ===== src/Base/Bits/Step.antt =====
-- What each bit operation does to the lowest digit, free of the fuel that the operations mean.
use Prim.Native.Nat.{
  ℕ, zero, suc, ◌+◌, ◌*◌, ◌/◌, ◌%◌, ◌≤◌, ◌<◌, min, max, bit_xor, bit_and, bit_or, digits, bitwise,
  differ, bit_xor-bitwise, bit_and-bitwise, bit_or-bitwise,
}
use mathlib.Core.Path.{◌≡◌, refl, ◌∙◌}
use native.Mathlib.Decide.{dec_lt}
use native.Mathlib.Omega.{arith}

module _ (rest : ℕ → ℕ) (digit : ℕ → ℕ → ℕ) where
  -- One round that is not needed.
  surplus :
      (fuel m n : ℕ) → m ≤ fuel → digits rest digit (suc fuel) m n ≡ digits rest digit fuel m n
  surplus zero zero n le = refl
  surplus zero (suc m) n le = absurd (omega arith)
  surplus (suc fuel) zero n le = refl
  surplus (suc fuel) (suc m) n le = rw (surplus fuel (suc m / 2) (n / 2) (omega arith))

  -- Any fuel from `m` on means the operation.
  settled : (fuel m n : ℕ) → m ≤ fuel → digits rest digit fuel m n ≡ bitwise rest digit m n
  settled zero zero n le = refl
  settled zero (suc m) n le = absurd (omega arith)
  settled (suc fuel) m n le = elim (dec_lt fuel m) [
    | yes p ↦ let e : suc fuel ≡ m = omega arith in rw e refl
    | no p ↦ surplus fuel m n (omega arith) ∙ settled fuel m n (omega arith)
  ]

  lowest :
      (m n : ℕ)
      → bitwise rest digit (suc m) n
        ≡ digit (suc m % 2) (n % 2) + 2 * bitwise rest digit (suc m / 2) (n / 2)
  lowest m n = omega (arith, settled m (suc m / 2) (n / 2) (omega arith))

differ-digit : (x y : ℕ) → x < 2 → y < 2 → differ x y ≡ (x + y) % 2
differ-digit zero y p q = omega arith
differ-digit (suc zero) zero p q = refl
differ-digit (suc zero) (suc zero) p q = refl
differ-digit (suc zero) (suc (suc y)) p q = absurd (omega arith)
differ-digit (suc (suc x)) y p q = absurd (omega arith)

pub bit_xor_step : (m n : ℕ) → bit_xor m n ≡ (m % 2 + n % 2) % 2 + 2 * bit_xor (m / 2) (n / 2)
bit_xor_step zero n = simp bit_xor-bitwise (omega arith)
bit_xor_step (suc m) n = simp bit_xor-bitwise (
    omega (
      arith,
      lowest (λ d. d) differ m n,
      differ-digit (suc m % 2) (n % 2) (omega arith) (omega arith),
    ))

pub bit_and_step : (m n : ℕ) → bit_and m n ≡ min (m % 2) (n % 2) + 2 * bit_and (m / 2) (n / 2)
bit_and_step zero n = simp bit_and-bitwise (omega arith)
bit_and_step (suc m) n = simp bit_and-bitwise (lowest (λ d. 0) min m n)

pub bit_or_step : (m n : ℕ) → bit_or m n ≡ max (m % 2) (n % 2) + 2 * bit_or (m / 2) (n / 2)
bit_or_step zero n = simp bit_or-bitwise (omega arith)
bit_or_step (suc m) n = simp bit_or-bitwise (lowest (λ d. d) max m n)
