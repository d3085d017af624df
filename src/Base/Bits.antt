-- ===== src/Base/Bits.antt =====
-- The bit operations of 32-bit words, read digit by digit.
mod Step
use Step.{bit_xor_step, bit_or_step, bit_and_step}
use Prim.Native.Nat.{
  ℕ, zero, suc, ◌+◌, ◌-◌, ◌*◌, ◌/◌, ◌%◌, ◌^◌, ◌≤◌, ◌<◌, min, max, bit_xor, bit_and, bit_or,
}
use mathlib.Core.Path.{◌≡◌, refl, ap, ◌∙◌}
use mathlib.Core.Logic.{◌≢◌}
use mathlib.Core.Bool.{Bool, true, ◌&&◌}
use native.Mathlib.Nat.{pow-suc, one-le-pow, pow-le-pow_right}
use native.Mathlib.Decide.{dec_lt}
use native.Mathlib.Omega.{arith}
use hypnos.Base.Tests.{◌==◌, ltb, if◌then◌else◌}

-- A check of every value below `n`, by evaluation.
unfoldable pub all_below : ℕ → (ℕ → Bool) → Bool
all_below zero p = true
all_below (suc n) p = p n && all_below n p

pub all_below_sound :
    (bound : ℕ) (test : ℕ → Bool) (k : ℕ) → all_below bound test ≡ true → k < bound → test k ≡ true
unfolding all_below
all_below_sound zero test k all lt = absurd (omega arith)
all_below_sound (suc bound) test k all lt = ground (arith, all_below_sound bound test k)

half-bit_xor : (a b : ℕ) → bit_xor a b / 2 ≡ bit_xor (a / 2) (b / 2)
half-bit_xor a b = omega (arith, bit_xor_step a b)

half-bit_or : (a b : ℕ) → bit_or a b / 2 ≡ bit_or (a / 2) (b / 2)
half-bit_or a b = omega (arith, bit_or_step a b)

half-bit_and : (a b : ℕ) → bit_and a b / 2 ≡ bit_and (a / 2) (b / 2)
half-bit_and a b = omega (arith, bit_and_step a b)

xor_cancel_fuel : (n a b : ℕ) → a ≤ n → b ≤ n → bit_xor (bit_xor a b) b ≡ a
xor_cancel_fuel zero zero zero p q = refl
xor_cancel_fuel zero zero (suc b) p q = absurd (omega arith)
xor_cancel_fuel zero (suc a) b p q = absurd (omega arith)
xor_cancel_fuel (suc n) a b p q = omega (
  arith,
  bit_xor_step a b,
  bit_xor_step (bit_xor a b) b,
  half-bit_xor a b,
  ap (λ t. bit_xor t (b / 2)) (half-bit_xor a b),
  xor_cancel_fuel n (a / 2) (b / 2) (omega arith) (omega arith),
)

-- `x ^ k ^ k` is `x`.
pub xor_cancel : (a b : ℕ) → bit_xor (bit_xor a b) b ≡ a
xor_cancel a b = xor_cancel_fuel (a + b) a b (omega arith) (omega arith)

-- The digit of `w` at position `k`.
unfoldable pub bit : ℕ → ℕ → ℕ
bit w zero = w % 2
bit w (suc k) = bit (w / 2) k

pub bit-lt : (w k : ℕ) → bit w k < 2
unfolding bit
bit-lt w zero = omega arith
bit-lt w (suc k) = bit-lt (w / 2) k

pub bit-bit_or : (a b k : ℕ) → bit (bit_or a b) k ≡ max (bit a k) (bit b k)
unfolding bit
bit-bit_or a b zero = omega (arith, bit_or_step a b)
bit-bit_or a b (suc k) = rw half-bit_or (bit-bit_or (a / 2) (b / 2) k)

pub bit-bit_and : (a b k : ℕ) → bit (bit_and a b) k ≡ min (bit a k) (bit b k)
unfolding bit
bit-bit_and a b zero = omega (arith, bit_and_step a b)
bit-bit_and a b (suc k) = rw half-bit_and (bit-bit_and (a / 2) (b / 2) k)

pub bit-zero : (k : ℕ) → bit 0 k ≡ 0
unfolding bit
bit-zero zero = refl
bit-zero (suc k) = bit-zero k

half-pow : (j : ℕ) → 2 ^ suc j / 2 ≡ 2 ^ j
half-pow j = omega (arith, pow-suc 2 j)

-- `1 << j` has one digit.
pub bit-pow : (j k : ℕ) → bit (2 ^ j) k ≡ (if j == k then 1 else 0)
unfolding bit
bit-pow zero zero = refl
bit-pow zero (suc k) = ground (arith, bit-zero k)
bit-pow (suc j) zero = ground (arith, pow-suc 2 j)
bit-pow (suc j) (suc k) = rw half-pow (ground (arith, bit-pow j k))

pub bit-ones : (n k : ℕ) → k < n → bit (2 ^ n - 1) k ≡ 1
unfolding bit
bit-ones zero k h = absurd (omega arith)
bit-ones (suc n) zero h = omega (arith, pow-suc 2 n, one-le-pow n 2)
bit-ones (suc n) (suc k) h =
    let e : (2 ^ suc n - 1) / 2 ≡ 2 ^ n - 1 = omega (arith, pow-suc 2 n, one-le-pow n 2) in
    rw e (bit-ones n k (omega arith))

pub pow_lt : (j n : ℕ) → j < n → 2 ^ j < 2 ^ n
pow_lt j n h = omega (
  arith,
  pow-suc 2 j,
  one-le-pow j 2,
  pow-le-pow_right {n = 2} (omega arith) {i = suc j} {j = n} h,
)

-- `~(1 << j)` in `n` bits has all digits but one.
pub bit-not_pow :
    (n j k : ℕ) → j < n → k < n → bit (2 ^ n - 1 - 2 ^ j) k ≡ (if j == k then 0 else 1)
unfolding bit
bit-not_pow zero j k hj hk = absurd (omega arith)
bit-not_pow (suc n) zero zero hj hk = omega (arith, pow-suc 2 n, one-le-pow n 2)
bit-not_pow (suc n) zero (suc k) hj hk =
    let e : (2 ^ suc n - 1 - 2 ^ 0) / 2 ≡ 2 ^ n - 1 = omega (arith, pow-suc 2 n, one-le-pow n 2) in
    rw e (ground (arith, bit-ones n k (omega arith)))
bit-not_pow (suc n) (suc j) zero hj hk =
    ground (arith, pow-suc 2 n, pow-suc 2 j, pow_lt (suc j) (suc n) hj)
bit-not_pow (suc n) (suc j) (suc k) hj hk =
    let e : (2 ^ suc n - 1 - 2 ^ suc j) / 2 ≡ 2 ^ n - 1 - 2 ^ j =
      omega (arith, pow-suc 2 n, pow-suc 2 j, pow_lt j n (omega arith)) in
    rw e (ground (arith, bit-not_pow n j k (omega arith) (omega arith)))

bit_and-zero_fuel : (n a : ℕ) → a ≤ n → bit_and a 0 ≡ 0
bit_and-zero_fuel zero zero h = refl
bit_and-zero_fuel zero (suc a) h = absurd (omega arith)
bit_and-zero_fuel (suc n) a h = elim (dec_lt 0 a) [
  | yes p ↦ omega (arith, bit_and_step a 0, bit_and-zero_fuel n (a / 2) (omega arith))
  | no p ↦ let e : a ≡ 0 = omega arith in rw e
]

bit_and-zero : (a : ℕ) → bit_and a 0 ≡ 0
bit_and-zero a = bit_and-zero_fuel a a (omega arith)

-- `w & (1 << k)` isolates the digit.
pub bit_and-pow : (w k : ℕ) → bit_and w (2 ^ k) ≡ bit w k * 2 ^ k
unfolding bit
bit_and-pow w zero = omega (arith, bit_and_step w 1, bit_and-zero (w / 2))
bit_and-pow w (suc k) = omega (
  arith,
  bit_and_step w (2 ^ suc k),
  ap (λ t. bit_and (w / 2) t) (half-pow k),
  bit_and-pow (w / 2) k,
  ap (λ (t : ℕ). bit (w / 2) k * t) (pow-suc 2 k),
  pow-suc 2 k,
)

-- `(w & (1 << k)) == 0` is the test of one digit.
pub bit_and-pow-eq-zero : (w k : ℕ) → (bit_and w (2 ^ k) == 0) ≡ (bit w k == 0)
bit_and-pow-eq-zero w k = elim (dec_lt 0 (bit w k)) [
  | yes p ↦
      let e : bit w k ≡ 1 = omega (arith, bit-lt w k) in
      rw (bit_and-pow, e) (ground (arith, one-le-pow k 2))
  | no p ↦ let e : bit w k ≡ 0 = omega arith in rw (bit_and-pow, e) (ground arith)
]

bit_or-zero_fuel : (n a : ℕ) → a ≤ n → bit_or a 0 ≡ a
bit_or-zero_fuel zero zero h = refl
bit_or-zero_fuel zero (suc a) h = absurd (omega arith)
bit_or-zero_fuel (suc n) a h = elim (dec_lt 0 a) [
  | yes p ↦ omega (arith, bit_or_step a 0, bit_or-zero_fuel n (a / 2) (omega arith))
  | no p ↦ let e : a ≡ 0 = omega arith in rw e
]

bit_or-zero : (a : ℕ) → bit_or a 0 ≡ a
bit_or-zero a = bit_or-zero_fuel a a (omega arith)

-- Setting the first two of three digits that are 0.
pub bit_or-three : (y : ℕ) → bit_or (y * 8) 3 ≡ y * 8 + 3
bit_or-three y =
    omega (arith, bit_or_step (y * 8) 3, bit_or_step (y * 8 / 2) 1, bit_or-zero (y * 8 / 2 / 2))

-- Setting the third of three digits that is 0.
pub bit_or-four : (y : ℕ) → bit_or (y * 8 + 3) 4 ≡ y * 8 + 7
bit_or-four y = omega (
  arith,
  bit_or_step (y * 8 + 3) 4,
  bit_or_step ((y * 8 + 3) / 2) 2,
  bit_or_step ((y * 8 + 3) / 2 / 2) 1,
  bit_or-zero ((y * 8 + 3) / 2 / 2 / 2),
)
