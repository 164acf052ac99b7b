-- ===== src/Base/Bits.antt =====
-- Binary digits of the native numbers.
use Prim.Native.Nat.{
  ℕ, zero, suc, ◌+◌, ◌-◌, ◌*◌, ◌/◌, ◌%◌, ◌^◌, ◌≤◌, ◌<◌, min, bit_and, bit_and-bitwise, digits,
}
use mathlib.Core.Path.{◌≡◌, refl, ap, ◌∙◌}
use mathlib.Core.Bool.{not}
use platform_system_connecti.Base.Tests.{◌==◌, ltb, if◌then◌else◌}
use native.Mathlib.Omega.{arith}

-- The digit that stands `k` places up, 0 or 1.
abbrev pub digit : ℕ → ℕ → ℕ
digit zero a = a % 2
digit (suc k) a = digit k (a / 2)

pub digit-zero : (k : ℕ) → digit k 0 ≡ 0
digit-zero zero = refl
digit-zero (suc k) = digit-zero k

abbrev both : ℕ → ℕ → ℕ → ℕ
both n a b = digits (λ b. zero) min n a b

both-zero : (n a : ℕ) → both n a 0 ≡ 0
both-zero zero a = refl
both-zero (suc n) zero = refl
both-zero (suc n) (suc a) = omega (arith, both-zero n (suc a / 2))

both-power : (k n a : ℕ) → a ≤ n → both n a (2 ^ k) ≡ digit k a * 2 ^ k
both-power zero zero a h = let e : a ≡ 0 = omega arith in rw e
both-power zero (suc n) zero h = refl
both-power zero (suc n) (suc a) h = omega (arith, both-zero n (suc a / 2))
both-power (suc k) zero a h =
    let e : a ≡ 0 = omega arith in
    rw e (omega (arith, ap (λ (t : ℕ). t * 2 ^ suc k) (digit-zero k)))
both-power (suc k) (suc n) zero h = omega (arith, ap (λ (t : ℕ). t * 2 ^ suc k) (digit-zero k))
both-power (suc k) (suc n) (suc a) h =
    let double : 2 ^ suc k ≡ 2 ^ k * 2 = omega arith in
    let half : 2 ^ suc k / 2 ≡ 2 ^ k = omega (arith, double) in
    let even : 2 ^ suc k % 2 ≡ 0 = omega (arith, double) in
    rw (half, even, both-power k n (suc a / 2) (omega arith))
      (omega (arith, double, ap (λ (t : ℕ). digit k (suc a / 2) * t) double))

-- Masking with a power of two keeps its digit.
pub bit_and-power : (a k : ℕ) → bit_and a (2 ^ k) ≡ digit k a * 2 ^ k
bit_and-power a k = bit_and-bitwise a (2 ^ k) ∙ both-power k a a (omega arith)

power-pos : (k : ℕ) → 0 < 2 ^ k
power-pos zero = omega arith
power-pos (suc k) = omega (arith, power-pos k)

digit-le : (k a : ℕ) → digit k a ≤ 1
digit-le zero a = omega arith
digit-le (suc k) a = digit-le k (a / 2)

times-zero : (d p : ℕ) → 0 < p → (d * p == 0) ≡ (d == 0)
times-zero zero p h = let e : 0 * p ≡ 0 = omega arith in rw e
times-zero (suc d) p h = ground arith

-- `a & (1 << k)` as a condition.
pub masked : (a k : ℕ) → not (bit_and a (2 ^ k) == 0) ≡ (digit k a == 1)
masked a k =
    rw (bit_and-power a k, times-zero (digit k a) (2 ^ k) (power-pos k))
      (ground (arith, digit-le k a))

double-power : (n y : ℕ) → 2 ^ suc n * y ≡ 2 * (2 ^ n * y)
double-power n y =
    let p : 2 ^ suc n ≡ 2 * 2 ^ n = omega arith in omega (arith, ap (λ (t : ℕ). t * y) p)

half-sum : (n x y : ℕ) → (x + 2 ^ suc n * y) / 2 ≡ x / 2 + 2 ^ n * y
half-sum n x y = omega (arith, double-power n y)

-- The digits of a number put together of a low and a high part.
pub digit-low : (k n x y : ℕ) → k < n → digit k (x + 2 ^ n * y) ≡ digit k x
digit-low k zero x y h = absurd (omega arith)
digit-low zero (suc n) x y h = omega (arith, double-power n y)
digit-low (suc k) (suc n) x y h =
    ap (digit k) (half-sum n x y) ∙ digit-low k n (x / 2) y (omega arith)

pub digit-high : (n k x y : ℕ) → x < 2 ^ n → digit (n + k) (x + 2 ^ n * y) ≡ digit k y
digit-high zero k x y h =
    let e : 0 + k ≡ k = omega arith in let f : x + 2 ^ 0 * y ≡ y = omega arith in rw (e, f)
digit-high (suc n) k x y h =
    let e : suc n + k ≡ suc (n + k) = omega arith in
    rw e (ap (digit (n + k)) (half-sum n x y) ∙ digit-high n k (x / 2) y (omega arith))

-- int8_t to int32_t, on bit patterns.
abbrev pub sign_extend : ℕ → ℕ
sign_extend b = if ltb b 128 then b else 2 ^ 32 - 256 + b
