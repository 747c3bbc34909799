-- ===== src/Base/Bits.antt =====
-- Bits of a machine word: the binary digit k of a number, and `&`, `|`, `~` read digit by digit.
use Prim.Native.Nat.{
  ℕ, zero, suc, ◌+◌, ◌-◌, ◌*◌, ◌/◌, ◌%◌, ◌^◌, ◌≤◌, ◌<◌, min, max, bit_and, bit_or, digits,
  bit_and-bitwise, bit_or-bitwise,
}
use mathlib.Core.Path.{◌≡◌, refl, ap, sym, ◌∙◌}
use mathlib.Core.Logic.{◌≢◌}
use native.Mathlib.Nat.{pow-suc, one-le-pow}
use native.Mathlib.Omega.{arith}

-- The library's recursion on digits stops at the first number's end, so fuel above it is idle.
module _ (left : ℕ → ℕ) (op : ℕ → ℕ → ℕ) where
  digits-ended : (fuel b : ℕ) → digits left op fuel 0 b ≡ left b
  digits-ended zero b = refl
  digits-ended (suc fuel) b = refl

  idle_fuel : (x y a b : ℕ) → a ≤ x → a ≤ y → digits left op x a b ≡ digits left op y a b
  idle_fuel x y zero b below above = digits-ended x b ∙ sym (digits-ended y b)
  idle_fuel (suc x) (suc y) (suc a) b below above =
      ap (λ (high : ℕ). high * 2 + op (suc a % 2) (b % 2))
        (idle_fuel x y (suc a / 2) (b / 2) (omega arith) (omega arith))
  idle_fuel zero y (suc a) b below above = absurd (omega arith)
  idle_fuel (suc x) zero (suc a) b below above = absurd (omega arith)

pub bit_and_step : (x y : ℕ) → bit_and x y ≡ min (x % 2) (y % 2) + 2 * bit_and (x / 2) (y / 2)
bit_and_step zero y = simp bit_and-bitwise (omega arith)
bit_and_step (suc x) y =
    let enough =
      idle_fuel (λ b. 0) min x (suc x / 2) (suc x / 2) (y / 2) (omega arith) (omega arith) in
    simp bit_and-bitwise (omega (arith, enough))

pub bit_or_step : (x y : ℕ) → bit_or x y ≡ max (x % 2) (y % 2) + 2 * bit_or (x / 2) (y / 2)
bit_or_step zero y = simp bit_or-bitwise (omega arith)
bit_or_step (suc x) y =
    let enough =
      idle_fuel (λ b. b) max x (suc x / 2) (suc x / 2) (y / 2) (omega arith) (omega arith) in
    simp bit_or-bitwise (omega (arith, enough))

-- The binary digit k of a.
abbrev pub bit : ℕ → ℕ → ℕ
bit a zero = a % 2
bit a (suc k) = bit (a / 2) k

pub bit-le-one : (a k : ℕ) → bit a k ≤ 1
bit-le-one a zero = omega arith
bit-le-one a (suc k) = bit-le-one (a / 2) k

pub bit-bit_and : (a b k : ℕ) → bit (bit_and a b) k ≡ min (bit a k) (bit b k)
bit-bit_and a b zero = omega (arith, bit_and_step a b)
bit-bit_and a b (suc k) =
    let half : bit_and a b / 2 ≡ bit_and (a / 2) (b / 2) = omega (arith, bit_and_step a b) in
    rw half (bit-bit_and (a / 2) (b / 2) k)

pub bit-bit_or : (a b k : ℕ) → bit (bit_or a b) k ≡ max (bit a k) (bit b k)
bit-bit_or a b zero = omega (arith, bit_or_step a b)
bit-bit_or a b (suc k) =
    let half : bit_or a b / 2 ≡ bit_or (a / 2) (b / 2) = omega (arith, bit_or_step a b) in
    rw half (bit-bit_or (a / 2) (b / 2) k)

-- `~a` over w bits.
abbrev pub bit_not : ℕ → ℕ → ℕ
bit_not w a = 2 ^ w - 1 - a

pub bit-bit_not : (w a k : ℕ) → k < w → a < 2 ^ w → bit (bit_not w a) k ≡ 1 - bit a k
bit-bit_not zero a k h l = absurd (omega arith)
bit-bit_not (suc w) a zero h l = omega (arith, pow-suc 2 w)
bit-bit_not (suc w) a (suc k) h l =
    let half : bit_not (suc w) a / 2 ≡ bit_not w (a / 2) = omega (arith, pow-suc 2 w) in
    rw half (bit-bit_not w (a / 2) k (omega arith) (omega (arith, pow-suc 2 w)))

-- No digit of a conjunction is above the second number's.
and_at_most : (fuel b a : ℕ) → a < fuel → bit_and a b ≤ b
and_at_most zero b a h = absurd (omega arith)
and_at_most (suc fuel) b zero h = omega (arith, bit_and_step 0 b, bit_and-bitwise 0 (b / 2))
and_at_most (suc fuel) b (suc a) h =
    omega (arith, and_at_most fuel (b / 2) (suc a / 2) (omega arith), bit_and_step (suc a) b)

pub bit_and-zero : (a : ℕ) → bit_and a 0 ≡ 0
bit_and-zero a = omega (arith, and_at_most (a + 1) 0 a (omega arith))

bit_and-double : (a b : ℕ) → bit_and a (b * 2) ≡ bit_and (a / 2) b * 2
bit_and-double a b =
    let half : b * 2 / 2 ≡ b = omega arith in omega (arith, (rw half at (bit_and_step a (b * 2))))

-- A test against a single flag reads one digit.
pub bit_and-pow : (a k : ℕ) → bit_and a (2 ^ k) ≡ bit a k * 2 ^ k
bit_and-pow a zero = omega (arith, bit_and_step a 1, bit_and-zero (a / 2))
bit_and-pow a (suc k) =
    let twice : 2 ^ suc k ≡ 2 ^ k * 2 = omega (arith, pow-suc 2 k) in
    rw twice (omega (arith, bit_and-double a (2 ^ k), bit_and-pow (a / 2) k))

-- Setting a flag: the flag reads set, and every other bit as before.
bit-pow_self : (k : ℕ) → bit (2 ^ k) k ≡ 1
bit-pow_self zero = refl
bit-pow_self (suc k) =
    let half : 2 ^ suc k / 2 ≡ 2 ^ k = omega (arith, pow-suc 2 k) in rw half (bit-pow_self k)

pub bit_and-bit_or_self : (a k : ℕ) → bit_and (bit_or a (2 ^ k)) (2 ^ k) ≢ 0
bit_and-bit_or_self a k =
    let one : bit (bit_or a (2 ^ k)) k ≡ 1 =
      omega (arith, bit-bit_or a (2 ^ k) k, bit-pow_self k, bit-le-one a k) in
    rw (bit_and-pow (bit_or a (2 ^ k)) k, one) (omega (arith, one-le-pow k 2))

or_nothing : (fuel a : ℕ) → a < fuel → bit_or a 0 ≡ a
or_nothing zero a h = absurd (omega arith)
or_nothing (suc fuel) zero h = refl
or_nothing (suc fuel) (suc a) h =
    omega (arith, or_nothing fuel (suc a / 2) (omega arith), bit_or_step (suc a) 0)

pub bit_or-zero : (a : ℕ) → bit_or a 0 ≡ a
bit_or-zero a = or_nothing (a + 1) a (omega arith)

bit_and-low : (k q r a : ℕ) → r < 2 ^ k → a ≡ q * 2 ^ k + r → bit_and a (2 ^ k - 1) ≡ r
bit_and-low zero q r a h e = omega (arith, bit_and-zero a)
bit_and-low (suc k) q r a h e =
    let twice : 2 ^ suc k ≡ 2 * 2 ^ k = omega (arith, pow-suc 2 k) in
    let high : q * 2 ^ suc k ≡ 2 * (q * 2 ^ k) = omega (arith, ap (λ (t : ℕ). q * t) twice) in
    let pos : 1 ≤ 2 ^ k = one-le-pow k 2 (omega arith) in
    let half : (2 ^ suc k - 1) / 2 ≡ 2 ^ k - 1 = omega arith in
    let rest : bit_and (a / 2) (2 ^ k - 1) ≡ r / 2 =
      bit_and-low k q (r / 2) (a / 2) (omega arith) (omega arith) in
    omega (arith, (rw half at (bit_and_step a (2 ^ suc k - 1))), rest)

-- A mask of k low bits is a remainder.
pub bit_and_mask : (k a : ℕ) → bit_and a (2 ^ k - 1) ≡ a % 2 ^ k
bit_and_mask k a = ground (arith, one-le-pow k 2, bit_and-low k (a / 2 ^ k) (a % 2 ^ k) a)
