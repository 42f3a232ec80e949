-- ===== src/Common/Bits.antt =====
-- Facts about the bit operations: a small range is checked value by value, and `bit_or` is
-- described by its lowest digit.
use Prim.Native.Nat.{
  ℕ, zero, suc, ◌+◌, ◌*◌, ◌/◌, ◌%◌, ◌≤◌, ◌<◌, ◌^◌, max, bit_and, bit_or, digits, bit_or-bitwise,
}
use mathlib.Core.Path.{◌≡◌, refl, ap}
use mathlib.Core.Logic.{◌≢◌}
use native.Mathlib.Nat.{pow-suc}
use mathlib.Core.Bool.{Bool, true, ◌&&◌}
use native.Mathlib.Omega.{arith}
use open_opticon.Common.Tests.{◌==◌, ==_iff}

unfoldable pub all_below : ℕ → (ℕ → Bool) → Bool
all_below zero p = true
all_below (suc n) p = let rest = all_below n p in p n && rest

pub all_below_sound :
    (n : ℕ) (test : ℕ → Bool) (i : ℕ) → all_below n test ≡ true → i < n → test i ≡ true
unfolding all_below
all_below_sound (suc n) test i all below = ground (arith, all_below_sound n test i)
all_below_sound zero test i all below = absurd (omega arith)

low_five_table : all_below 256 (λ x. bit_and x 0x1f == x % 32) ≡ true
unfolding all_below
low_five_table = refl

pub bit_and-low_five : (x : ℕ) → x < 256 → bit_and x 0x1f ≡ x % 32
bit_and-low_five x h = (==_iff _ _).0 (all_below_sound 256 _ x low_five_table h)

abbrev or_digits : ℕ → ℕ → ℕ → ℕ
or_digits n a b = digits (λ b. b) max n a b

or_digits_fuel : (f g x y : ℕ) → x ≤ g → x ≤ f → or_digits f x y ≡ or_digits g x y
or_digits_fuel (suc f) (suc g) (suc x) y hg hf =
    let half = or_digits_fuel f g (suc x / 2) (y / 2) (omega arith) (omega arith) in
    omega (arith, half)
or_digits_fuel zero g (suc x) y hg hf = absurd (omega arith)
or_digits_fuel (suc f) zero (suc x) y hg hf = absurd (omega arith)
or_digits_fuel zero zero zero y hg hf = refl
or_digits_fuel (suc f) zero zero y hg hf = refl
or_digits_fuel zero (suc g) zero y hg hf = refl
or_digits_fuel (suc f) (suc g) zero y hg hf = refl

zero-bit_or : (b : ℕ) → bit_or 0 b ≡ b
zero-bit_or b = bit_or-bitwise 0 b

bit_or_step : (a b : ℕ) → bit_or a b ≡ bit_or (a / 2) (b / 2) * 2 + max (a % 2) (b % 2)
bit_or_step zero b = omega (arith, zero-bit_or b, zero-bit_or (b / 2))
bit_or_step (suc a) b =
    let half : ℕ = suc a / 2 in
    let same = or_digits_fuel a half half (b / 2) (omega arith) (omega arith) in
    omega (arith, bit_or-bitwise half (b / 2), same, bit_or-bitwise (suc a) b)

bit_or-zero_fuel : (fuel x : ℕ) → x ≤ fuel → bit_or x 0 ≡ x
bit_or-zero_fuel zero (suc x) h = absurd (omega arith)
bit_or-zero_fuel (suc fuel) (suc x) h =
    let half = bit_or-zero_fuel fuel (suc x / 2) (omega arith) in
    omega (arith, half, bit_or_step (suc x) 0)
bit_or-zero_fuel fuel zero h = refl

bit_or-zero : (a : ℕ) → bit_or a 0 ≡ a
bit_or-zero a = bit_or-zero_fuel a a (omega arith)

-- One digit of a shifted number joined with a smaller one.
or_digit :
    (c a b : ℕ) → bit_or (c * a) (b / 2) ≡ c * a + b / 2 → bit_or (2 * (c * a)) b ≡ 2 * (c * a) + b
or_digit c a b h = omega (arith, bit_or_step (2 * (c * a)) b, halved)
  where
    halved : bit_or (2 * (c * a) / 2) (b / 2) ≡ bit_or (c * a) (b / 2)
    halved = let e : 2 * (c * a) / 2 ≡ c * a = omega arith in rw e

double : (k a b : ℕ) → bit_or (k * a) (b / 2) ≡ k * a + b / 2 → bit_or (2 * k * a) b ≡ 2 * k * a + b
double k a b h = let e : 2 * k * a ≡ 2 * (k * a) = omega arith in rw e (or_digit k a b h)

-- `v << 8 | b` is `256 * v + b`.
pub bit_or-shift_byte : (a b : ℕ) → b < 256 → bit_or (256 * a) b ≡ 256 * a + b
bit_or-shift_byte a b h = double 128 a b (
    double 64 a (b / 2) (
      double 32 a (b / 2 / 2) (
        double 16 a (b / 2 / 2 / 2) (
          double 8 a (b / 2 / 2 / 2 / 2) (
            double 4 a (b / 2 / 2 / 2 / 2 / 2) (
              double 2 a (b / 2 / 2 / 2 / 2 / 2 / 2)
                (double 1 a (b / 2 / 2 / 2 / 2 / 2 / 2 / 2) last)))))))
  where
    last :
        bit_or (1 * a) (b / 2 / 2 / 2 / 2 / 2 / 2 / 2 / 2)
        ≡ 1 * a + b / 2 / 2 / 2 / 2 / 2 / 2 / 2 / 2
    last =
        let e : b / 2 / 2 / 2 / 2 / 2 / 2 / 2 / 2 ≡ 0 = omega arith in
        rw e (omega (arith, bit_or-zero (1 * a)))

-- The digit of weight 2 ^ j.
abbrev pub bit : ℕ → ℕ → ℕ
bit zero a = a % 2
bit (suc j) a = bit j (a / 2)

pub bit-bit_or : (j a b : ℕ) → bit j (bit_or a b) ≡ max (bit j a) (bit j b)
bit-bit_or zero a b = omega (arith, bit_or_step a b)
bit-bit_or (suc j) a b =
    let e : bit_or a b / 2 ≡ bit_or (a / 2) (b / 2) = omega (arith, bit_or_step a b) in
    rw e (bit-bit_or j (a / 2) (b / 2))

bit-zero : (j : ℕ) → bit j 0 ≡ 0
bit-zero zero = refl
bit-zero (suc j) = bit-zero j

pub bit-pow_ne : (j k : ℕ) → j ≢ k → bit j (2 ^ k) ≡ 0
bit-pow_ne zero zero h = absurd (h refl)
bit-pow_ne zero (suc k) h = omega (arith, pow-suc 2 k)
bit-pow_ne (suc j) zero h = bit-zero j
bit-pow_ne (suc j) (suc k) h =
    let e : 2 ^ suc k / 2 ≡ 2 ^ k = omega (arith, pow-suc 2 k) in
    rw e (bit-pow_ne j k (λ p. h (ap suc p)))
