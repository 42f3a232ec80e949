-- ===== src/Merkle/Pow.antt =====
-- src/verifier/transparency.go: `largestPow2Below`, and shifts by a variable number of bits.
use open_opticon.Common.{
  ℕ, zero, suc, ◌+◌, ◌*◌, ◌/◌, ◌^◌, ◌≤◌, ◌<◌, ◌≡◌, refl, ap, ◌∙◌, arith, Bool-cases, inl, inr, ltb,
  ltb→lt,
}
use native.Mathlib.Nat.{pow-suc}
use open_opticon.Merkle.{doubled, largest_pow2_below}

pub pow_pos : (j : ℕ) → 1 ≤ 2 ^ j
pow_pos zero = omega arith
pow_pos (suc j) = omega (arith, pow-suc 2 j, pow_pos j)

pub lt-pow : (j : ℕ) → j < 2 ^ j
lt-pow zero = omega arith
lt-pow (suc j) = omega (arith, pow-suc 2 j, lt-pow j)

pub pow-add : (i j : ℕ) → 2 ^ (i + j) ≡ 2 ^ i * 2 ^ j
pow-add zero j = let e : 0 + j ≡ j = omega arith in rw e (omega arith)
pow-add (suc i) j =
    let e : suc i + j ≡ suc (i + j) = omega arith in
    rw e (omega (arith, pow-suc 2 (i + j), pow-add i j, ap (λ (t : ℕ). t * 2 ^ j) (pow-suc 2 i)))

-- `x >> j`.
abbrev pub shr : ℕ → ℕ → ℕ
shr zero x = x
shr (suc j) x = shr j x / 2

-- What `largestPow2Below` returns: a power of two below `n` whose double is not.
pub record IsSplit (n k : ℕ) : Type 0 where
  pub j : ℕ
  pub power : k ≡ 2 ^ j
  pub below : k < n
  pub most : n ≤ 2 * k

doubled-IsSplit : (fuel n j : ℕ) → 2 ^ j < n → n ≤ fuel + 2 ^ j → IsSplit n (doubled fuel n (2 ^ j))
unfolding doubled
doubled-IsSplit zero n j h f = absurd (omega arith)
doubled-IsSplit (suc fuel) n j h f = elim (Bool-cases (ltb (2 * 2 ^ j) n)) [
  | inl more ↦
      let e : 2 * 2 ^ j ≡ 2 ^ suc j = omega (arith, pow-suc 2 j) in
      rw (more, e)
        (doubled-IsSplit fuel n (suc j) (omega (arith, ltb→lt _ _ more, e))
          (omega (arith, e, pow_pos j)))
  | inr done ↦ rw done (record { j = j; power = refl; below = h; most = ground arith })
]

-- For two leaves or more the split is a power of two that is below their number and at least half of
-- it.
pub largest_pow2_below-IsSplit : (n : ℕ) → 2 ≤ n → IsSplit n (largest_pow2_below n)
unfolding largest_pow2_below
largest_pow2_below-IsSplit n h = doubled-IsSplit n n 0 (omega arith) (omega arith)

pub pow_suc_mul : (j y : ℕ) → 2 ^ suc j * y ≡ 2 ^ j * (2 * y)
pow_suc_mul j y = omega (arith, ap (λ (t : ℕ). t * y) (pow-suc 2 j))

pub shr-add : (j x y : ℕ) → shr j (x + 2 ^ j * y) ≡ shr j x + y
shr-add zero x y = omega arith
shr-add (suc j) x y = rw (pow_suc_mul j y, shr-add j x (2 * y)) (omega arith)

pub shr-lt : (j x b : ℕ) → x < 2 ^ j * b → shr j x < b
shr-lt zero x b h = omega arith
shr-lt (suc j) x b h = omega (arith, shr-lt j x (2 * b) (omega (arith, pow_suc_mul j b)))

pub shr-le : (j x b : ℕ) → 2 ^ j * b ≤ x → b ≤ shr j x
shr-le zero x b h = omega arith
shr-le (suc j) x b h = omega (arith, shr-le j x (2 * b) (omega (arith, pow_suc_mul j b)))

-- Powers of two are ordered as their exponents.
pub pow-lt_cancel : (i j : ℕ) → 2 ^ j < 2 ^ i → j < i
pow-lt_cancel zero j h = absurd (omega (arith, pow_pos j))
pow-lt_cancel (suc i) zero h = omega arith
pow-lt_cancel (suc i) (suc j) h =
    omega (arith, pow-lt_cancel i j (omega (arith, pow-suc 2 i, pow-suc 2 j)))

pub pow-injective : (i j : ℕ) → 2 ^ i ≡ 2 ^ j → i ≡ j
pow-injective zero zero h = refl
pow-injective zero (suc j) h = absurd (omega (arith, pow-suc 2 j, pow_pos j))
pow-injective (suc i) zero h = absurd (omega (arith, pow-suc 2 i, pow_pos i))
pow-injective (suc i) (suc j) h =
    ap suc (pow-injective i j (omega (arith, pow-suc 2 i, pow-suc 2 j)))

-- The split of a full tree is its half.
pub IsSplit-full : (j k : ℕ) → IsSplit (2 ^ suc j) k → k ≡ 2 ^ j
IsSplit-full j k s =
    let below : s.j < suc j = pow-lt_cancel (suc j) s.j (omega (arith, s.power, s.below)) in
    let most : j < suc s.j =
      pow-lt_cancel (suc s.j) j
        (omega (arith, s.power, s.most, pow-suc 2 j, pow-suc 2 s.j, pow_pos j)) in
    let same : s.j ≡ j = omega arith in s.power ∙ ap (λ (x : ℕ). 2 ^ x) same
