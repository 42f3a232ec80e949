-- ===== src/Consistency/Nodes.antt =====
-- src/verifier/transparency.go: the nodes of the tree of `mth`, level by level.
use open_opticon.Common.{
  ℕ, zero, suc, ◌+◌, ◌-◌, ◌*◌, ◌/◌, ◌%◌, ◌^◌, ◌≤◌, ◌<◌, min, ◌≡◌, refl, sym, ap, ◌∙◌, arith, List,
  length, take, drop, length-take, length-drop, take_all, take-take, drop-take, drop-drop, dec_lt,
}
use native.Mathlib.Nat.{pow-suc}
use open_opticon.Common.Bytes.{Bytes}
use open_opticon.Crypto.{Crypto}
use open_opticon.Merkle.{Digest, hash_node, mth, largest_pow2_below}
use open_opticon.Merkle.Pow.{largest_pow2_below-IsSplit, pow_pos}
use open_opticon.Merkle.Paths.{mth_split}

-- The width of a level.
pub record IsPow2 (p : ℕ) : Type 0 where
  pub j : ℕ
  pub power : p ≡ 2 ^ j

pub IsPow2-pos : {p : ℕ} → IsPow2 p → 1 ≤ p
IsPow2-pos h = omega (arith, h.power, pow_pos h.j)

pub IsPow2-double : {p : ℕ} → IsPow2 p → IsPow2 (p + p)
IsPow2-double h = record { j = suc h.j; power = omega (arith, h.power, pow-suc 2 h.j) }

pow_le : (i d : ℕ) → 2 ^ i ≤ 2 ^ (d + i)
pow_le i zero = let e : 0 + i ≡ i = omega arith in rw e (omega arith)
pow_le i (suc d) =
    let e : suc d + i ≡ suc (d + i) = omega arith in
    rw e (omega (arith, pow-suc 2 (d + i), pow_le i d))

pow_double_le : (i j : ℕ) → i < j → 2 * 2 ^ i ≤ 2 ^ j
pow_double_le i j h =
    let e : j ≡ (j - suc i) + suc i = omega arith in
    rw e (omega (arith, pow_le (suc i) (j - suc i), pow-suc 2 i))

-- Two powers of two between half of `n` and `n` are one.
pow_unique : (i j n : ℕ) → 2 ^ i < n → n ≤ 2 * 2 ^ i → 2 ^ j < n → n ≤ 2 * 2 ^ j → 2 ^ i ≡ 2 ^ j
pow_unique i j n a b c d = elim (dec_lt i j) [
  | yes lt ↦ absurd (omega (arith, pow_double_le i j lt))
  | no ge ↦ elim (dec_lt j i) [
    | yes lt ↦ absurd (omega (arith, pow_double_le j i lt))
    | no ge' ↦ ap (λ k. 2 ^ k) (omega arith)
  ]
]

pub split_width : {p : ℕ} (n : ℕ) → IsPow2 p → p < n → n ≤ p + p → largest_pow2_below n ≡ p
split_width n h lt le =
    let s = largest_pow2_below-IsSplit n (omega (arith, IsPow2-pos h)) in
    let u =
      pow_unique s.j h.j n (omega (arith, s.power, s.below)) (omega (arith, s.power, s.most))
        (omega (arith, h.power)) (omega (arith, h.power)) in
    s.power ∙ u ∙ sym h.power

pub mul_odd : (x p : ℕ) → x % 2 ≡ 1 → x * p ≡ (x / 2) * (p + p) + p
mul_odd x p h = let e : x ≡ 2 * (x / 2) + 1 = omega arith in omega (arith, ap (λ (t : ℕ). t * p) e)

pub mul_even : (x p : ℕ) → x % 2 ≡ 0 → x * p ≡ (x / 2) * (p + p)
mul_even x p h = let e : x ≡ 2 * (x / 2) = omega arith in omega (arith, ap (λ (t : ℕ). t * p) e)

module _ (c : Crypto) (leaves : List Bytes) where
  -- The root of at most `p` leaves from `a` on.
  abbrev pub part : ℕ → ℕ → Digest
  part p a = mth c (take p (drop a leaves))

  -- A node of twice the width whose left half is full.
  pub part-double :
      {p : ℕ} (a : ℕ)
      → IsPow2 p
      → a + p < length leaves
      → part (p + p) a ≡ hash_node c (part p a) (part p (a + p))
  part-double {p} a h lt =
      let l = take (p + p) (drop a leaves) in
      let n : length l ≡ min (p + p) (length leaves - a) =
        length-take (p + p) (drop a leaves) ∙ ap (min (p + p)) (length-drop a leaves) in
      let w = split_width (length l) h (omega (arith, IsPow2-pos h)) (omega arith) in
      let left : take p l ≡ take p (drop a leaves) =
        take-take p (p + p) (drop a leaves) (omega arith) in
      let q : p + p - p ≡ p = omega arith in
      let right : drop p l ≡ take p (drop (a + p) leaves) =
        drop-take p (p + p) (drop a leaves) ∙ rw q (ap (take p) (drop-drop p a leaves)) in
      mth_split c l (omega (arith, IsPow2-pos h)) ∙ rw (w, left, right) refl

  -- A node of twice the width without a right half.
  pub part-alone : (p a : ℕ) → length leaves ≤ a + p → part (p + p) a ≡ part p a
  part-alone p a h =
      let n = length-drop a leaves in
      ap (mth c) (
        take_all (p + p) (drop a leaves) (omega (arith, n))
        ∙ sym (take_all p (drop a leaves) (omega (arith, n))))

-- A full node of a log is one of every longer log.
pub part-take :
    (c : Crypto) (leaves : List Bytes) (m p a : ℕ)
    → a + p ≤ m
    → part c (take m leaves) p a ≡ part c leaves p a
part-take c leaves m p a h =
    ap (mth c)
      (ap (take p) (drop-take a m leaves) ∙ take-take p (m - a) (drop a leaves) (omega arith))

pub mul_le : (x y p : ℕ) → x ≤ y → x * p ≤ y * p
mul_le x y p h = grind arith

-- The first node is the root where it is wide enough.
pub part_root :
    (c : Crypto) (l : List Bytes) (p i : ℕ) → i ≡ 0 → length l ≤ p → part c l p (i * p) ≡ mth c l
part_root c l p i z h = let e : i * p ≡ 0 = rw z (omega arith) in rw e (ap (mth c) (take_all p l h))
