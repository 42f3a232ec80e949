-- ===== src/Merkle/Run.antt =====
-- src/verifier/transparency.go: the loop of `VerifyInclusion` walks up the tree.
use open_opticon.Common.{
  ℕ, zero, suc, ◌+◌, ◌*◌, ◌/◌, ◌%◌, ◌^◌, ◌<◌, ◌≡◌, refl, sym, ◌∙◌, subst, arith, false, ◌==◌, List,
  [], ◌∷◌, ◌++◌, append_assoc,
}
use native.Mathlib.Nat.{pow-suc}
use open_opticon.Crypto.{Crypto}
use open_opticon.Merkle.{Digest, hash_node, largest_pow2_below, Climb, climb_step, climb, strip}
use open_opticon.Merkle.Pow.{
  IsSplit, largest_pow2_below-IsSplit, shr, pow_suc_mul, pow_pos, IsSplit-full,
}
use open_opticon.Merkle.Climbs.{Climbs, leaf, left, right}

abbrev pub at : ℕ → ℕ → Digest → Climb
at fn sn r = record { fn = fn; sn = sn; r = r }

-- One round, at a left child, and at a right child whose number is odd.
pub step_left :
    (c : Crypto) (p : Digest) (proof : List Digest) (a sn : ℕ) (r : Digest)
    → 2 * a < sn
    → climb c (p ∷ proof) (at (2 * a) sn r) ≡ climb c proof (at a (sn / 2) (hash_node c r p))
unfolding climb climb_step
step_left c p proof a sn r h =
    let e : 2 * a / 2 ≡ a = omega arith in
    let f : (2 * a) % 2 ≡ 0 = omega arith in
    let g : (2 * a == sn) ≡ false = ground arith in
    let z : (sn == 0) ≡ false = ground arith in rw (z, f, g, e)

pub strip_odd : (fuel a sn : ℕ) → strip fuel (2 * a + 1) sn ≡ (2 * a + 1, sn)
unfolding strip
strip_odd zero a sn = refl
strip_odd (suc fuel) a sn = let f : (2 * a + 1) % 2 ≡ 1 = omega arith in rw f

pub step_right :
    (c : Crypto) (p : Digest) (proof : List Digest) (a sn : ℕ) (r : Digest)
    → 0 < sn
    → climb c (p ∷ proof) (at (2 * a + 1) sn r) ≡ climb c proof (at a (sn / 2) (hash_node c p r))
unfolding climb climb_step
step_right c p proof a sn r h =
    let e : (2 * a + 1) / 2 ≡ a = omega arith in
    let f : (2 * a + 1) % 2 ≡ 1 = omega arith in
    let z : (sn == 0) ≡ false = ground arith in rw (z, f, strip_odd (2 * a + 1) a sn, e)

full_half : (n j k : ℕ) → n ≡ 2 ^ suc j → k ≡ largest_pow2_below n → k ≡ 2 ^ j
full_half n j k size e =
    let s = largest_pow2_below-IsSplit n (omega (arith, pow-suc 2 j, pow_pos j)) in
    IsSplit-full j k (subst (λ x. IsSplit x k) size (subst (IsSplit n) (sym e) s))

pub mul_suc_pow : (j a : ℕ) → 2 ^ j * (2 * a + 1) ≡ 2 ^ j * (2 * a) + 2 ^ j
mul_suc_pow j a = omega arith

-- In a full tree of 2 ^ j leaves, off the right edge.
pub full_run :
    (c : Crypto) {r t : Digest} {m n : ℕ} {q : List Digest} (j a sn : ℕ) (rest : List Digest)
    → Climbs c r m n q t
    → n ≡ 2 ^ j
    → a < shr j sn
    → climb c (q ++ rest) (at (m + 2 ^ j * a) sn r) ≡ climb c rest (at a (shr j sn) t)
full_run c {m} zero a sn rest (leaf e f) size h = let g : m + 2 ^ 0 * a ≡ a = omega arith in rw g
full_run c (suc j) a sn rest (leaf e f) size h = absurd (omega (arith, pow-suc 2 j, pow_pos j))
full_run c zero a sn rest (left p two k lt up e f) size h = absurd (omega arith)
full_run c {r} {m} (suc j) a sn rest (left {k = k'} {q = q'} {t = t'} p two k lt up e f) size h =
    let ek = full_half _ j k' size k in
    let g : m + 2 ^ suc j * a ≡ m + 2 ^ j * (2 * a) = omega (arith, pow_suc_mul j a) in
    rw (e, f, g, append_assoc q' (p ∷ []) rest)
      (full_run c j (2 * a) sn (p ∷ rest) up ek (omega arith)
        ∙ step_left c p rest a (shr j sn) t' (omega arith))
full_run c zero a sn rest (right p two k em en up e f) size h = absurd (omega arith)
full_run c {r} {m} (suc j) a sn rest
      (right {m' = m'} {k = k'} {q = q'} {t = t'} p two k em en up e f) size h =
    let ek = full_half _ j k' size k in
    let g : m + 2 ^ suc j * a ≡ m' + 2 ^ j * (2 * a + 1) =
      omega (arith, pow_suc_mul j a, mul_suc_pow j a) in
    rw (e, f, g, append_assoc q' (p ∷ []) rest)
      (full_run c j (2 * a + 1) sn (p ∷ rest) up (omega (arith, pow-suc 2 j)) (omega arith)
        ∙ step_right c p rest a (shr j sn) t' (omega arith))
