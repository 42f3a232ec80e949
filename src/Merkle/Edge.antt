-- ===== src/Merkle/Edge.antt =====
-- src/verifier/transparency.go: the loop of `VerifyInclusion` along the right edge of the tree.
use open_opticon.Common.{
  ℕ, zero, suc, ◌+◌, ◌-◌, ◌*◌, ◌/◌, ◌%◌, ◌^◌, ◌≤◌, ◌<◌, ◌≡◌, refl, sym, ap, ◌∙◌, subst, arith, true,
  false, some, Option, ◌==◌, ◌||◌, List, [], ◌∷◌, ◌++◌, append_assoc, append-nil,
}
use native.Mathlib.Nat.{pow-suc}
use open_opticon.Crypto.{Crypto}
use open_opticon.Merkle.{Digest, hash_node, largest_pow2_below, Climb, climb_step, climb, strip}
use open_opticon.Merkle.Pow.{
  IsSplit, largest_pow2_below-IsSplit, shr, pow_suc_mul, shr-add, shr-lt, shr-le, pow-add,
  pow-lt_cancel, lt-pow,
}
use open_opticon.Merkle.Climbs.{Climbs, leaf, left, right}
use open_opticon.Merkle.Run.{at, step_left, strip_odd, full_run}

strip_double : (fuel y : ℕ) → 0 < y → strip (suc fuel) (2 * y) (2 * y) ≡ strip fuel y y
unfolding strip
strip_double fuel y h =
    let e : 2 * y / 2 ≡ y = omega arith in
    let f : (2 * y) % 2 ≡ 0 = omega arith in
    let z : (2 * y == 0) ≡ false = ground arith in rw (f, z, e)

lt-pow_mul : (u b : ℕ) → u < 2 ^ u * (2 * b + 1)
lt-pow_mul u b = omega (arith, lt-pow u)

-- The zero bits below an odd number are shifted out.
strip_pow :
    (fuel u b : ℕ)
    → u ≤ fuel
    → strip fuel (2 ^ u * (2 * b + 1)) (2 ^ u * (2 * b + 1)) ≡ (2 * b + 1, 2 * b + 1)
strip_pow fuel zero b h =
    let e : 2 ^ 0 * (2 * b + 1) ≡ 2 * b + 1 = omega arith in rw e (strip_odd fuel b (2 * b + 1))
strip_pow zero (suc u) b h = absurd (omega arith)
strip_pow (suc fuel) (suc u) b h =
    let e : 2 ^ suc u * (2 * b + 1) ≡ 2 * (2 ^ u * (2 * b + 1)) =
      omega (arith, pow_suc_mul u (2 * b + 1)) in
    rw e (
      strip_double fuel (2 ^ u * (2 * b + 1)) (omega (arith, lt-pow_mul u b))
      ∙ strip_pow fuel u b (omega arith))

step_same :
    (c : Crypto) (p : Digest) (proof : List Digest) (x b : ℕ) (r : Digest)
    → 0 < x
    → strip x x x ≡ (2 * b + 1, 2 * b + 1)
    → climb c (p ∷ proof) (at x x r) ≡ climb c proof (at b b (hash_node c p r))
unfolding climb climb_step
step_same c p proof x b r h s =
    let z : (x == 0) ≡ false = ground arith in
    let t : (x % 2 == 1 || x == x) ≡ true = ground arith in
    let e : (2 * b + 1) / 2 ≡ b = omega arith in rw (z, t, s, e)

-- One round where the two numbers agree: the sibling is on the left.
step_edge :
    (c : Crypto) (p : Digest) (proof : List Digest) (u b : ℕ) (r : Digest)
    → climb c (p ∷ proof) (at (2 ^ u * (2 * b + 1)) (2 ^ u * (2 * b + 1)) r)
      ≡ climb c proof (at b b (hash_node c p r))
step_edge c p proof u b r =
    let low = lt-pow_mul u b in
    step_same c p proof (2 ^ u * (2 * b + 1)) b r (omega arith)
      (strip_pow (2 ^ u * (2 * b + 1)) u b (omega arith))

-- Where the walk along the right edge has come to: both numbers are `a` with zero bits below.
record IsEdge (c : Crypto) (rest : List Digest) (a : ℕ) (t : Digest) (s : Option Climb)
    : Type 0 where
  u : ℕ
  walked : s ≡ climb c rest (at (2 ^ u * a) (2 ^ u * a) t)

-- The exponents of a split inside a tree of at most 2 ^ i leaves.
record Exponents (n k i : ℕ) : Type 0 where
  j : ℕ
  d : ℕ
  power : k ≡ 2 ^ j
  sum : 2 ^ i ≡ 2 ^ j * (2 * 2 ^ d)
  below : k < n
  most : n ≤ 2 * k

exponents : (n k i : ℕ) → 2 ≤ n → n ≤ 2 ^ i → k ≡ largest_pow2_below n → Exponents n k i
exponents n k i two fits e =
    let s = subst (IsSplit n) (sym e) (largest_pow2_below-IsSplit n two) in
    let lt : s.j < i = pow-lt_cancel i s.j (omega (arith, s.power, s.below)) in
    let d = i - s.j - 1 in
    let ei : i ≡ s.j + suc d = omega arith in
    record {
      j = s.j;
      d = d;
      power = s.power;
      sum =
          ap (λ (x : ℕ). 2 ^ x) ei
          ∙ pow-add s.j (suc d)
          ∙ ap (λ (x : ℕ). 2 ^ s.j * x) (omega (arith, pow-suc 2 d));
      below = s.below;
      most = s.most;
    }

shifted : (j d i a : ℕ) → 2 ^ i ≡ 2 ^ j * (2 * 2 ^ d) → 2 ^ i * a ≡ 2 ^ j * (2 * (2 ^ d * a))
shifted j d i a e = omega (arith, ap (λ (x : ℕ). x * a) e)

top_bit : (j x : ℕ) → 2 ^ j ≤ x → x < 2 * 2 ^ j → shr j x ≡ 1
top_bit j x lo hi = omega (arith, shr-le j x 1 (omega arith), shr-lt j x 2 (omega arith))

IsEdge-run :
    (c : Crypto) {r t : Digest} {m n : ℕ} {q : List Digest} (i a : ℕ) (rest : List Digest)
    → Climbs c r m n q t
    → n ≤ 2 ^ i
    → IsEdge c rest a t (climb c (q ++ rest) (at (m + 2 ^ i * a) (n - 1 + 2 ^ i * a) r))
IsEdge-run c {m} {n} i a rest (leaf e f) fits =
    let g : m + 2 ^ i * a ≡ 2 ^ i * a = omega arith in
    let h : n - 1 + 2 ^ i * a ≡ 2 ^ i * a = omega arith in record { u = i; walked = rw (g, h) }
IsEdge-run c {r} {m} {n} i a rest (left {k = k'} {q = q'} {t = t'} p two k lt up e f) fits =
    let x = exponents n k' i two fits k in
    let b = 2 ^ x.d * a in
    let ea : 2 ^ i * a ≡ 2 ^ x.j * (2 * b) = shifted x.j x.d i a x.sum in
    let one =
      top_bit x.j (n - 1) (omega (arith, x.power, x.below)) (omega (arith, x.power, x.most)) in
    let es : shr x.j (n - 1 + 2 ^ x.j * (2 * b)) ≡ 1 + 2 * b =
      shr-add x.j (n - 1) (2 * b) ∙ ap (λ (y : ℕ). y + 2 * b) one in
    let half : (1 + 2 * b) / 2 ≡ b = omega arith in
    let run =
      full_run c x.j (2 * b) (n - 1 + 2 ^ x.j * (2 * b)) (p ∷ rest) up x.power
        (omega (arith, es)) in
    let run' = rw es at run in
    let up_one = rw half at (step_left c p rest b (1 + 2 * b) t' (omega arith)) in
    record { u = x.d; walked = rw (e, f, ea, append_assoc q' (p ∷ []) rest) (run' ∙ up_one) }
IsEdge-run c {r} {m} {n} i a rest
      (right {m' = m'} {n' = n'} {k = k'} {q = q'} {t = t'} p two k em en up e f) fits =
    let x = exponents n k' i two fits k in
    let b = 2 ^ x.d * a in
    let ea : 2 ^ i * a ≡ 2 ^ x.j * (2 * b) = shifted x.j x.d i a x.sum in
    let ef : m + 2 ^ i * a ≡ m' + 2 ^ x.j * (2 * b + 1) = omega (arith, x.power, em, ea) in
    let es : n - 1 + 2 ^ i * a ≡ n' - 1 + 2 ^ x.j * (2 * b + 1) =
      omega (arith, x.power, en, ea, x.below) in
    let ih = IsEdge-run c x.j (2 * b + 1) (p ∷ rest) up (omega (arith, x.power, en, x.most)) in
    record {
      u = x.d;
      walked =
          rw (e, f, ef, es, append_assoc q' (p ∷ []) rest)
            (ih.walked ∙ step_edge c p rest ih.u b t');
    }

-- From leaf `m` of `n`, the loop over a proof that leads to `root` ends with both numbers 0.
pub climb-Climbs :
    (c : Crypto) {r root : Digest} {m n : ℕ} {proof : List Digest}
    → Climbs c r m n proof root
    → climb c proof (at m (n - 1) r) ≡ some (at 0 0 root)
climb-Climbs c {r} {root} {m} {n} {proof} up =
    let e = IsEdge-run c n 0 [] up (omega (arith, lt-pow n)) in
    let z : m + 2 ^ n * 0 ≡ m = omega arith in
    let y : n - 1 + 2 ^ n * 0 ≡ n - 1 = omega arith in
    let w : 2 ^ e.u * 0 ≡ 0 = omega arith in
    let ran = rw (append-nil, z, y, w) at e.walked in ran ∙ unfold climb in refl
