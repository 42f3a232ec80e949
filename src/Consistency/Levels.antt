-- ===== src/Consistency/Levels.antt =====
-- src/verifier/transparency.go: how the loops of `VerifyConsistency` go up the levels of the tree.
use open_opticon.Common.{
  ℕ, zero, suc, ◌+◌, ◌-◌, ◌*◌, ◌/◌, ◌%◌, ◌≤◌, ◌<◌, ◌≡◌, ◌≢◌, ◌⊎◌, refl, ap, ◌∙◌, arith, inl, inr,
  false, Bool-cases, dec_lt, List, length, take, length-take, ◌==◌,
}
use open_opticon.Common.Bytes.{Bytes}
use open_opticon.Crypto.{Crypto}
use open_opticon.Merkle.{Digest, hash_node, strip}
use open_opticon.Consistency.{strip_odd}
use open_opticon.Consistency.Nodes.{
  IsPow2, IsPow2-double, mul_odd, mul_even, mul_le, part, part-double, part-alone, part-take,
}

-- On the level of width `p`, the nodes `fn` and `sn` are the last ones of logs of `m` and `n` entries.
pub record AtLevel (m n p fn sn : ℕ) : Type 0 where
  pub width : IsPow2 p
  pub old_from : fn * p < m
  pub old_to : m ≤ fn * p + p
  pub new_from : sn * p < n
  pub new_to : n ≤ sn * p + p

half_bounds : (x p : ℕ) → ((x / 2) * (p + p) ≤ x * p) × (x * p + p ≤ (x / 2) * (p + p) + (p + p))
half_bounds x p = elim (Bool-cases (x % 2 == 1)) [
  | inl o ↦ let e = mul_odd x p (ground arith) in omega (arith, e)
  | inr v ↦ let e = mul_even x p (ground arith) in omega (arith, e)
]

pub AtLevel-up : {m n p fn sn : ℕ} → AtLevel m n p fn sn → AtLevel m n (p + p) (fn / 2) (sn / 2)
AtLevel-up {p} {fn} {sn} a =
    let f = half_bounds fn p in
    let s = half_bounds sn p in
    record {
      width = IsPow2-double a.width;
      old_from = omega (arith, f, a.old_from);
      old_to = omega (arith, f, a.old_to);
      new_from = omega (arith, s, a.new_from);
      new_to = omega (arith, s, a.new_to);
    }

module _ (c : Crypto) (leaves : List Bytes) (m : ℕ) (le : m ≤ length leaves) where
  abbrev pub new_node : ℕ → ℕ → Digest
  new_node p i = part c leaves p (i * p)

  abbrev pub old_node : ℕ → ℕ → Digest
  old_node p i = part c (take m leaves) p (i * p)

  abbrev pub Level : ℕ → ℕ → ℕ → Type 0
  Level p fn sn = AtLevel m (length leaves) p fn sn

  old_length : length (take m leaves) ≡ m
  old_length = omega (arith, length-take m leaves)

  -- The left sibling of a node with an odd index.
  abbrev pub sibling : ℕ → ℕ → Digest
  sibling p fn = part c leaves p ((fn / 2) * (p + p))

  pub new_odd :
      (p fn sn : ℕ)
      → Level p fn sn
      → fn % 2 ≡ 1
      → new_node (p + p) (fn / 2) ≡ hash_node c (sibling p fn) (new_node p fn)
  new_odd p fn sn a o =
      let e = mul_odd fn p o in
      part-double c leaves ((fn / 2) * (p + p)) a.width (omega (arith, e, a.old_from))
      ∙ rw (← e) refl

  pub old_odd :
      (p fn sn : ℕ)
      → Level p fn sn
      → fn % 2 ≡ 1
      → old_node (p + p) (fn / 2) ≡ hash_node c (sibling p fn) (old_node p fn)
  old_odd p fn sn a o =
      let e = mul_odd fn p o in
      part-double c (take m leaves) ((fn / 2) * (p + p)) a.width
        (omega (arith, e, a.old_from, old_length))
      ∙ rw (← e, part-take c leaves m p ((fn / 2) * (p + p)) (omega (arith, e, a.old_from))) refl

  pub old_even :
      (p fn sn : ℕ) → Level p fn sn → fn % 2 ≡ 0 → old_node (p + p) (fn / 2) ≡ old_node p fn
  old_even p fn sn a v =
      let e = mul_even fn p v in
      rw (← e) (part-alone c (take m leaves) p (fn * p) (omega (arith, a.old_to, old_length)))

  -- A node that is not the last one of the new log has a right sibling.
  pub right_sibling : (p fn sn : ℕ) → Level p fn sn → fn ≢ sn → fn * p + p < length leaves
  right_sibling p fn sn a ne = elim (dec_lt fn sn) [
    | yes lt ↦
        let e : (fn + 1) * p ≡ fn * p + p = omega arith in
        omega (arith, mul_le (fn + 1) sn p (omega arith), e, a.new_from)
    | no ge ↦
        let e : (sn + 1) * p ≡ sn * p + p = omega arith in
        absurd (omega (arith, mul_le (sn + 1) fn p (omega arith), e, a.old_from, a.new_to, le))
  ]

  pub new_even :
      (p fn sn : ℕ)
      → Level p fn sn
      → fn % 2 ≡ 0
      → fn ≢ sn
      → new_node (p + p) (fn / 2) ≡ hash_node c (new_node p fn) (part c leaves p (fn * p + p))
  new_even p fn sn a v ne =
      let e = mul_even fn p v in
      rw (← e) (part-double c leaves (fn * p) a.width (right_sibling p fn sn a ne))

  -- The leaves themselves.
  pub start-Level : 1 ≤ m → Level 1 (m - 1) (length leaves - 1)
  start-Level h = record {
    width = record { j = 0; power = refl };
    old_from = omega arith;
    old_to = omega arith;
    new_from = omega (arith, le);
    new_to = omega arith;
  }

  -- What `strip` leaves: the same nodes on a level where the index is odd.
  pub record Stripped (p fn : ℕ) (at : ℕ × ℕ) : Type 0 where
    pub width : ℕ
    pub level : Level width at.0 at.1
    pub odd : at.0 % 2 ≡ 1
    pub old : old_node width at.0 ≡ old_node p fn
    pub new : new_node width at.0 ≡ new_node p fn

  pub strip-Stripped :
      (fuel p fn sn : ℕ)
      → fn ≤ fuel
      → Level p fn sn
      → fn ≢ 0
      → (fn % 2 ≡ 1) ⊎ (fn ≡ sn)
      → Stripped p fn (strip fuel fn sn)
  unfolding strip
  strip-Stripped zero p fn sn f a nz why = absurd (omega arith)
  strip-Stripped (suc fuel) p fn sn f a nz why = elim (Bool-cases (fn % 2 == 0)) [
    | inr o ↦ rw o (record { width = p; level = a; odd = ground arith; old = refl; new = refl })
    | inl v ↦
        let same : fn ≡ sn = elim why [ inl o ↦ ground arith | inr e ↦ e ] in
        let even : fn % 2 ≡ 0 = ground arith in
        let test : (fn == 0) ≡ false = ground arith in
        let e = mul_even fn p even in
        let up =
          strip-Stripped fuel (p + p) (fn / 2) (sn / 2) (omega arith) (AtLevel-up a) (omega arith)
            (inr (ap (λ k. k / 2) same)) in
        let alone = part-alone c leaves p (fn * p) (rw (same) a.new_to) in
        rw (v, test)
          (record {
            width = up.width;
            level = up.level;
            odd = up.odd;
            old = up.old ∙ old_even p fn sn a even;
            new = up.new ∙ rw (← e) alone;
          })
  ]

  -- After the loop over the odd indices, the last node of the old log is full.
  pub record Full (at : ℕ × ℕ) : Type 0 where
    pub width : ℕ
    pub level : Level width at.0 at.1
    pub full : m ≡ at.0 * width + width

  pub strip_odd-Full :
      (fuel p fn sn : ℕ) → Level p fn sn → m ≡ fn * p + p → Full (strip_odd fuel fn sn)
  unfolding strip_odd
  strip_odd-Full zero p fn sn a full = record { width = p; level = a; full = full }
  strip_odd-Full (suc fuel) p fn sn a full = elim (Bool-cases (fn % 2 == 1)) [
    | inr e ↦ rw e (record { width = p; level = a; full = full })
    | inl o ↦
        let h = mul_odd fn p (ground arith) in
        rw o (strip_odd-Full fuel (p + p) (fn / 2) (sn / 2) (AtLevel-up a) (omega (arith, h, full)))
  ]
