-- ===== src/Consistency/Unrolled.antt =====
-- src/verifier/transparency.go: `subproof` level by level: the proof for the last node of the old log,
-- and the siblings above it.
use open_opticon.Common.{
  ℕ, zero, suc, ◌+◌, ◌-◌, ◌*◌, ◌/◌, ◌%◌, ◌≤◌, ◌<◌, ◌≡◌, ◌≢◌, refl, sym, ap, ◌∙◌, arith, inl, inr,
  true, false, Bool-cases, List, [], ◌∷◌, ◌++◌, append-nil, append_assoc, length, drop, length-drop,
  take_all, ◌==◌,
}
use open_opticon.Common.Bytes.{Bytes}
use open_opticon.Crypto.{Crypto}
use open_opticon.Merkle.{Digest, subproof}
use open_opticon.Consistency.Nodes.{IsPow2-pos, mul_odd, mul_even, part}
use open_opticon.Consistency.Levels.{AtLevel-up, Level, sibling, right_sibling}
use open_opticon.Consistency.Sound.{first_index}
use open_opticon.Consistency.Ascent.{siblings}
use open_opticon.Consistency.Descent.{segment, subproof_to_left, subproof_to_right}

half_zero : (x : ℕ) → x % 2 ≡ 0 → (x / 2 == 0) ≡ (x == 0)
half_zero x h = elim (Bool-cases (x == 0)) [
  | inl z ↦ (let t : (x / 2 == 0) ≡ true = ground arith in t ∙ sym z)
  | inr n ↦ (let t : (x / 2 == 0) ≡ false = ground arith in t ∙ sym n)
]

module _ (c : Crypto) (leaves : List Bytes) (m : ℕ) (lt : m < length leaves) where
  pub is_prefix : m ≤ length leaves
  is_prefix = omega (arith, lt)

  -- The proof for the last node of the old log on a level.
  abbrev pub proof_at : ℕ → ℕ → List Digest
  proof_at p fn = subproof c (m - fn * p) (segment c leaves p (fn * p)) (fn == 0)

  proof_at_odd :
      (p fn sn : ℕ)
      → Level c leaves m is_prefix p fn sn
      → fn % 2 ≡ 1
      → m < fn * p + p
      → proof_at (p + p) (fn / 2) ≡ proof_at p fn ++ sibling c leaves m is_prefix p fn ∷ []
  proof_at_odd p fn sn a o strict =
      let e = mul_odd fn p o in
      let from = a.old_from in
      let t : (fn == 0) ≡ false = ground arith in
      let d : m - (fn / 2) * (p + p) - p ≡ m - fn * p = omega (arith, e) in
      subproof_to_right c leaves ((fn / 2) * (p + p)) (m - (fn / 2) * (p + p)) (fn / 2 == 0) a.width
        (omega (arith, e, from)) (omega (arith, e, from)) (omega (arith, e, from))
      ∙ rw (d, ← e, t) refl

  proof_at_even :
      (p fn sn : ℕ)
      → Level c leaves m is_prefix p fn sn
      → fn % 2 ≡ 0
      → fn ≢ sn
      → proof_at (p + p) (fn / 2) ≡ proof_at p fn ++ part c leaves p (fn * p + p) ∷ []
  proof_at_even p fn sn a v ne =
      let e = mul_even fn p v in
      let from = a.old_from in
      let to = a.old_to in
      rw (← e, half_zero fn v)
        (subproof_to_left c leaves (fn * p) (m - fn * p) (fn == 0) a.width
          (right_sibling c leaves m is_prefix p fn sn a ne) (omega (arith, from))
          (omega (arith, to)))

  proof_at_alone :
      (p fn sn : ℕ)
      → Level c leaves m is_prefix p fn sn
      → fn % 2 ≡ 0
      → fn ≡ sn
      → proof_at (p + p) (fn / 2) ≡ proof_at p fn
  proof_at_alone p fn sn a v same =
      let e = mul_even fn p v in
      let to : length leaves ≤ fn * p + p = rw same a.new_to in
      let n = length-drop (fn * p) leaves in
      rw (← e, half_zero fn v)
        (ap (λ s. subproof c (m - fn * p) s (fn == 0))
          (take_all (p + p) (drop (fn * p) leaves) (omega (arith, n, to))
            ∙ sym (take_all p (drop (fn * p) leaves) (omega (arith, n, to)))))

  proof_top :
      (p fn sn : ℕ)
      → Level c leaves m is_prefix p fn sn
      → sn ≡ 0
      → subproof c m leaves true ≡ proof_at p fn ++ []
  proof_top p fn sn a z =
      let e : sn * p ≡ 0 = rw z (omega arith) in
      let small : length leaves ≤ p = omega (arith, a.new_to, e) in
      let first : fn ≡ 0 = first_index fn p m a.old_from (omega (arith, small, is_prefix)) in
      let f : fn * p ≡ 0 = rw first (omega arith) in
      let d : m - 0 ≡ m = omega arith in
      let t : (fn == 0) ≡ true = ground arith in
      rw (append-nil (proof_at p fn), f, d, t, take_all p leaves small) refl

  -- The proof is that for the last node on a level, and the siblings above.
  pub proof_up :
      (fuel p fn sn : ℕ)
      → sn ≤ fuel
      → Level c leaves m is_prefix p fn sn
      → (fn % 2 ≡ 1 → m < fn * p + p)
      → subproof c m leaves true ≡ proof_at p fn ++ siblings c leaves m is_prefix fuel p fn sn
  unfolding siblings
  proof_up zero p fn sn f a strict = proof_top p fn sn a (omega arith)
  proof_up (suc fuel) p fn sn f a strict = elim (Bool-cases (sn == 0)) [
    | inl z ↦ rw z (proof_top p fn sn a (ground arith))
    | inr nz ↦
        let above = siblings c leaves m is_prefix fuel (p + p) (fn / 2) (sn / 2) in
        let to = a.old_to in
        let pos = IsPow2-pos a.width in
        elim (Bool-cases (fn % 2 == 1)) [
          | inl o ↦
              let odd : fn % 2 ≡ 1 = ground arith in
              let e = mul_odd fn p odd in
              let ih =
                proof_up fuel (p + p) (fn / 2) (sn / 2) (ground arith) (AtLevel-up a)
                  (λ h. omega (arith, e, strict odd)) in
              rw (nz, o)
                (ih
                  ∙ ap (λ r. r ++ above) (proof_at_odd p fn sn a odd (strict odd))
                  ∙ append_assoc (proof_at p fn) (sibling c leaves m is_prefix p fn ∷ []) above)
          | inr v ↦
              let even : fn % 2 ≡ 0 = ground arith in
              let e = mul_even fn p even in
              let ih =
                proof_up fuel (p + p) (fn / 2) (sn / 2) (ground arith) (AtLevel-up a)
                  (λ h. omega (arith, e, to, pos)) in
              elim (Bool-cases (fn == sn)) [
                | inl s ↦
                    rw (nz, v, s)
                      (ih ∙ ap (λ r. r ++ above) (proof_at_alone p fn sn a even (ground arith)))
                | inr d ↦
                    rw (nz, v, d)
                      (ih
                        ∙ ap (λ r. r ++ above) (proof_at_even p fn sn a even (ground arith))
                        ∙ append_assoc (proof_at p fn) (part c leaves p (fn * p + p) ∷ []) above)
              ]
        ]
  ]
