-- ===== src/Consistency/Descent.antt =====
-- src/verifier/transparency.go: `subproof` lists the siblings that `VerifyConsistency` climbs along.
use open_opticon.Common.{
  ℕ, zero, suc, ◌+◌, ◌-◌, ◌≤◌, ◌<◌, min, ◌≡◌, refl, ap, ◌∙◌, arith, inl, inr, Bool, true, false,
  Bool-cases, List, [], ◌∷◌, ◌++◌, length, take, drop, length-take, length-drop, take-take,
  drop-take, drop-drop, leb, ◌==◌, if◌then◌else◌,
}
use open_opticon.Common.Bytes.{Bytes}
use open_opticon.Crypto.{Crypto}
use open_opticon.Merkle.{mth, subproof, subproof_fuel}
use open_opticon.Merkle.Paths.{split_of, split_lengths}
use open_opticon.Consistency.Nodes.{IsPow2, IsPow2-pos, split_width, part}

module _ (c : Crypto) where
  -- Any fuel that is at least the number of leaves gives the same proof.
  subproof_enough :
      (f g m : ℕ) (l : List Bytes) (b : Bool)
      → 1 ≤ m
      → m ≤ length l
      → length l ≤ f
      → length l ≤ g
      → subproof_fuel c f m l b ≡ subproof_fuel c g m l b
  unfolding subproof_fuel
  subproof_enough zero g m l b pos le p q = absurd (omega arith)
  subproof_enough (suc f) zero m l b pos le p q = absurd (omega arith)
  subproof_enough (suc f) (suc g) m l b pos le p q = elim (Bool-cases (m == length l)) [
    | inl whole ↦ rw whole refl
    | inr part ↦
        let n = split_lengths c l (ground arith) in
        elim (Bool-cases (leb m (split_of c l))) [
          | inl lo ↦
              rw (part, lo)
                (ap (λ r. r ++ mth c (drop (split_of c l) l) ∷ [])
                  (subproof_enough f g m (take (split_of c l) l) b pos (ground (arith, n))
                    (omega (arith, n)) (omega (arith, n))))
          | inr hi ↦
              rw (part, hi)
                (ap (λ r. r ++ mth c (take (split_of c l) l) ∷ [])
                  (subproof_enough f g (m - split_of c l) (drop (split_of c l) l) false
                    (ground (arith, n)) (omega (arith, n)) (omega (arith, n)) (omega (arith, n))))
        ]
  ]

  pub subproof_whole :
      (l : List Bytes) (b : Bool) → subproof c (length l) l b ≡ (if b then [] else mth c l ∷ [])
  unfolding subproof subproof_fuel
  subproof_whole [] b = refl
  subproof_whole (x ∷ l) b =
      let t : (suc (length l) == suc (length l)) ≡ true = ground arith in rw t refl

  subproof_left :
      (m : ℕ) (l : List Bytes) (b : Bool)
      → 1 ≤ m
      → m < length l
      → m ≤ split_of c l
      → subproof c m l b
        ≡ subproof c m (take (split_of c l) l) b ++ mth c (drop (split_of c l) l) ∷ []
  unfolding subproof subproof_fuel
  subproof_left m [] b pos lt le = absurd (omega arith)
  subproof_left m (x ∷ r) b pos lt le =
      let l : List Bytes = x ∷ r in
      let n = split_lengths c l (omega arith) in
      let d : (m == suc (length r)) ≡ false = ground arith in
      let lo : leb m (split_of c l) ≡ true = ground arith in
      rw (d, lo)
        (ap (λ q. q ++ mth c (drop (split_of c l) l) ∷ [])
          (subproof_enough (length r) (length (take (split_of c l) l)) m (take (split_of c l) l) b
            pos (omega (arith, n)) (omega (arith, n)) (omega arith)))

  subproof_right :
      (m : ℕ) (l : List Bytes) (b : Bool)
      → 1 ≤ m
      → m < length l
      → split_of c l < m
      → subproof c m l b
        ≡ subproof c (m - split_of c l) (drop (split_of c l) l) false
          ++ mth c (take (split_of c l) l) ∷ []
  unfolding subproof subproof_fuel
  subproof_right m [] b pos lt gt = absurd (omega arith)
  subproof_right m (x ∷ r) b pos lt gt =
      let l : List Bytes = x ∷ r in
      let n = split_lengths c l (omega arith) in
      let d : (m == suc (length r)) ≡ false = ground arith in
      let hi : leb m (split_of c l) ≡ false = ground arith in
      rw (d, hi)
        (ap (λ q. q ++ mth c (take (split_of c l) l) ∷ [])
          (subproof_enough (length r) (length (drop (split_of c l) l)) (m - split_of c l)
            (drop (split_of c l) l) false (omega (arith, n)) (omega (arith, n)) (omega (arith, n))
            (omega arith)))

module _ (c : Crypto) (leaves : List Bytes) where
  -- The leaves below a node.
  abbrev pub segment : ℕ → ℕ → List Bytes
  segment p a = take p (drop a leaves)

  pub length-segment : (p a : ℕ) → length (segment p a) ≡ min p (length leaves - a)
  length-segment p a = length-take p (drop a leaves) ∙ ap (min p) (length-drop a leaves)

  left_half : (p a : ℕ) → take p (segment (p + p) a) ≡ segment p a
  left_half p a = take-take p (p + p) (drop a leaves) (omega arith)

  right_half : (p a : ℕ) → drop p (segment (p + p) a) ≡ segment p (a + p)
  right_half p a =
      let q : p + p - p ≡ p = omega arith in
      drop-take p (p + p) (drop a leaves) ∙ rw q (ap (take p) (drop-drop p a leaves))

  -- The proof of a node of twice the width, for an old log that ends in its left half.
  pub subproof_to_left :
      {p : ℕ} (a m : ℕ) (b : Bool)
      → IsPow2 p
      → a + p < length leaves
      → 1 ≤ m
      → m ≤ p
      → subproof c m (segment (p + p) a) b
        ≡ subproof c m (segment p a) b ++ part c leaves p (a + p) ∷ []
  subproof_to_left {p} a m b h lt pos le =
      let l = length-segment (p + p) a in
      let w : split_of c (segment (p + p) a) ≡ p =
        split_width (length (segment (p + p) a)) h (omega (arith, IsPow2-pos h)) (omega arith) in
      subproof_left c m (segment (p + p) a) b pos (omega (arith, IsPow2-pos h)) (omega arith)
      ∙ rw (w, left_half p a, right_half p a) refl

  -- The same, for an old log that ends in its right half.
  pub subproof_to_right :
      {p : ℕ} (a m : ℕ) (b : Bool)
      → IsPow2 p
      → p < m
      → m < p + p
      → a + m < length leaves
      → subproof c m (segment (p + p) a) b
        ≡ subproof c (m - p) (segment p (a + p)) false ++ part c leaves p a ∷ []
  subproof_to_right {p} a m b h gt lt le =
      let l = length-segment (p + p) a in
      let w : split_of c (segment (p + p) a) ≡ p =
        split_width (length (segment (p + p) a)) h (omega arith) (omega arith) in
      subproof_right c m (segment (p + p) a) b (omega arith) (omega arith) (omega arith)
      ∙ rw (w, left_half p a, right_half p a) refl
