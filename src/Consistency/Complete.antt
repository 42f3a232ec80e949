-- ===== src/Consistency/Complete.antt =====
-- src/verifier/transparency.go: `VerifyConsistency` accepts what `ConsistencyProof` gives.
use open_opticon.Common.{
  ℕ, zero, suc, ◌-◌, ◌*◌, ◌/◌, ◌%◌, ◌≤◌, ◌<◌, ◌≡◌, ◌⊎◌, refl, sym, ap, subst, ◌∙◌, arith, inl, inr,
  true, false, ◌||◌, Bool-cases, some, List, [], ◌∷◌, ◌++◌, length, take, length-take, take_all,
  ltb, ◌==◌, if◌then◌else◌,
}
use open_opticon.Common.Bytes.{Bytes, bytes_eq_refl}
use open_opticon.Crypto.{Crypto}
use open_opticon.Merkle.{Digest, mth, subproof, consistency_proof}
use open_opticon.Consistency.{Walk, walk, walk_from_first, strip_odd, verify_consistency}
use open_opticon.Consistency.Nodes.{part, part-take, part_root}
use open_opticon.Consistency.Levels.{new_node, old_node, start-Level, Full, strip_odd-Full}
use open_opticon.Consistency.Sound.{mth-nil}
use open_opticon.Consistency.Ascent.{siblings, state, Verifies, Verifies-siblings}
use open_opticon.Consistency.Descent.{subproof_whole, segment, length-segment}
use open_opticon.Consistency.Unrolled.{is_prefix, proof_at, proof_up}

strip_odd_even : (fuel x y : ℕ) → x ≤ fuel → (strip_odd fuel x y).0 % 2 ≡ 0
unfolding strip_odd
strip_odd_even zero x y h = omega arith
strip_odd_even (suc fuel) x y h = elim (Bool-cases (x % 2 == 1)) [
  | inl o ↦ rw o (strip_odd_even fuel (x / 2) (y / 2) (ground arith))
  | inr e ↦ rw e (ground arith)
]

module _ (c : Crypto) (leaves : List Bytes) (m : ℕ) (lt : m < length leaves) where
  abbrev le : m ≤ length leaves
  le = is_prefix c leaves m lt

  proof_at-Full :
      (at : ℕ × ℕ) (f : Full c leaves m le at)
      → proof_at c leaves m lt f.width at.0
        ≡ (if at.0 == 0 then [] else part c leaves f.width (at.0 * f.width) ∷ [])
  proof_at-Full at f =
      let seg = segment c leaves f.width (at.0 * f.width) in
      let full = f.full in
      let n : length seg ≡ f.width =
        length-segment c leaves f.width (at.0 * f.width) ∙ omega (arith, full, lt) in
      let d : m - at.0 * f.width ≡ length seg = omega (arith, full, n) in
      rw d (subproof_whole c seg (at.0 == 0))

  -- The proof from where the loop starts.
  proof_from :
      (at : ℕ × ℕ) (f : Full c leaves m le at)
      → at.0 % 2 ≡ 0
      → subproof c m leaves true
        ≡ (if at.0 == 0 then [] else part c leaves f.width (at.0 * f.width) ∷ [])
          ++ siblings c leaves m le at.1 f.width at.0 at.1
  proof_from at f even =
      proof_up c leaves m lt at.1 f.width at.0 at.1 (omega arith) f.level
        (λ o. absurd (omega (arith, o, even)))
      ∙ ap (λ r. r ++ siblings c leaves m le at.1 f.width at.0 at.1) (proof_at-Full at f)

  same_node :
      (at : ℕ × ℕ) (f : Full c leaves m le at)
      → old_node c leaves m le f.width at.0 ≡ new_node c leaves m le f.width at.0
  same_node at f =
      part-take c leaves m f.width (at.0 * f.width) (let full = f.full in omega (arith, full))

  abbrev seed : ℕ × ℕ → Digest → Walk
  seed at r = record { fn = at.0; sn = at.1; fr = r; sr = r }

  -- Starting with a digest that is the node of both logs.
  accepts_seed :
      (at : ℕ × ℕ) (f : Full c leaves m le at) (r : Digest)
      → new_node c leaves m le f.width at.0 ≡ r
      → Verifies c leaves m le (siblings c leaves m le at.1 f.width at.0 at.1) (seed at r)
  accepts_seed at f r e =
      let o : old_node c leaves m le f.width at.0 ≡ r = same_node at f ∙ e in
      let new : Digest = new_node c leaves m le f.width at.0 in
      let same : state c leaves m le f.width at.0 at.1 ≡ seed at r =
        ap (λ (x : Digest). record { fn = at.0; sn = at.1; fr = x; sr = new }) o
        ∙ ap (λ (x : Digest). record { fn = at.0; sn = at.1; fr = r; sr = x }) e in
      let fuel : at.1 ≤ at.1 = omega arith in
      subst (Verifies c leaves m le (siblings c leaves m le at.1 f.width at.0 at.1)) same
        (Verifies-siblings c leaves m le at.1 f.width at.0 at.1 fuel f.level)

  -- Where the old log is one full subtree, its node is the old root.
  old_is_root :
      (at : ℕ × ℕ) (f : Full c leaves m le at)
      → at.0 ≡ 0
      → new_node c leaves m le f.width at.0 ≡ mth c (take m leaves)
  old_is_root at f z =
      let full = f.full in
      let e : at.0 * f.width ≡ 0 = rw z (omega arith) in
      sym (same_node at f)
      ∙ part_root c (take m leaves) f.width at.0 z (omega (arith, length-take m leaves, full, e))

  abbrev start_at : ℕ × ℕ
  start_at = strip_odd (m - 1) (m - 1) (length leaves - 1)

  accepts_subproof :
      1 ≤ m
      → (if start_at.0 == 0
          then walk c
              (subproof c m leaves true)
              (seed start_at (mth c (take m leaves)))
              (mth c (take m leaves))
              (mth c leaves)
          else walk_from_first c
              (subproof c m leaves true)
              start_at
              (mth c (take m leaves))
              (mth c leaves))
        ≡ true
  unfolding walk_from_first
  accepts_subproof pos =
      let f =
        strip_odd-Full c leaves m le (m - 1) 1 (m - 1) (length leaves - 1)
          (start-Level c leaves m le pos) (omega arith) in
      let from =
        proof_from start_at f (strip_odd_even (m - 1) (m - 1) (length leaves - 1) (omega arith)) in
      elim (Bool-cases (start_at.0 == 0)) [
        | inl z ↦
            let from' : subproof c m leaves true
                ≡ siblings c leaves m le start_at.1 f.width start_at.0 start_at.1 =
              rw z at from in
            rw (z, from')
              (accepts_seed start_at f (mth c (take m leaves))
                (old_is_root start_at f (ground arith)))
        | inr n ↦
            let q : Digest = part c leaves f.width (start_at.0 * f.width) in
            let from' : subproof c m leaves true
                ≡ q ∷ siblings c leaves m le start_at.1 f.width start_at.0 start_at.1 =
              rw n at from in
            rw (n, from') (accepts_seed start_at f q refl)
      ]

  accepts_proof :
      1 ≤ m
      → verify_consistency c m
          (length leaves)
          (subproof c m leaves true)
          (mth c (take m leaves))
          (mth c leaves)
        ≡ true
  unfolding verify_consistency
  accepts_proof pos =
      let a : (length leaves == 0 || ltb (length leaves) m) ≡ false = ground arith in
      let b : (m == length leaves) ≡ false = ground arith in
      let d : (m == 0) ≡ false = ground arith in rw (a, b, d) (accepts_subproof pos)

-- The empty proof is accepted for the whole log and for the empty one.
accepts_edge :
    (c : Crypto) (leaves : List Bytes) (m : ℕ)
    → 1 ≤ length leaves
    → (m ≡ 0) ⊎ (m ≡ length leaves)
    → verify_consistency c m (length leaves) [] (mth c (take m leaves)) (mth c leaves) ≡ true
unfolding verify_consistency
accepts_edge c leaves m pos (inr e) =
    let a : (length leaves == 0 || ltb (length leaves) m) ≡ false = ground arith in
    let b : (m == length leaves) ≡ true = ground arith in
    let w = take_all m leaves (omega arith) in rw (a, b, w) (bytes_eq_refl (mth c leaves))
accepts_edge c leaves m pos (inl e) =
    let a : (length leaves == 0 || ltb (length leaves) m) ≡ false = ground arith in
    let b : (m == length leaves) ≡ false = ground arith in
    let d : (m == 0) ≡ true = ground arith in
    let w : take m leaves ≡ [] = rw e refl in rw (a, b, d, w, mth-nil c) (bytes_eq_refl (mth c []))

-- Every consistency proof that `ConsistencyProof` gives for a log that is not empty is accepted
-- between the root of its prefix and its own.
pub verify_consistency-consistency_proof :
    (c : Crypto) (leaves : List Bytes) (old_size : ℕ) (proof : List Digest)
    → 1 ≤ length leaves
    → consistency_proof c leaves old_size ≡ some proof
    → verify_consistency c old_size
        (length leaves)
        proof
        (mth c (take old_size leaves))
        (mth c leaves)
      ≡ true
unfolding consistency_proof
verify_consistency-consistency_proof c leaves m proof pos h =
    elim (Bool-cases (ltb (length leaves) m)) [
      | inl big ↦ let h' = rw big at h in cc
      | inr ok ↦
          let h' = rw ok at h in
          elim (Bool-cases (m == 0 || m == length leaves)) [
            | inl edge ↦
                let h2 : some [] ≡ some proof = rw edge at h' in
                let e : [] ≡ proof = ground arith in
                rw (← e) (accepts_edge c leaves m pos (ground arith))
            | inr inner ↦
                let h2 : some (subproof c m leaves true) ≡ some proof = rw inner at h' in
                let e : subproof c m leaves true ≡ proof = ground arith in
                rw (← e) (accepts_proof c leaves m (ground arith) (ground arith))
          ]
    ]
