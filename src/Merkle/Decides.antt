-- ===== src/Merkle/Decides.antt =====
-- src/verifier/transparency.go: `VerifyInclusion` decides the recursive description of inclusion.
use open_opticon.Common.{
  ℕ, zero, suc, ◌-◌, ◌≤◌, ◌<◌, ◌%◌, ◌≡◌, ◌↔◌, refl, ap, ◌∙◌, subst, arith, true, false, some, none,
  Option, Bool-cases, inl, inr, leb, ◌==◌, ◌||◌, List, [], ◌∷◌, ◌++◌, length, replicate, get_elem?,
  length-append, length-replicate, if◌then◌else◌,
}
use open_opticon.Common.Bytes.{Bytes, bytes_eq_iff}
use open_opticon.Crypto.{Crypto}
use open_opticon.Merkle.{
  Digest, hash_leaf, hash_node, mth, path, Climb, climb, climb_step, reaches, verify_inclusion,
}
use open_opticon.Merkle.Climbs.{Climbs, leaf, left, right}
use open_opticon.Merkle.Run.{at}
use open_opticon.Merkle.Edge.{climb-Climbs}
use open_opticon.Merkle.Paths.{path-Climbs}

record Last (k : ℕ) (xs : List Digest) : Type 0 where
  front : List Digest
  last : Digest
  count : length front ≡ k
  split : xs ≡ front ++ last ∷ []

Last-of : (k : ℕ) (xs : List Digest) → length xs ≡ suc k → Last k xs
Last-of k [] h = absurd (omega arith)
Last-of zero (x ∷ []) h = record { front = []; last = x; count = refl; split = refl }
Last-of zero (x ∷ y ∷ xs) h = absurd (omega arith)
Last-of (suc k) (x ∷ xs) h =
    let r = Last-of k xs (omega arith) in
    record {
      front = x ∷ r.front;
      last = r.last;
      count = omega (arith, r.count);
      split = ap (λ (t : List Digest). x ∷ t) r.split;
    }

module _ (c : Crypto) where
  -- The way up depends on the shape alone: other digests lead to another root.
  relabel :
      {r root : Digest} {m n : ℕ} {proof : List Digest} (r' : Digest) (proof' : List Digest)
      → Climbs c r m n proof root
      → length proof' ≡ length proof
      → (root' : Digest) × Climbs c r' m n proof' root'
  relabel r' [] (leaf e f) h = (r', leaf e f)
  relabel r' (x ∷ xs) (leaf e f) h = absurd (omega arith)
  relabel r' proof' (left {q = q} p two k lt up e f) h =
      let z =
        Last-of (length q) proof' (h ∙ ap length e ∙ omega (arith, length-append q (p ∷ []))) in
      let (t, ih) = relabel r' z.front up z.count in
      (hash_node c t z.last, left z.last two k lt ih z.split refl)
  relabel r' proof' (right {q = q} p two k em en up e f) h =
      let z =
        Last-of (length q) proof' (h ∙ ap length e ∙ omega (arith, length-append q (p ∷ []))) in
      let (t, ih) = relabel r' z.front up z.count in
      (hash_node c z.last t, right z.last two k em en ih z.split refl)

  step_same_shape :
      (p p' : Digest) (s s' : Climb)
      → s.fn ≡ s'.fn
      → s.sn ≡ s'.sn
      → ((climb_step c p s).fn ≡ (climb_step c p' s').fn)
        × ((climb_step c p s).sn ≡ (climb_step c p' s').sn)
  unfolding climb_step
  step_same_shape p p' s s' e f =
      rw (e, f)
        (elim (Bool-cases (s'.fn % 2 == 1 || s'.fn == s'.sn)) [
          | inl t ↦ rw t (refl, refl)
          | inr t ↦ rw t (refl, refl)
        ])

  -- A proof that ends the loop at 0 is as long as any other that the loop gets through.
  longest :
      (xs ys : List Digest) (s s' : Climb) {z w : Climb}
      → s.fn ≡ s'.fn
      → s.sn ≡ s'.sn
      → climb c xs s ≡ some z
      → z.sn ≡ 0
      → climb c ys s' ≡ some w
      → length ys ≤ length xs
  unfolding climb
  longest xs [] s s' e f h z g = omega arith
  longest [] (y ∷ ys) s s' e f h z g =
      let o : s'.sn ≡ 0 = ground arith in
      let t : (s'.sn == 0) ≡ true = ground arith in let g' = rw t at g in cc
  longest (x ∷ xs) (y ∷ ys) s s' e f h z g =
      let (a, b) = step_same_shape x y s s' e f in
      elim (Bool-cases (s.sn == 0)) [
        | inl t ↦ let h' = rw t at h in cc
        | inr t ↦
            let h' = rw t at h in
            let t' : (s'.sn == 0) ≡ false = rw f at t in
            let g' = rw t' at g in
            omega (arith, longest xs ys (climb_step c x s) (climb_step c y s') a b h' z g')
      ]

  -- A tree of `n` empty entries gives a proof of the right length.
  blank_leaf : (n m : ℕ) → m < n → get_elem? (replicate n (let e : Bytes = [] in e)) m ≡ some []
  blank_leaf zero m h = absurd (omega arith)
  blank_leaf (suc n) zero h = refl
  blank_leaf (suc n) (suc m) h = blank_leaf n m (omega arith)

  record Model (m n : ℕ) : Type 0 where
    r : Digest
    root : Digest
    proof : List Digest
    up : Climbs c r m n proof root

  model : (m n : ℕ) → m < n → Model m n
  model m n h =
      let l = replicate n (let e : Bytes = [] in e) in
      record {
        r = hash_leaf c [];
        root = mth c l;
        proof = path c m l;
        up =
            subst (λ k. Climbs c (hash_leaf c []) m k (path c m l) (mth c l))
              (length-replicate n []) (path-Climbs c m l [] (blank_leaf n m h));
      }

  climb→Climbs :
      (m n : ℕ) (r root : Digest) (proof : List Digest) (z : Climb)
      → m < n
      → climb c proof (at m (n - 1) r) ≡ some z
      → z.sn ≡ 0
      → z.r ≡ root
      → Climbs c r m n proof root
  climb→Climbs m n r root proof z lt ran zero_sn same =
      let d = model m n lt in
      let dran = climb-Climbs c d.up in
      let a =
        longest proof d.proof (at m (n - 1) r) (at m (n - 1) d.r) refl refl ran zero_sn dran in
      let b = longest d.proof proof (at m (n - 1) d.r) (at m (n - 1) r) refl refl dran refl ran in
      let (t, up) = relabel r proof d.up (omega (arith, a, b)) in
      let e : t ≡ root = ground (arith, climb-Climbs c up, ran, same) in
      subst (λ x. Climbs c r m n proof x) e up

  -- `VerifyInclusion` accepts exactly the proofs that lead from the entry's leaf to the root, by
  -- recursion on the tree, at an index below the size.
  pub verify_inclusion_iff :
      (entry : Bytes) (index size : ℕ) (proof : List Digest) (root : Digest)
      → (verify_inclusion c entry index size proof root ≡ true)
        ↔ ((index < size) × Climbs c (hash_leaf c entry) index size proof root)
  unfolding verify_inclusion
  verify_inclusion_iff entry index size proof root = (forth, back)
    where
      start : Climb
      start = at index (size - 1) (hash_leaf c entry)

      reached : (z : Climb) → reaches (some z) root ≡ true → (z.sn ≡ 0) × (z.r ≡ root)
      reached z h = ground (arith, bytes_eq_iff z.r root)

      found :
          (o : Option Climb)
          → reaches o root ≡ true
          → (z : Climb) × (o ≡ some z) × (z.sn ≡ 0) × (z.r ≡ root)
      found none h = cc
      found (some z) h = let (a, b) = reached z h in (z, refl, a, b)

      forth :
          (if leb size index then false else reaches (climb c proof start) root) ≡ true
          → (index < size) × Climbs c (hash_leaf c entry) index size proof root
      forth h = elim (Bool-cases (leb size index)) [
        | inl t ↦ let h' = rw t at h in cc
        | inr t ↦
            let h' = rw t at h in
            let (z, ran, a, b) = found (climb c proof start) h' in
            let lt : index < size = ground arith in
            (lt, climb→Climbs index size (hash_leaf c entry) root proof z lt ran a b)
      ]

      back :
          (index < size) × Climbs c (hash_leaf c entry) index size proof root
          → (if leb size index then false else reaches (climb c proof start) root) ≡ true
      back (lt, up) =
          let t : leb size index ≡ false = ground arith in
          rw (t, climb-Climbs c up) ((bytes_eq_iff root root).1 refl)
