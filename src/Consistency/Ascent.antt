-- ===== src/Consistency/Ascent.antt =====
-- src/verifier/transparency.go: the loop of `VerifyConsistency` on the siblings of the last nodes of
-- the old log, level by level.
use open_opticon.Common.{
  ℕ, zero, suc, ◌+◌, ◌*◌, ◌/◌, ◌%◌, ◌≤◌, ◌≡◌, ◌≢◌, refl, arith, inl, inr, true, false, not, ◌&&◌,
  ◌||◌, Bool-cases, List, [], ◌∷◌, length, take, length-take, ◌==◌, if◌then◌else◌,
}
use open_opticon.Common.Bytes.{Bytes, bytes_eq_refl}
use open_opticon.Crypto.{Crypto}
use open_opticon.Merkle.{Digest, mth, strip}
use open_opticon.Consistency.{Walk, walk, walk_step}
use open_opticon.Consistency.Nodes.{part, part-alone, mul_even, part_root}
use open_opticon.Consistency.Sound.{first_index}
use open_opticon.Consistency.Levels.{
  AtLevel-up, Level, new_node, old_node, sibling, new_odd, old_odd, old_even, new_even,
}

strip_enough : (f g x y : ℕ) → x ≤ f → x ≤ g → strip f x y ≡ strip g x y
unfolding strip
strip_enough zero zero x y a b = refl
strip_enough zero (suc g) x y a b =
    let z : (x == 0) ≡ true = ground arith in
    let e : (x % 2 == 0) ≡ true = ground arith in rw (z, e) refl
strip_enough (suc f) zero x y a b =
    let z : (x == 0) ≡ true = ground arith in
    let e : (x % 2 == 0) ≡ true = ground arith in rw (z, e) refl
strip_enough (suc f) (suc g) x y a b = elim (Bool-cases (x % 2 == 0 && not (x == 0))) [
  | inr n ↦ rw n refl
  | inl t ↦ rw t (strip_enough f g (x / 2) (y / 2) (ground arith) (ground arith))
]

strip_of_odd : (fuel x y : ℕ) → x % 2 ≡ 1 → strip fuel x y ≡ (x, y)
unfolding strip
strip_of_odd zero x y h = refl
strip_of_odd (suc fuel) x y h = let e : (x % 2 == 0) ≡ false = ground arith in rw e refl

strip_of_even : (x y : ℕ) → x % 2 ≡ 0 → x ≢ 0 → strip x x y ≡ strip (x / 2) (x / 2) (y / 2)
unfolding strip
strip_of_even zero y h nz = absurd (nz refl)
strip_of_even (suc x) y h nz =
    let e : (suc x % 2 == 0) ≡ true = ground arith in
    let z : (suc x == 0) ≡ false = ground arith in
    rw (e, z) (strip_enough x (suc x / 2) (suc x / 2) (y / 2) (omega arith) (omega arith))

module _ (c : Crypto) (leaves : List Bytes) (m : ℕ) (le : m ≤ length leaves) where
  -- The siblings, from the level of width `p` up to the root.
  unfoldable pub siblings : ℕ → ℕ → ℕ → ℕ → List Digest
  siblings zero p fn sn = []
  siblings (suc fuel) p fn sn =
      let above = siblings fuel (p + p) (fn / 2) (sn / 2) in
      if sn == 0
      then []
      else if fn % 2 == 1
      then sibling c leaves m le p fn ∷ above
      else if fn == sn
      then above
      else part c leaves p (fn * p + p) ∷ above

  -- The state of the loop on a level.
  abbrev pub state : ℕ → ℕ → ℕ → Walk
  state p fn sn = record {
    fn = fn;
    sn = sn;
    fr = old_node c leaves m le p fn;
    sr = new_node c leaves m le p fn;
  }

  abbrev pub Verifies : List Digest → Walk → Type 0
  Verifies proof w = walk c proof w (mth c (take m leaves)) (mth c leaves) ≡ true

  step_odd :
      (p fn sn : ℕ)
      → Level c leaves m le p fn sn
      → fn % 2 ≡ 1
      → walk_step c (sibling c leaves m le p fn) (state p fn sn) ≡ state (p + p) (fn / 2) (sn / 2)
  unfolding walk_step
  step_odd p fn sn a o =
      let t : (fn % 2 == 1 || fn == sn) ≡ true = ground arith in
      rw
        (
          t,
          strip_of_odd fn fn sn o,
          ← new_odd c leaves m le p fn sn a o,
          ← old_odd c leaves m le p fn sn a o,
        )
        refl

  step_even :
      (p fn sn : ℕ)
      → Level c leaves m le p fn sn
      → fn % 2 ≡ 0
      → fn ≢ sn
      → walk_step c (part c leaves p (fn * p + p)) (state p fn sn) ≡ state (p + p) (fn / 2) (sn / 2)
  unfolding walk_step
  step_even p fn sn a v ne =
      let t : (fn % 2 == 1 || fn == sn) ≡ false = ground arith in
      rw (t, new_even c leaves m le p fn sn a v ne, old_even c leaves m le p fn sn a v) refl

  -- The last node of both logs, where it has no sibling, is the one of the next level.
  new_alone :
      (p fn sn : ℕ)
      → Level c leaves m le p fn sn
      → fn % 2 ≡ 0
      → fn ≡ sn
      → new_node c leaves m le (p + p) (fn / 2) ≡ new_node c leaves m le p fn
  new_alone p fn sn a v same =
      let e = mul_even fn p v in rw (← e) (part-alone c leaves p (fn * p) (rw same a.new_to))

  step_skip :
      (p fn sn : ℕ) (q : Digest)
      → Level c leaves m le p fn sn
      → fn % 2 ≡ 0
      → fn ≡ sn
      → fn ≢ 0
      → walk_step c q (state p fn sn) ≡ walk_step c q (state (p + p) (fn / 2) (sn / 2))
  unfolding walk_step
  step_skip p fn sn q a v same nz =
      let t : (fn % 2 == 1 || fn == sn) ≡ true = ground arith in
      let u : ((fn / 2) % 2 == 1 || fn / 2 == sn / 2) ≡ true = ground arith in
      rw
        (
          t,
          u,
          strip_of_even fn sn v nz,
          new_alone p fn sn a v same,
          old_even c leaves m le p fn sn a v,
        )
        refl

  -- Skipping a level without a sibling does not change what the loop answers.
  Verifies-skip :
      (p fn sn : ℕ) (proof : List Digest)
      → Level c leaves m le p fn sn
      → fn % 2 ≡ 0
      → fn ≡ sn
      → fn ≢ 0
      → Verifies proof (state (p + p) (fn / 2) (sn / 2))
      → Verifies proof (state p fn sn)
  unfolding walk
  Verifies-skip p fn sn [] a v same nz h =
      let z : (sn / 2 == 0) ≡ true = ground arith in absurd (nz (ground arith))
  Verifies-skip p fn sn (q ∷ proof) a v same nz h =
      let z : (sn / 2 == 0) ≡ false = ground arith in
      let y : (sn == 0) ≡ false = ground arith in
      let h' = rw z at h in rw (y, step_skip p fn sn q a v same nz) h'

  Verifies-top : (p fn sn : ℕ) → Level c leaves m le p fn sn → sn ≡ 0 → Verifies [] (state p fn sn)
  unfolding walk
  Verifies-top p fn sn a z =
      let e : sn * p ≡ 0 = rw z (omega arith) in
      let small : length leaves ≤ p = omega (arith, a.new_to, e) in
      let first : fn ≡ 0 = first_index fn p m a.old_from (omega (arith, small, le)) in
      let old = part_root c (take m leaves) p fn first (omega (arith, length-take m leaves)) in
      let new = part_root c leaves p fn first small in
      let t : (sn == 0) ≡ true = ground arith in
      rw (t, old, new, bytes_eq_refl (mth c (take m leaves)), bytes_eq_refl (mth c leaves)) refl

  Verifies-step :
      (q : Digest) (proof : List Digest) (p fn sn : ℕ)
      → (sn == 0) ≡ false
      → walk_step c q (state p fn sn) ≡ state (p + p) (fn / 2) (sn / 2)
      → Verifies proof (state (p + p) (fn / 2) (sn / 2))
      → Verifies (q ∷ proof) (state p fn sn)
  unfolding walk
  Verifies-step q proof p fn sn nz e h = rw (nz, e) h

  -- The loop accepts the siblings above its state.
  pub Verifies-siblings :
      (fuel p fn sn : ℕ)
      → sn ≤ fuel
      → Level c leaves m le p fn sn
      → Verifies (siblings fuel p fn sn) (state p fn sn)
  unfolding siblings
  Verifies-siblings zero p fn sn f a = Verifies-top p fn sn a (omega arith)
  Verifies-siblings (suc fuel) p fn sn f a = elim (Bool-cases (sn == 0)) [
    | inl z ↦ rw z (Verifies-top p fn sn a (ground arith))
    | inr nz ↦
        let ih = Verifies-siblings fuel (p + p) (fn / 2) (sn / 2) (ground arith) (AtLevel-up a) in
        elim (Bool-cases (fn % 2 == 1)) [
          | inl o ↦
              rw (nz, o)
                (Verifies-step (sibling c leaves m le p fn) _ p fn sn nz
                  (step_odd p fn sn a (ground arith)) ih)
          | inr e ↦
              let even : fn % 2 ≡ 0 = ground arith in
              elim (Bool-cases (fn == sn)) [
                | inl s ↦
                    let same : fn ≡ sn = ground arith in
                    let full : fn ≢ 0 = ground arith in
                    rw (nz, e, s)
                      (Verifies-skip p fn sn (siblings fuel (p + p) (fn / 2) (sn / 2)) a even same
                        full ih)
                | inr d ↦
                    let other : fn ≢ sn = ground arith in
                    rw (nz, e, d)
                      (Verifies-step (part c leaves p (fn * p + p)) _ p fn sn nz
                        (step_even p fn sn a even other) ih)
              ]
        ]
  ]
