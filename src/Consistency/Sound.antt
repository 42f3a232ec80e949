-- ===== src/Consistency/Sound.antt =====
-- src/verifier/transparency.go: an accepted consistency proof shows that the old log is a prefix of
-- the new one, or a collision of SHA-256.
use open_opticon.Common.{
  ℕ, ◌+◌, ◌-◌, ◌*◌, ◌/◌, ◌%◌, ◌≤◌, ◌<◌, ◌≡◌, ◌≢◌, ◌⊎◌, refl, sym, ap, ◌∙◌, subst, arith, inl, inr,
  true, false, ◌||◌, Bool-cases, List, [], ◌∷◌, length, take, length-take, All, ltb, ◌==◌, ==_iff,
  if◌then◌else◌, take_all, dec_lt,
}
use open_opticon.Common.Bytes.{Bytes, bytes_eq, bytes_eq_iff}
use open_opticon.Crypto.{Crypto}
use open_opticon.Merkle.{Digest, hash_node, mth, mth_fuel, strip}
use open_opticon.Merkle.Sound.{IsDigest, Collision, node_injective, length-mth}
use open_opticon.Consistency.{Walk, walk, walk_step, walk_from_first, strip_odd, verify_consistency}
use open_opticon.Consistency.Nodes.{part, part-take, mul_le, part_root}
use open_opticon.Consistency.Levels.{
  start-Level, new_even, AtLevel-up, Level, new_node, old_node, sibling, new_odd, old_odd, old_even,
  strip-Stripped, Full, strip_odd-Full,
}

pub first_index : (fn p m : ℕ) → fn * p < m → m ≤ p → fn ≡ 0
first_index fn p m lt le = elim (dec_lt fn 1) [
  | yes z ↦ omega arith
  | no big ↦ absurd (omega (arith, mul_le 1 fn p (omega arith)))
]

then_shows {ℓ κ} : {A C : Type ℓ} {B : Type κ} → A ⊎ C → (A → B ⊎ C) → B ⊎ C
then_shows (inl a) f = f a
then_shows (inr x) f = inr x

module _ (c : Crypto) (sha256_length : (b : Bytes) → length (c.sha256 b) ≡ 32) (leaves : List Bytes)
    (m : ℕ) (le : m ≤ length leaves) (old_root new_root : Digest)
    (is_root : new_root ≡ mth c leaves) where
  abbrev New : ℕ → ℕ → Digest
  New p i = new_node c leaves m le p i

  abbrev Old : ℕ → ℕ → Digest
  Old p i = old_node c leaves m le p i

  -- The two digests are those of the last node of the old log on a level: as a node of the new log,
  -- and if it is also that node of the old log, the old root is the root of the prefix.
  abbrev Shows : ℕ → ℕ → Digest → Digest → Type 0
  Shows p fn fr sr = (sr ≡ New p fn) × (fr ≡ Old p fn → old_root ≡ mth c (take m leaves))

  -- Both digests are hashed with the left sibling.
  Shows-odd :
      (p fn sn : ℕ) (q fr sr : Digest)
      → Level c leaves m le p fn sn
      → fn % 2 ≡ 1
      → length q ≡ 32
      → Shows (p + p) (fn / 2) (hash_node c q fr) (hash_node c q sr)
      → Shows p fn fr sr ⊎ Collision c
  Shows-odd p fn sn q fr sr a o lq h =
      elim (node_injective c sha256_length q sr (sibling c leaves m le p fn) (New p fn) lq
        (length-mth c sha256_length _) (h.0 ∙ new_odd c leaves m le p fn sn a o)) [
          | inl e ↦ inl (e.1, λ k. h.1 (rw (e.0, k) (sym (old_odd c leaves m le p fn sn a o))))
          | inr x ↦ inr x
        ]

  -- The new digest is hashed with the right sibling.
  Shows-even :
      (p fn sn : ℕ) (q fr sr : Digest)
      → Level c leaves m le p fn sn
      → fn % 2 ≡ 0
      → fn ≢ sn
      → length sr ≡ 32
      → Shows (p + p) (fn / 2) fr (hash_node c sr q)
      → Shows p fn fr sr ⊎ Collision c
  Shows-even p fn sn q fr sr a v ne lr h =
      elim (node_injective c sha256_length sr q (New p fn) (part c leaves p (fn * p + p)) lr
        (length-mth c sha256_length _) (h.0 ∙ new_even c leaves m le p fn sn a v ne)) [
          | inl s ↦ inl (s.0, λ k. h.1 (k ∙ sym (old_even c leaves m le p fn sn a v)))
          | inr x ↦ inr x
        ]

  length-node : (l r : Digest) → length (hash_node c l r) ≡ 32
  unfolding hash_node
  length-node l r = sha256_length _

  abbrev hashed : Digest → Walk → Walk
  hashed q w =
      let at = strip w.fn w.fn w.sn in
      record { fn = at.0 / 2; sn = at.1 / 2; fr = hash_node c q w.fr; sr = hash_node c q w.sr }

  abbrev shifted : Digest → Walk → Walk
  shifted q w = record { fn = w.fn / 2; sn = w.sn / 2; fr = w.fr; sr = hash_node c w.sr q }

  step_up :
      (q : Digest) (w : Walk)
      → (w.fn % 2 == 1 || w.fn == w.sn) ≡ true
      → walk_step c q w ≡ hashed q w
  unfolding walk_step
  step_up q w h = rw h refl

  step_down :
      (q : Digest) (w : Walk)
      → (w.fn % 2 == 1 || w.fn == w.sn) ≡ false
      → walk_step c q w ≡ shifted q w
  unfolding walk_step
  step_down q w h = rw h refl

  walk-Shows :
      (proof : List Digest) (p : ℕ) (w : Walk)
      → Level c leaves m le p w.fn w.sn
      → All IsDigest proof
      → length w.sr ≡ 32
      → walk c proof w old_root new_root ≡ true
      → Shows p w.fn w.fr w.sr ⊎ Collision c
  unfolding walk
  walk-Shows [] p w a ds lr h =
      let z : w.sn ≡ 0 = ground arith in
      let f : bytes_eq w.fr old_root ≡ true = ground arith in
      let s : bytes_eq w.sr new_root ≡ true = ground arith in
      let small : length leaves ≤ p =
        let e : w.sn * p ≡ 0 = rw z (omega arith) in omega (arith, a.new_to, e) in
      let first : w.fn ≡ 0 = first_index w.fn p m a.old_from (omega (arith, small, le)) in
      inl (
        (bytes_eq_iff w.sr new_root).0 s ∙ is_root ∙ sym (part_root c leaves p w.fn first small),
        λ k.
            sym ((bytes_eq_iff w.fr old_root).0 f)
            ∙ k
            ∙ part_root c (take m leaves) p w.fn first (omega (arith, length-take m leaves)),
      )
  walk-Shows (q ∷ proof) p w a ds lr h = elim (Bool-cases (w.sn == 0)) [
    | inl z ↦ let h' = rw z at h in cc
    | inr nz ↦
        let h' = rw nz at h in
        elim (Bool-cases (w.fn % 2 == 1 || w.fn == w.sn)) [
          | inl up ↦
              let at = strip w.fn w.fn w.sn in
              let nz' : w.fn ≢ 0 = ground arith in
              let why : (w.fn % 2 ≡ 1) ⊎ (w.fn ≡ w.sn) = ground arith in
              let st = strip-Stripped c leaves m le w.fn p w.fn w.sn (omega arith) a nz' why in
              let h2 = subst (λ x. walk c proof x old_root new_root ≡ true) (step_up q w up) h' in
              let ih =
                walk-Shows proof (st.width + st.width) (hashed q w) (AtLevel-up st.level) ds.1
                  (length-node q w.sr) h2 in
              then_shows ih (λ s.
                then_shows (Shows-odd st.width at.0 at.1 q w.fr w.sr st.level st.odd ds.0 s)
                  (λ t. inl (t.0 ∙ st.new, λ k. t.1 (k ∙ sym st.old))))
          | inr up ↦
              let even : w.fn % 2 ≡ 0 = ground arith in
              let ne : w.fn ≢ w.sn = ground arith in
              let h2 = subst (λ x. walk c proof x old_root new_root ≡ true) (step_down q w up) h' in
              let ih =
                walk-Shows proof (p + p) (shifted q w) (AtLevel-up a) ds.1 (length-node w.sr q)
                  h2 in
              then_shows ih (λ s. Shows-even p w.fn w.sn q w.fr w.sr a even ne lr s)
        ]
  ]

  -- From the old root itself, where the old log is one full subtree.
  from_old :
      (at : ℕ × ℕ) (proof : List Digest)
      → Full c leaves m le at
      → at.0 ≡ 0
      → All IsDigest proof
      → length old_root ≡ 32
      → walk c proof
          (record { fn = at.0; sn = at.1; fr = old_root; sr = old_root })
          old_root
          new_root
        ≡ true
      → (old_root ≡ mth c (take m leaves)) ⊎ Collision c
  from_old at proof f z ds lo h =
      then_shows
        (walk-Shows proof f.width (record { fn = at.0; sn = at.1; fr = old_root; sr = old_root })
          f.level ds lo h)
        (λ s. inl (
          s.0
          ∙ sym (part-take c leaves m f.width (at.0 * f.width) (omega (arith, f.full)))
          ∙ part_root c (take m leaves) f.width at.0 z (
              let e : at.0 * f.width ≡ 0 = rw z (omega arith) in
              omega (arith, length-take m leaves, f.full, e))))

  from_first :
      (at : ℕ × ℕ) (proof : List Digest)
      → Full c leaves m le at
      → All IsDigest proof
      → walk_from_first c proof at old_root new_root ≡ true
      → (old_root ≡ mth c (take m leaves)) ⊎ Collision c
  unfolding walk_from_first
  from_first at [] f ds h = cc
  from_first at (q ∷ proof) f ds h =
      then_shows
        (walk-Shows proof f.width (record { fn = at.0; sn = at.1; fr = q; sr = q }) f.level ds.1
          ds.0 h)
        (λ s.
          inl (
            s.1
              (s.0 ∙ sym (part-take c leaves m f.width (at.0 * f.width) (omega (arith, f.full))))))

prefix_of_walk :
    (c : Crypto) (sha256_length : (b : Bytes) → length (c.sha256 b) ≡ 32) (leaves : List Bytes)
    (m : ℕ) (le : m ≤ length leaves) (old_root : Digest) (proof : List Digest)
    → 1 ≤ m
    → IsDigest old_root
    → All IsDigest proof
    → let at = strip_odd (m - 1) (m - 1) (length leaves - 1) in
      (if at.0 == 0
          then walk c proof
              (record { fn = at.0; sn = at.1; fr = old_root; sr = old_root })
              old_root
              (mth c leaves)
          else walk_from_first c proof at old_root (mth c leaves))
        ≡ true
      → (old_root ≡ mth c (take m leaves)) ⊎ Collision c
prefix_of_walk c sha256_length leaves m le old_root proof pos lo ds h =
    let at = strip_odd (m - 1) (m - 1) (length leaves - 1) in
    let level = start-Level c leaves m le pos in
    let full =
      strip_odd-Full c leaves m le (m - 1) 1 (m - 1) (length leaves - 1) level (omega arith) in
    elim (Bool-cases (at.0 == 0)) [
      | inl z ↦
          from_old c sha256_length leaves m le old_root (mth c leaves) refl at proof full
            ((==_iff _ _).0 z) ds lo (rw z at h)
      | inr nz ↦
          from_first c sha256_length leaves m le old_root (mth c leaves) refl at proof full ds
            (rw nz at h)
    ]

pub mth-nil : (c : Crypto) → c.sha256 [] ≡ mth c []
unfolding mth mth_fuel
mth-nil c = refl

-- An accepted consistency proof towards the root of a log shows that the old size is at most the
-- size of the log and the old root is that of the log's prefix of the old size, or shows a collision
-- of SHA-256; SHA-256 gives 32 bytes, and the old root and the proof are digests.
pub verify_consistency_sound :
    (c : Crypto) (sha256_length : (b : Bytes) → length (c.sha256 b) ≡ 32) (leaves : List Bytes)
    (old_size : ℕ) (proof : List Digest) (old_root : Digest)
    → IsDigest old_root
    → All IsDigest proof
    → verify_consistency c old_size (length leaves) proof old_root (mth c leaves) ≡ true
    → (old_size ≤ length leaves) × ((old_root ≡ mth c (take old_size leaves)) ⊎ Collision c)
unfolding verify_consistency
verify_consistency_sound c sha256_length leaves m proof old_root lo ds h =
    elim (Bool-cases (length leaves == 0 || ltb (length leaves) m)) [
      | inl e ↦ let h' = rw e at h in cc
      | inr e ↦
          let le : m ≤ length leaves = ground arith in
          let h' = rw e at h in
          (
            le,
            elim (Bool-cases (m == length leaves)) [
              | inl whole ↦
                  let h2 = rw whole at h' in
                  let q : bytes_eq old_root (mth c leaves) ≡ true = ground arith in
                  inl (
                    (bytes_eq_iff old_root (mth c leaves)).0 q
                    ∙ ap (mth c) (sym (take_all m leaves (ground arith))))
              | inr part ↦
                  let h2 = rw part at h' in
                  elim (Bool-cases (m == 0)) [
                    | inl empty ↦
                        let h3 = rw empty at h2 in
                        let q : bytes_eq old_root (c.sha256 []) ≡ true = ground arith in
                        let z : m ≡ 0 = ground arith in
                        inl ((bytes_eq_iff old_root (c.sha256 [])).0 q ∙ mth-nil c ∙ rw z refl)
                    | inr pos ↦
                        let h3 = rw pos at h2 in
                        prefix_of_walk c sha256_length leaves m le old_root proof (ground arith) lo
                          ds h3
                  ]
            ],
          )
    ]
