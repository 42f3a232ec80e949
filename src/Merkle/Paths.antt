-- ===== src/Merkle/Paths.antt =====
-- src/verifier/transparency.go: `path` gives a proof that leads from its leaf to the root.
use open_opticon.Common.{
  ℕ, zero, suc, ◌+◌, ◌-◌, ◌≤◌, ◌<◌, ◌≡◌, refl, sym, ap, ◌∙◌, subst, arith, true, false, some,
  Bool-cases, inl, inr, ltb, leb, ltb→lt, List, [], ◌∷◌, ◌++◌, length, take, drop, get_elem?,
  length-take, length-drop, get_elem?-take, get_elem?-drop, if◌then◌else◌,
}
use open_opticon.Common.Bytes.{Bytes, bytes_eq_refl}
use open_opticon.Crypto.{Crypto}
use open_opticon.Merkle.{
  hash_leaf, hash_node, largest_pow2_below, mth_fuel, mth, path_fuel, path, verify_inclusion,
}
use open_opticon.Merkle.Pow.{largest_pow2_below-IsSplit}
use open_opticon.Merkle.Climbs.{Climbs, leaf, left, right}
use open_opticon.Merkle.Edge.{climb-Climbs}

module _ (c : Crypto) where
  abbrev pub split_of : List Bytes → ℕ
  split_of leaves = largest_pow2_below (length leaves)

  mth_fuel_split :
      (f : ℕ) (l : List Bytes)
      → 2 ≤ length l
      → mth_fuel c (suc f) l
        ≡ hash_node c (mth_fuel c f (take (split_of l) l)) (mth_fuel c f (drop (split_of l) l))
  unfolding mth_fuel
  mth_fuel_split f [] h = absurd (omega arith)
  mth_fuel_split f (x ∷ []) h = absurd (omega arith)
  mth_fuel_split f (x ∷ y ∷ l) h = refl

  -- The halves of a list of two leaves or more are shorter and not empty.
  pub split_lengths :
      (l : List Bytes)
      → 2 ≤ length l
      → (length (take (split_of l) l) ≡ split_of l)
        × (length l ≡ split_of l + length (drop (split_of l) l))
        × (1 ≤ split_of l)
        × (split_of l < length l)
  split_lengths l h =
      let s = largest_pow2_below-IsSplit (length l) h in
      omega (arith, s.below, s.most, length-take (split_of l) l, length-drop (split_of l) l)

  -- Any fuel that is at least the number of leaves gives the same digest.
  mth_fuel_enough :
      (f g : ℕ) (l : List Bytes) → length l ≤ f → length l ≤ g → mth_fuel c f l ≡ mth_fuel c g l
  mth_fuel_enough zero zero l p q = refl
  mth_fuel_enough zero (suc g) [] p q = unfold mth_fuel in refl
  mth_fuel_enough zero (suc g) (x ∷ l) p q = absurd (omega arith)
  mth_fuel_enough (suc f) zero [] p q = unfold mth_fuel in refl
  mth_fuel_enough (suc f) zero (x ∷ l) p q = absurd (omega arith)
  mth_fuel_enough (suc f) (suc g) [] p q = unfold mth_fuel in refl
  mth_fuel_enough (suc f) (suc g) (x ∷ []) p q = unfold mth_fuel in refl
  mth_fuel_enough (suc f) (suc g) (x ∷ y ∷ r) p q =
      let l : List Bytes = x ∷ y ∷ r in
      let n = split_lengths l (omega arith) in
      let a = mth_fuel_enough f g (take (split_of l) l) (omega (arith, n)) (omega (arith, n)) in
      let b = mth_fuel_enough f g (drop (split_of l) l) (omega (arith, n)) (omega (arith, n)) in
      mth_fuel_split f l (omega arith) ∙ cc (a, b) ∙ sym (mth_fuel_split g l (omega arith))

  -- The root of two leaves or more is the node of the roots of the two parts of the split: the fuel of
  -- `mth` suffices at every level.
  pub mth_split :
      (l : List Bytes)
      → 2 ≤ length l
      → mth c l ≡ hash_node c (mth c (take (split_of l) l)) (mth c (drop (split_of l) l))
  unfolding mth
  mth_split [] h = absurd (omega arith)
  mth_split (x ∷ r) h =
      let l : List Bytes = x ∷ r in
      let n = split_lengths l h in
      let a =
        mth_fuel_enough (length r) (length (take (split_of l) l)) (take (split_of l) l)
          (omega (arith, n)) (omega arith) in
      let b =
        mth_fuel_enough (length r) (length (drop (split_of l) l)) (drop (split_of l) l)
          (omega (arith, n)) (omega arith) in
      mth_fuel_split (length r) l h ∙ cc (a, b)

  path_fuel_split :
      (f m : ℕ) (l : List Bytes)
      → 2 ≤ length l
      → path_fuel c (suc f) m l ≡ (
          if ltb m (split_of l)
          then path_fuel c f m (take (split_of l) l) ++ mth c (drop (split_of l) l) ∷ []
          else path_fuel c f (m - split_of l) (drop (split_of l) l)
            ++ mth c (take (split_of l) l) ∷ [])
  unfolding path_fuel
  path_fuel_split f m [] h = absurd (omega arith)
  path_fuel_split f m (x ∷ []) h = absurd (omega arith)
  path_fuel_split f m (x ∷ y ∷ l) h = refl

  path_fuel-Climbs :
      (f m : ℕ) (l : List Bytes) (entry : Bytes)
      → length l ≤ f
      → get_elem? l m ≡ some entry
      → Climbs c (hash_leaf c entry) m (length l) (path_fuel c f m l) (mth c l)
  path_fuel-Climbs f m [] entry h e = cc
  path_fuel-Climbs zero m (x ∷ l) entry h e = absurd (omega arith)
  path_fuel-Climbs (suc f) zero (x ∷ []) entry h e =
      let q : x ≡ entry = ground arith in unfold path_fuel mth in rw q (leaf refl refl)
  path_fuel-Climbs (suc f) (suc m) (x ∷ []) entry h e = cc
  path_fuel-Climbs (suc f) m (x ∷ y ∷ r) entry h e =
      let l : List Bytes = x ∷ y ∷ r in
      let n = split_lengths l (omega arith) in
      elim (Bool-cases (ltb m (split_of l))) [
        | inl lo ↦
            let at = get_elem?-take (split_of l) m l (ltb→lt _ _ lo) in
            let ih = path_fuel-Climbs f m (take (split_of l) l) entry (omega (arith, n)) (at ∙ e) in
            let ih' =
              subst
                (λ k.
                  Climbs c (hash_leaf c entry) m k (path_fuel c f m (take (split_of l) l))
                    (mth c (take (split_of l) l)))
                n.0 ih in
            left (mth c (drop (split_of l) l)) (omega arith) refl (ltb→lt _ _ lo) ih'
              (path_fuel_split f m l (omega arith) ∙ rw lo) (mth_split l (omega arith))
        | inr hi ↦
            let em : m ≡ split_of l + (m - split_of l) = ground arith in
            let at = get_elem?-drop (split_of l) (m - split_of l) l in
            let ih =
              path_fuel-Climbs f (m - split_of l) (drop (split_of l) l) entry (omega (arith, n))
                (at ∙ ap (get_elem? l) (sym em) ∙ e) in
            right (mth c (take (split_of l) l)) (omega arith) refl em n.1 ih
              (path_fuel_split f m l (omega arith) ∙ rw hi) (mth_split l (omega arith))
      ]

  pub path-Climbs :
      (m : ℕ) (l : List Bytes) (entry : Bytes)
      → get_elem? l m ≡ some entry
      → Climbs c (hash_leaf c entry) m (length l) (path c m l) (mth c l)
  unfolding path
  path-Climbs m l entry e = path_fuel-Climbs (length l) m l entry (omega arith) e

  get_elem?-lt :
      (l : List Bytes) (m : ℕ) (entry : Bytes) → get_elem? l m ≡ some entry → m < length l
  get_elem?-lt [] m entry e = cc
  get_elem?-lt (x ∷ l) zero entry e = omega arith
  get_elem?-lt (x ∷ l) (suc m) entry e = omega (arith, get_elem?-lt l m entry e)

  -- The inclusion proof of every entry of every log verifies against the log's root.
  pub verify_inclusion-path :
      (leaves : List Bytes) (index : ℕ) (entry : Bytes)
      → get_elem? leaves index ≡ some entry
      → verify_inclusion c entry index (length leaves) (path c index leaves) (mth c leaves) ≡ true
  unfolding verify_inclusion
  verify_inclusion-path leaves index entry e =
      let lt = get_elem?-lt leaves index entry e in
      let z : leb (length leaves) index ≡ false = ground arith in
      rw (z, climb-Climbs c (path-Climbs index leaves entry e)) (bytes_eq_refl (mth c leaves))
