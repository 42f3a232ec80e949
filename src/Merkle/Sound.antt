-- ===== src/Merkle/Sound.antt =====
-- src/verifier/transparency.go: an accepted inclusion proof shows the entry of the log, or a
-- collision of SHA-256.
use open_opticon.Common.{
  ℕ, ◌+◌, ◌≤◌, ◌≡◌, ◌⊎◌, refl, sym, ap, ◌∙◌, subst, arith, true, some, inl, inr, List, [], ◌∷◌,
  ◌++◌, length, take, drop, get_elem?, get_elem?-take, get_elem?-drop, All, All-append_left,
  All-append_right,
}
use open_opticon.Common.Bytes.{Bytes}
use open_opticon.Crypto.{Crypto}
use open_opticon.Bundle.Stream.{Collides, same_digest}
use open_opticon.Merkle.{Digest, hash_leaf, hash_node, largest_pow2_below, mth, verify_inclusion}
use open_opticon.Merkle.Climbs.{Climbs, leaf, left, right}
use open_opticon.Merkle.Paths.{mth_split, split_of, split_lengths}
use open_opticon.Merkle.Decides.{verify_inclusion_iff}

-- Two different inputs with one digest are known.
pub record Collision (c : Crypto) : Type 0 where
  pub x : Bytes
  pub y : Bytes
  pub collides : Collides c x y

pub append-injective : (a b x y : Bytes) → length a ≡ length x → a ++ b ≡ x ++ y → (a ≡ x) × (b ≡ y)
append-injective [] b [] y h e = (refl, e)
append-injective [] b (x ∷ xs) y h e = absurd (omega arith)
append-injective (a ∷ rest_a) b [] y h e = absurd (omega arith)
append-injective (a ∷ rest_a) b (x ∷ xs) y h e =
    let t : rest_a ++ b ≡ xs ++ y = cc in
    let f : a ≡ x = cc in let (p, q) = append-injective rest_a b xs y (omega arith) t in (cc, q)

-- A digest is an array of 32 bytes.
abbrev pub IsDigest : Digest → Type 0
IsDigest d = length d ≡ 32

-- SHA-256 gives 32 bytes.
module _ (c : Crypto) (sha256_length : (b : Bytes) → length (c.sha256 b) ≡ 32) where
  pub node_injective :
      (a b x y : Digest)
      → length a ≡ 32
      → length x ≡ 32
      → hash_node c a b ≡ hash_node c x y
      → ((a ≡ x) × (b ≡ y)) ⊎ Collision c
  unfolding hash_node
  node_injective a b x y la lx h = elim (same_digest c (0x01 ∷ a ++ b) (0x01 ∷ x ++ y) h) [
    | inl e ↦ inl (append-injective a b x y (la ∙ sym lx) (cc))
    | inr q ↦ inr (record { x = 0x01 ∷ a ++ b; y = 0x01 ∷ x ++ y; collides = q })
  ]

  pub length-mth : (l : List Bytes) → length (mth c l) ≡ 32
  unfolding mth hash_leaf hash_node
  length-mth [] = sha256_length _
  length-mth (x ∷ []) = sha256_length _
  length-mth (x ∷ y ∷ l) = sha256_length _

  Climbs-length :
      {r root : Digest} {m n : ℕ} {proof : List Digest}
      → length r ≡ 32
      → Climbs c r m n proof root
      → length root ≡ 32
  unfolding hash_node
  Climbs-length h (leaf e f) = h
  Climbs-length h (left p two k lt up e f) = ap length f ∙ sha256_length _
  Climbs-length h (right p two k em en up e f) = ap length f ∙ sha256_length _

  abbrev Holds : List Bytes → ℕ → Digest → Type 0
  Holds l m r = (e : Bytes) × (get_elem? l m ≡ some e) × (r ≡ hash_leaf c e)

  Climbs-sound :
      {r root : Digest} {m n : ℕ} {proof : List Digest} (l : List Bytes)
      → length r ≡ 32
      → All IsDigest proof
      → length l ≡ n
      → Climbs c r m n proof root
      → root ≡ mth c l
      → Holds l m r ⊎ Collision c
  Climbs-sound [] h ds len (leaf em en) e = absurd (omega arith)
  Climbs-sound (x ∷ []) h ds len (leaf em en) e =
      inl (x, ap (get_elem? (x ∷ [])) em, unfold mth in e)
  Climbs-sound (x ∷ y ∷ l) h ds len (leaf em en) e = absurd (omega arith)
  Climbs-sound {m} {n} l h ds len (left {k = k'} {q = q'} {t = t} p two k lt up ep er) e =
      let s : k' ≡ split_of c l = k ∙ ap largest_pow2_below (sym len) in
      let n2 : 2 ≤ length l = omega arith in
      let ds' = subst (All IsDigest) ep ds in
      let sizes = split_lengths c l n2 in
      let same =
        node_injective t p (mth c (take (split_of c l) l)) (mth c (drop (split_of c l) l))
          (Climbs-length h up) (length-mth (take (split_of c l) l))
          (sym er ∙ e ∙ mth_split c l n2) in
      elim same [
        | inl q ↦
            elim (Climbs-sound (take (split_of c l) l) h (All-append_left IsDigest q' (p ∷ []) ds')
              (sizes.0 ∙ sym s) up q.0) [
                | inl held ↦
                    let at = get_elem?-take (split_of c l) m l (omega arith) in
                    inl (held.0, sym at ∙ held.1, held.2)
                | inr x ↦ inr x
              ]
        | inr x ↦ inr x
      ]
  Climbs-sound {m} {n} l h ds len (right {m' = m'} {k = k'} {q = q'} {t = t} p two k em en up ep er)
        e =
      let s : k' ≡ split_of c l = k ∙ ap largest_pow2_below (sym len) in
      let n2 : 2 ≤ length l = omega arith in
      let ds' = subst (All IsDigest) ep ds in
      let sizes = split_lengths c l n2 in
      let pl : length p ≡ 32 = (All-append_right IsDigest q' (p ∷ []) ds').0 in
      let same =
        node_injective p t (mth c (take (split_of c l) l)) (mth c (drop (split_of c l) l)) pl
          (length-mth (take (split_of c l) l)) (sym er ∙ e ∙ mth_split c l n2) in
      elim same [
        | inl q ↦
            elim (Climbs-sound (drop (split_of c l) l) h (All-append_left IsDigest q' (p ∷ []) ds')
              (omega arith) up q.1) [
                | inl held ↦
                    let at = get_elem?-drop (split_of c l) m' l in
                    let im : split_of c l + m' ≡ m = omega arith in
                    inl (held.0, sym (at ∙ ap (get_elem? l) im) ∙ held.1, held.2)
                | inr x ↦ inr x
              ]
        | inr x ↦ inr x
      ]

  -- An inclusion proof that verifies against the root of a log shows that the entry stands at the
  -- index in that log, or a collision of SHA-256; the proof is a list of digests of 32 bytes.
  pub verify_inclusion_sound :
      (leaves : List Bytes) (entry : Bytes) (index : ℕ) (proof : List Digest)
      → All IsDigest proof
      → verify_inclusion c entry index (length leaves) proof (mth c leaves) ≡ true
      → (get_elem? leaves index ≡ some entry) ⊎ Collision c
  verify_inclusion_sound leaves entry index proof ds h =
      let up = (verify_inclusion_iff c entry index (length leaves) proof (mth c leaves)).0 h in
      let len : length (hash_leaf c entry) ≡ 32 = unfold hash_leaf in sha256_length _ in
      elim (Climbs-sound leaves len ds refl up.1 refl) [
        | inl held ↦
            elim (same_digest c (0x00 ∷ entry) (0x00 ∷ held.0) (unfold hash_leaf in held.2)) [
              | inl e ↦ inl (held.1 ∙ cc)
              | inr q ↦ inr (record { x = 0x00 ∷ entry; y = 0x00 ∷ held.0; collides = q })
            ]
        | inr q ↦ inr q
      ]
