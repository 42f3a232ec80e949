-- ===== src/Merkle/Commits.antt =====
-- src/verifier/transparency.go: the root of a log tells all of its leaves.
use open_opticon.Common.{
  ℕ, zero, suc, ◌≤◌, ◌≡◌, ◌⊎◌, refl, sym, ◌∙◌, arith, inl, inr, List, [], ◌∷◌, ◌++◌, length, take,
  drop, take-append-drop,
}
use open_opticon.Common.Bytes.{Bytes}
use open_opticon.Crypto.{Crypto}
use open_opticon.Bundle.Stream.{same_digest}
use open_opticon.Merkle.{mth, mth_fuel, hash_leaf, hash_node}
use open_opticon.Merkle.Paths.{mth_split, split_of, split_lengths}
use open_opticon.Merkle.Sound.{Collision, append-injective, length-mth}

module _ (c : Crypto) where
  abbrev left_of : List Bytes → List Bytes
  left_of l = take (split_of c l) l

  abbrev right_of : List Bytes → List Bytes
  right_of l = drop (split_of c l) l

  -- What is hashed for the root.
  abbrev hashed : List Bytes → Bytes
  hashed [] = []
  hashed (x ∷ []) = 0x00 ∷ x
  hashed (x ∷ y ∷ l) = 0x01 ∷ mth c (left_of (x ∷ y ∷ l)) ++ mth c (right_of (x ∷ y ∷ l))

  mth-hashed : (l : List Bytes) → mth c l ≡ c.sha256 (hashed l)
  mth-hashed [] = unfold mth mth_fuel in refl
  mth-hashed (x ∷ []) = unfold mth mth_fuel hash_leaf in refl
  mth-hashed (x ∷ y ∷ l) = unfold hash_node in mth_split c (x ∷ y ∷ l) (omega arith)

  same_halves : (l m : List Bytes) → left_of l ≡ left_of m → right_of l ≡ right_of m → l ≡ m
  same_halves l m e f =
      sym (take-append-drop (split_of c l) l) ∙ cc (e, f) ∙ take-append-drop (split_of c m) m

  module _ (sha256_length : (b : Bytes) → length (c.sha256 b) ≡ 32) where
    mth→hashed :
        (l m : List Bytes)
        → (hashed l ≡ hashed m → (l ≡ m) ⊎ Collision c)
        → mth c l ≡ mth c m
        → (l ≡ m) ⊎ Collision c
    mth→hashed l m f e =
        elim (same_digest c (hashed l) (hashed m) (sym (mth-hashed l) ∙ e ∙ mth-hashed m)) [
          | inl same ↦ f same
          | inr k ↦ inr (record { x = hashed l; y = hashed m; collides = k })
        ]

    hashed-injective :
        (n : ℕ) (l m : List Bytes) → length l ≤ n → hashed l ≡ hashed m → (l ≡ m) ⊎ Collision c
    hashed-injective n [] [] h e = inl refl
    hashed-injective n [] (y ∷ []) h e = cc
    hashed-injective n [] (y ∷ z ∷ m) h e = cc
    hashed-injective n (x ∷ []) [] h e = cc
    hashed-injective n (x ∷ []) (y ∷ []) h e = inl (cc)
    hashed-injective n (x ∷ []) (y ∷ z ∷ m) h e = absurd (ground arith)
    hashed-injective n (x ∷ w ∷ l) [] h e = cc
    hashed-injective n (x ∷ w ∷ l) (y ∷ []) h e = absurd (ground arith)
    hashed-injective zero (x ∷ w ∷ l) (y ∷ z ∷ m) h e = absurd (omega arith)
    hashed-injective (suc n) (x ∷ w ∷ l) (y ∷ z ∷ m) h e =
        let xs : List Bytes = x ∷ w ∷ l in
        let ys : List Bytes = y ∷ z ∷ m in
        let len =
          length-mth c sha256_length (left_of xs) ∙ sym (length-mth c sha256_length (left_of ys)) in
        let (a, b) =
          append-injective (mth c (left_of xs)) (mth c (right_of xs)) (mth c (left_of ys))
            (mth c (right_of ys)) len (cc) in
        let s = split_lengths c xs (omega arith) in
        elim (mth→hashed (left_of xs) (left_of ys)
          (hashed-injective n (left_of xs) (left_of ys) (omega (arith, s, h))) a) [
            | inr k ↦ inr k
            | inl p ↦
                elim (mth→hashed (right_of xs) (right_of ys)
                  (hashed-injective n (right_of xs) (right_of ys) (omega (arith, s, h))) b) [
                    | inr k ↦ inr k
                    | inl q ↦ inl (same_halves xs ys p q)
                  ]
          ]

    -- Logs with one root have the same leaves, in the same order and number, or two inputs with one
    -- digest are known, where SHA-256 gives 32 bytes: no root of fewer leaves is one of more.
    pub mth-injective : (l m : List Bytes) → mth c l ≡ mth c m → (l ≡ m) ⊎ Collision c
    mth-injective l m = mth→hashed l m (hashed-injective (length l) l m (omega arith))
