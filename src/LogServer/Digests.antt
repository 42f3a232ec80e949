-- ===== src/LogServer/Digests.antt =====
-- src/verifier/transparency.go: the roots and proofs of a log are lists of 32 bytes, which are served
-- in hex.
use open_opticon.Common.{
  ℕ, zero, suc, ◌-◌, ◌≤◌, ◌≡◌, refl, arith, inl, inr, Bool, true, false, ◌||◌, Bool-cases, some,
  List, [], ◌∷◌, map, length, take, drop, ltb, leb, ◌==◌, All, All-append, if◌then◌else◌,
}
use open_opticon.Common.Bytes.{Bytes, IsByte}
use open_opticon.Common.Results.{ok}
use open_opticon.Hex.{hex_encode, hex_decode-hex_encode}
use open_opticon.Crypto.{Crypto}
use open_opticon.Merkle.{
  Digest, hash_leaf, hash_node, mth, mth_fuel, largest_pow2_below, subproof, subproof_fuel,
  consistency_proof,
}
use open_opticon.Witness.{root_of, hex_root, decode_proof}

-- 32 bytes.
abbrev pub Is32 : Digest → Type 0
Is32 d = All IsByte d × (length d ≡ 32)

module _ (c : Crypto)
    (sha256_Is32 : (b : Bytes) → All IsByte (c.sha256 b) × (length (c.sha256 b) ≡ 32)) where
  pub Is32-mth : (l : List Bytes) → Is32 (mth c l)
  unfolding mth mth_fuel hash_leaf hash_node
  Is32-mth [] = sha256_Is32 _
  Is32-mth (x ∷ []) = sha256_Is32 _
  Is32-mth (x ∷ y ∷ l) = sha256_Is32 _

  whole-Is32 : (l : List Bytes) (b : Bool) → All Is32 (if b then [] else mth c l ∷ [])
  whole-Is32 l true = tt
  whole-Is32 l false = (Is32-mth l, tt)

  subproof_fuel-Is32 : (f m : ℕ) (l : List Bytes) (b : Bool) → All Is32 (subproof_fuel c f m l b)
  unfolding subproof_fuel
  subproof_fuel-Is32 zero m l b = whole-Is32 l b
  subproof_fuel-Is32 (suc f) m l b =
      let k = largest_pow2_below (length l) in
      elim (Bool-cases (m == length l)) [
        | inl y ↦ rw y (whole-Is32 l b)
        | inr n ↦ elim (Bool-cases (leb m k)) [
          | inl lo ↦
              rw (n, lo)
                (All-append Is32 (subproof_fuel c f m (take k l) b) (mth c (drop k l) ∷ [])
                  (subproof_fuel-Is32 f m (take k l) b) (Is32-mth (drop k l), tt))
          | inr hi ↦
              rw (n, hi)
                (All-append Is32 (subproof_fuel c f (m - k) (drop k l) false)
                  (mth c (take k l) ∷ []) (subproof_fuel-Is32 f (m - k) (drop k l) false)
                  (Is32-mth (take k l), tt))
        ]
      ]

  -- A log gives a proof from every size up to its own.
  pub consistency_proof-some :
      (leaves : List Bytes) (m : ℕ)
      → m ≤ length leaves
      → (proof : List Digest) × (consistency_proof c leaves m ≡ some proof) × All Is32 proof
  unfolding consistency_proof subproof
  consistency_proof-some leaves m le =
      let t : ltb (length leaves) m ≡ false = ground arith in
      elim (Bool-cases (m == 0 || m == length leaves)) [
        | inl e ↦ ([], rw (t, e) refl, tt)
        | inr n ↦ (
          subproof c m leaves true,
          rw (t, n) refl,
          subproof_fuel-Is32 (length leaves) m leaves true,
        )
      ]

  -- What is served of a proof is decoded to it.
  pub decode_proof-map :
      (proof : List Digest) → All Is32 proof → decode_proof (map hex_encode proof) ≡ ok proof
  unfolding decode_proof hex_root root_of
  decode_proof-map [] a = refl
  decode_proof-map (d ∷ proof) ((b, l), a) =
      let y : (length d == 32) ≡ true = ground arith in
      rw (hex_decode-hex_encode d b, y, decode_proof-map proof a) refl

  pub hex_root-hex_encode : (d : Digest) → Is32 d → hex_root (hex_encode d) ≡ ok d
  unfolding hex_root root_of
  hex_root-hex_encode d (b, l) =
      let y : (length d == 32) ≡ true = ground arith in rw (hex_decode-hex_encode d b, y) refl
