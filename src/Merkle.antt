-- ===== src/Merkle.antt =====
-- src/verifier/transparency.go: the RFC 6962 Merkle log and its inclusion and consistency proofs.
-- A digest is a list of bytes. The recursions on slices take the number of leaves as fuel.
pub mod Pow
pub mod Climbs
pub mod Run
pub mod Edge
pub mod Paths
pub mod Commits
pub mod Decides
pub mod Sound
use open_opticon.Common.{
  ℕ, zero, suc, ◌+◌, ◌-◌, ◌*◌, ◌/◌, ◌%◌, Bool, true, false, not, ◌&&◌, ◌||◌, Option, none, some,
  List, [], ◌∷◌, ◌++◌, ltb, leb, ◌==◌, if◌then◌else◌, length, take, drop,
}
use open_opticon.Common.Bytes.{Bytes, bytes_eq}
use open_opticon.Crypto.{Crypto}

abbrev pub Digest : Type 0
Digest = Bytes

-- `hashLeaf` and `hashNode`.
unfoldable pub hash_leaf : Crypto → Bytes → Digest
hash_leaf c b = c.sha256 (0x00 ∷ b)

unfoldable pub hash_node : Crypto → Digest → Digest → Digest
hash_node c l r = c.sha256 (0x01 ∷ l ++ r)

-- The loop `for k<<1 < n { k <<= 1 }`.
unfoldable pub doubled : ℕ → ℕ → ℕ → ℕ
doubled zero n k = k
doubled (suc fuel) n k = let rest = doubled fuel n (2 * k) in if ltb (2 * k) n then rest else k

unfoldable pub largest_pow2_below : ℕ → ℕ
unfolding doubled
largest_pow2_below n = doubled n n 1

module _ (c : Crypto) where
  unfoldable pub mth_fuel : ℕ → List Bytes → Digest
  mth_fuel zero leaves = c.sha256 []
  mth_fuel (suc f) [] = c.sha256 []
  mth_fuel (suc f) (x ∷ []) = hash_leaf c x
  mth_fuel (suc f) (x ∷ y ∷ rest) =
      let leaves = x ∷ y ∷ rest in
      let k = largest_pow2_below (length leaves) in
      hash_node c (mth_fuel f (take k leaves)) (mth_fuel f (drop k leaves))

  -- `mth`.
  unfoldable pub mth : List Bytes → Digest
  unfolding mth_fuel
  mth leaves = mth_fuel (length leaves) leaves

  -- `path`.
  unfoldable pub path_fuel : ℕ → ℕ → List Bytes → List Digest
  path_fuel zero m leaves = []
  path_fuel (suc f) m [] = []
  path_fuel (suc f) m (x ∷ []) = []
  path_fuel (suc f) m (x ∷ y ∷ rest) =
      let leaves = x ∷ y ∷ rest in
      let k = largest_pow2_below (length leaves) in
      let left = path_fuel f m (take k leaves) ++ mth (drop k leaves) ∷ [] in
      let right = path_fuel f (m - k) (drop k leaves) ++ mth (take k leaves) ∷ [] in
      if ltb m k then left else right

  unfoldable pub path : ℕ → List Bytes → List Digest
  unfolding path_fuel
  path m leaves = path_fuel (length leaves) m leaves

  -- `(*MerkleLog).InclusionProof`; `none` is the error.
  unfoldable pub inclusion_proof : List Bytes → ℕ → Option (List Digest)
  inclusion_proof leaves index =
      if leb (length leaves) index then none else some (path index leaves)

  -- `subproof`.
  unfoldable pub subproof_fuel : ℕ → ℕ → List Bytes → Bool → List Digest
  subproof_fuel zero m leaves b = if b then [] else mth leaves ∷ []
  subproof_fuel (suc f) m leaves b =
      let k = largest_pow2_below (length leaves) in
      let whole = if b then [] else mth leaves ∷ [] in
      let left = subproof_fuel f m (take k leaves) b ++ mth (drop k leaves) ∷ [] in
      let right = subproof_fuel f (m - k) (drop k leaves) false ++ mth (take k leaves) ∷ [] in
      if m == length leaves then whole else if leb m k then left else right

  unfoldable pub subproof : ℕ → List Bytes → Bool → List Digest
  unfolding subproof_fuel
  subproof m leaves b = subproof_fuel (length leaves) m leaves b

  -- `(*MerkleLog).ConsistencyProof`.
  unfoldable pub consistency_proof : List Bytes → ℕ → Option (List Digest)
  consistency_proof leaves old_size =
      if ltb (length leaves) old_size
      then none
      else if old_size == 0 || old_size == length leaves
      then some []
      else some (subproof old_size leaves true)

-- `for fn&1 == 0 && fn != 0 { fn >>= 1; sn >>= 1 }`, with `fn` rounds at most.
unfoldable pub strip : ℕ → ℕ → ℕ → ℕ × ℕ
strip zero fn sn = (fn, sn)
strip (suc fuel) fn sn =
    let rest = strip fuel (fn / 2) (sn / 2) in
    if fn % 2 == 0 && not (fn == 0) then rest else (fn, sn)

pub record Climb : Type 0 where
  pub fn : ℕ
  pub sn : ℕ
  pub r : Digest

-- The body of the loop of `VerifyInclusion`, for `sn` not 0.
unfoldable pub climb_step : Crypto → Digest → Climb → Climb
unfolding strip
climb_step c p s =
    if s.fn % 2 == 1 || s.fn == s.sn
    then (let (fn, sn) = strip s.fn s.fn s.sn in
        record { fn = fn / 2; sn = sn / 2; r = hash_node c p s.r })
    else record { fn = s.fn / 2; sn = s.sn / 2; r = hash_node c s.r p }

-- The loop; `none` is `return false`.
unfoldable pub climb : Crypto → List Digest → Climb → Option Climb
unfolding climb_step
climb c [] s = some s
climb c (p ∷ proof) s =
    let rest = climb c proof (climb_step c p s) in if s.sn == 0 then none else rest

unfoldable pub reaches : Option Climb → Digest → Bool
reaches none root = false
reaches (some s) root = s.sn == 0 && bytes_eq s.r root

-- `VerifyInclusion`, for an index and a size that are not negative.
unfoldable pub verify_inclusion : Crypto → Bytes → ℕ → ℕ → List Digest → Digest → Bool
unfolding climb reaches
verify_inclusion c entry index size proof root =
    if leb size index
    then false
    else reaches (climb c proof (record { fn = index; sn = size - 1; r = hash_leaf c entry })) root
