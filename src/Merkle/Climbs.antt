-- ===== src/Merkle/Climbs.antt =====
-- src/verifier/transparency.go: inclusion by recursion on the tree of `path` and `mth`, the
-- description that the loop of `VerifyInclusion` implements.
use open_opticon.Common.{ℕ, ◌+◌, ◌≤◌, ◌<◌, ◌≡◌, List, [], ◌∷◌, ◌++◌}
use open_opticon.Crypto.{Crypto}
use open_opticon.Merkle.{Digest, hash_node, largest_pow2_below}

-- In a tree of `n` leaves, from the digest `r` of leaf `m` the digests of `proof` lead to `root`:
-- the last one belongs to the other half at the top.
pub data Climbs (c : Crypto) (r : Digest) : ℕ → ℕ → List Digest → Digest → Type 0 where
  leaf : {m n : ℕ} → m ≡ 0 → n ≡ 1 → Climbs c r m n [] r
  left :
      {m n k : ℕ} {q : List Digest} {t : Digest} (p : Digest) {proof : List Digest} {root : Digest}
      → 2 ≤ n
      → k ≡ largest_pow2_below n
      → m < k
      → Climbs c r m k q t
      → proof ≡ q ++ p ∷ []
      → root ≡ hash_node c t p
      → Climbs c r m n proof root
  right :
      {m m' n n' k : ℕ} {q : List Digest} {t : Digest} (p : Digest) {proof : List Digest}
      {root : Digest}
      → 2 ≤ n
      → k ≡ largest_pow2_below n
      → m ≡ k + m'
      → n ≡ k + n'
      → Climbs c r m' n' q t
      → proof ≡ q ++ p ∷ []
      → root ≡ hash_node c p t
      → Climbs c r m n proof root
