-- ===== src/Consistency.antt =====
-- src/verifier/transparency.go: the verification of consistency proofs, for sizes that are not
-- negative.
pub mod Nodes
pub mod Levels
pub mod Sound
pub mod Ascent
pub mod Descent
pub mod Unrolled
pub mod Complete
use open_opticon.Common.{
  ℕ, zero, suc, ◌-◌, ◌/◌, ◌%◌, Bool, true, false, ◌&&◌, ◌||◌, List, [], ◌∷◌, length, ltb, ◌==◌,
  if◌then◌else◌,
}
use open_opticon.Common.Bytes.{Bytes, bytes_eq}
use open_opticon.Crypto.{Crypto}
use open_opticon.Merkle.{Digest, hash_node, strip}

-- `for fn&1 == 1 { fn >>= 1; sn >>= 1 }`, with `fn` rounds at most.
unfoldable pub strip_odd : ℕ → ℕ → ℕ → ℕ × ℕ
strip_odd zero fn sn = (fn, sn)
strip_odd (suc fuel) fn sn =
    let rest = strip_odd fuel (fn / 2) (sn / 2) in if fn % 2 == 1 then rest else (fn, sn)

pub record Walk : Type 0 where
  pub fn : ℕ
  pub sn : ℕ
  pub fr : Digest
  pub sr : Digest

-- The body of the loop of `VerifyConsistency`, for `sn` not 0.
unfoldable pub walk_step : Crypto → Digest → Walk → Walk
walk_step c p w =
    if w.fn % 2 == 1 || w.fn == w.sn
    then (let (fn, sn) = strip w.fn w.fn w.sn in
        record { fn = fn / 2; sn = sn / 2; fr = hash_node c p w.fr; sr = hash_node c p w.sr })
    else record w { fn = w.fn / 2; sn = w.sn / 2; sr = hash_node c w.sr p }

-- The loop and the comparison behind it.
unfoldable pub walk : Crypto → List Digest → Walk → Digest → Digest → Bool
unfolding walk_step
walk c [] w old_root new_root = w.sn == 0 && bytes_eq w.fr old_root && bytes_eq w.sr new_root
walk c (p ∷ proof) w old_root new_root =
    let rest = walk c proof (walk_step c p w) old_root new_root in if w.sn == 0 then false else rest

unfoldable pub walk_from_first : Crypto → List Digest → ℕ × ℕ → Digest → Digest → Bool
unfolding walk
walk_from_first c [] at old_root new_root = false
walk_from_first c (p ∷ proof) at old_root new_root =
    walk c proof (record { fn = at.0; sn = at.1; fr = p; sr = p }) old_root new_root

-- `VerifyConsistency`.
unfoldable pub verify_consistency : Crypto → ℕ → ℕ → List Digest → Digest → Digest → Bool
unfolding walk_from_first strip_odd
verify_consistency c old_size new_size proof old_root new_root =
    let at = strip_odd (old_size - 1) (old_size - 1) (new_size - 1) in
    if new_size == 0 || ltb new_size old_size
    then false
    else if old_size == new_size
    then length proof == 0 && bytes_eq old_root new_root
    else if old_size == 0
    then length proof == 0 && bytes_eq old_root (c.sha256 [])
    else if at.0 == 0
    then walk c proof (record { fn = at.0; sn = at.1; fr = old_root; sr = old_root }) old_root
        new_root
    else walk_from_first c proof at old_root new_root
