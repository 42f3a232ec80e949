-- ===== src/Tests/Windows.antt =====
-- Examples for consistency proofs and disclosed windows.
use open_opticon.Common.{
  arith, ◌≡◌, ◌≤◌, ◌⊎◌, refl, take, All, true, some, List, [], ◌∷◌, get_elem?,
}
use open_opticon.Common.Bytes.{Bytes, bytes_eq}
use open_opticon.Merkle.{
  consistency_proof, subproof, subproof_fuel, mth, mth_fuel, path, hash_leaf, hash_node,
  largest_pow2_below, doubled, inclusion_proof, strip,
}
use open_opticon.Disclosure.{
  WindowDisclosure, disclose_window, verify_window_disclosure,
  verify_window_disclosure-disclose_window,
}
use open_opticon.Consistency.{verify_consistency, walk, walk_step, walk_from_first, strip_odd}
use open_opticon.Merkle.Sound.{IsDigest, Collision, length-mth}
use open_opticon.Consistency.Complete.{verify_consistency-consistency_proof}
use open_opticon.Consistency.Sound.{verify_consistency_sound}
use open_opticon.Tests.Samples.{toy, toy_length}

abbrev entries : List Bytes
entries = (1 ∷ []) ∷ (2 ∷ []) ∷ (3 ∷ []) ∷ []

abbrev window : WindowDisclosure
window = record { index = 2; size = 3; entry = 3 ∷ []; proof = path toy 2 entries }

disclosed : disclose_window toy entries 2 ≡ some window
unfolding disclose_window inclusion_proof
disclosed = refl

verify_window_disclosure-disclose_window_example :
    (get_elem? entries 2 ≡ some (3 ∷ []))
    × (verify_window_disclosure toy window (mth toy entries) ≡ true)
verify_window_disclosure-disclose_window_example =
    verify_window_disclosure-disclose_window toy entries 2 window disclosed

-- Two entries are a prefix of three.
extends :
    verify_consistency toy 2 3
      (hash_leaf toy (3 ∷ []) ∷ [])
      (mth toy ((1 ∷ []) ∷ (2 ∷ []) ∷ []))
      (mth toy entries)
    ≡ true
unfolding verify_consistency walk walk_step walk_from_first strip_odd strip mth mth_fuel hash_leaf
    hash_node largest_pow2_below doubled bytes_eq
extends = refl

proof-IsDigest : All IsDigest (hash_leaf toy (3 ∷ []) ∷ [])
unfolding hash_leaf
proof-IsDigest = (refl, tt)

verify_consistency_sound_example :
    (2 ≤ 3) × ((mth toy ((1 ∷ []) ∷ (2 ∷ []) ∷ []) ≡ mth toy (take 2 entries)) ⊎ Collision toy)
verify_consistency_sound_example =
    verify_consistency_sound toy toy_length entries 2 (hash_leaf toy (3 ∷ []) ∷ [])
      (mth toy ((1 ∷ []) ∷ (2 ∷ []) ∷ [])) (length-mth toy toy_length _) proof-IsDigest extends

proof_given : consistency_proof toy entries 2 ≡ some (hash_leaf toy (3 ∷ []) ∷ [])
unfolding consistency_proof subproof subproof_fuel mth mth_fuel hash_leaf hash_node
    largest_pow2_below doubled
proof_given = refl

verify_consistency-consistency_proof_example :
    verify_consistency toy 2 3
      (hash_leaf toy (3 ∷ []) ∷ [])
      (mth toy (take 2 entries))
      (mth toy entries)
    ≡ true
verify_consistency-consistency_proof_example =
    verify_consistency-consistency_proof toy entries 2 (hash_leaf toy (3 ∷ []) ∷ []) (omega arith)
      proof_given
