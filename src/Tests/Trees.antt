-- ===== src/Tests/Trees.antt =====
-- Examples for the Merkle log.
use open_opticon.Common.{◌≡◌, ◌<◌, ◌↔◌, ◌⊎◌, refl, arith, true, some, List, [], ◌∷◌, All, get_elem?}
use open_opticon.Common.Bytes.{Bytes}
use open_opticon.Merkle.{
  hash_leaf, hash_node, largest_pow2_below, doubled, mth_fuel, mth, path_fuel, path,
  verify_inclusion,
}
use open_opticon.Merkle.Pow.{IsSplit, largest_pow2_below-IsSplit}
use open_opticon.Merkle.Climbs.{Climbs}
use open_opticon.Merkle.Paths.{verify_inclusion-path}
use open_opticon.Merkle.Commits.{mth-injective}
use open_opticon.Merkle.Decides.{verify_inclusion_iff}
use open_opticon.Merkle.Sound.{IsDigest, Collision, verify_inclusion_sound}
use open_opticon.Tests.Samples.{toy, toy_length}

abbrev entries : List Bytes
entries = (1 ∷ []) ∷ (2 ∷ []) ∷ (3 ∷ []) ∷ []

largest_pow2_below-IsSplit_example : IsSplit 7 (largest_pow2_below 7)
largest_pow2_below-IsSplit_example = largest_pow2_below-IsSplit 7 (omega arith)

abbrev other_entries : List Bytes
other_entries = (1 ∷ []) ∷ (2 ∷ []) ∷ (9 ∷ []) ∷ []

-- The digest of `toy` cuts the right part off.
same_roots : mth toy entries ≡ mth toy other_entries
unfolding mth mth_fuel hash_leaf hash_node largest_pow2_below doubled
same_roots = refl

mth-injective_example : (entries ≡ other_entries) ⊎ Collision toy
mth-injective_example = mth-injective toy toy_length entries other_entries same_roots

verify_inclusion-path_example :
    verify_inclusion toy (2 ∷ []) 1 3 (path toy 1 entries) (mth toy entries) ≡ true
verify_inclusion-path_example = verify_inclusion-path toy entries 1 (2 ∷ []) refl

verify_inclusion_iff_example :
    (verify_inclusion toy (2 ∷ []) 1 3 (path toy 1 entries) (mth toy entries) ≡ true)
    ↔ ((1 < 3) × Climbs toy (hash_leaf toy (2 ∷ [])) 1 3 (path toy 1 entries) (mth toy entries))
verify_inclusion_iff_example =
    verify_inclusion_iff toy (2 ∷ []) 1 3 (path toy 1 entries) (mth toy entries)

digests : All IsDigest (path toy 1 entries)
unfolding path path_fuel mth mth_fuel hash_leaf hash_node largest_pow2_below doubled
digests = (refl, (refl, tt))

verify_inclusion_sound_example : (get_elem? entries 1 ≡ some (2 ∷ [])) ⊎ Collision toy
verify_inclusion_sound_example =
    verify_inclusion_sound toy toy_length entries (2 ∷ []) 1 (path toy 1 entries) digests
      (verify_inclusion-path toy entries 1 (2 ∷ []) refl)
