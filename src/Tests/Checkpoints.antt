-- ===== src/Tests/Checkpoints.antt =====
-- Examples for checkpoints and their witnesses.
use open_opticon.Common.{
  ◌+◌, ◌-◌, ◌≢◌, none, map, arith, length, ◌≡◌, ◌⊎◌, ◌↔◌, refl, true, false, some, List, [], ◌∷◌,
  All, get_elem?,
}
use open_opticon.Common.Bytes.{Bytes}
use open_opticon.Common.Results.{ok}
use open_opticon.Crypto.{verify_sig}
use open_opticon.Merkle.{
  mth, mth_fuel, path, path_fuel, hash_leaf, hash_node, largest_pow2_below, doubled,
}
use open_opticon.Merkle.Sound.{IsDigest, Collision}
use open_opticon.Merkle.Paths.{verify_inclusion-path}
use open_opticon.Quorum.{Prover}
use open_opticon.Checkpoint.{
  Format, checkpoint_body, Text, Checkpoint, Signed, Cosignature, parse_checkpoint, split_lines,
  trim_right, check_logged_endorsement, verify_checkpoint_witnesses, verify_equivocation,
}
use open_opticon.Checkpoint.Witnesses.{IsWitness, DistinctNames, verify_checkpoint_witnesses_lem}
use open_opticon.Checkpoint.Evidence.{
  IsEquivocation, verify_equivocation_iff, check_logged_endorsement_sound,
}
use open_opticon.Checkpoint.Lines.{IsLine}
use open_opticon.Checkpoint.RoundTrip.{IsInverse, IsPrintable, parse_checkpoint-checkpoint_body}
use open_opticon.Tests.Samples.{zeros, toy, toy_length, signature, key_x, key_y}

abbrev entries : List Bytes
entries = (1 ∷ []) ∷ (2 ∷ []) ∷ (3 ∷ []) ∷ []

-- The text library: every number is 3, and every root that of `entries`.
abbrev text : Text
text = record { atoi = λ _. some (false, 3); base64 = λ _. some (mth toy entries) }

-- "a\n3\nx\n".
abbrev body : Bytes
body = 0x61 ∷ 0x0a ∷ 0x33 ∷ 0x0a ∷ 0x78 ∷ 0x0a ∷ []

abbrev stated : Checkpoint
stated = record { origin = 0x61 ∷ []; size = 3; root = mth toy entries }

parsed : parse_checkpoint text body ≡ ok stated
unfolding parse_checkpoint split_lines trim_right mth mth_fuel hash_leaf hash_node
    largest_pow2_below doubled
parsed = refl

digests : All IsDigest (path toy 1 entries)
unfolding path path_fuel mth mth_fuel hash_leaf hash_node largest_pow2_below doubled
digests = (refl, (refl, tt))

signed : verify_sig toy body signature key_x key_y ≡ ok tt
unfolding verify_sig
signed = refl

endorsed :
    check_logged_endorsement toy text (2 ∷ []) 1 (path toy 1 entries) body signature key_x key_y
    ≡ ok tt
unfolding check_logged_endorsement
endorsed = rw (signed, parsed, verify_inclusion-path toy entries 1 (2 ∷ []) refl) refl

check_logged_endorsement_sound_example :
    (verify_sig toy body signature key_x key_y ≡ ok tt)
    × ((get_elem? entries 1 ≡ some (2 ∷ [])) ⊎ Collision toy)
check_logged_endorsement_sound_example =
    check_logged_endorsement_sound toy toy_length text entries stated (2 ∷ []) 1
      (path toy 1 entries) body signature key_x key_y digests parsed refl refl endorsed

abbrev half : Signed
half = record { body = body; sig = signature; key_x = key_x; key_y = key_y }

verify_equivocation_iff_example :
    ((verify_equivocation toy text half half).0 ≡ true) ↔ IsEquivocation toy text half half
verify_equivocation_iff_example = verify_equivocation_iff toy text half half

abbrev enrolled : List Prover
enrolled = record { name = 0x77 ∷ []; pub_x = key_x; pub_y = key_y } ∷ []

abbrev cosigs : List Cosignature
cosigs = record { witness = 0x77 ∷ []; pub_x = key_x; pub_y = key_y; sig = signature } ∷ []

verify_checkpoint_witnesses_lem_example :
    All (IsWitness toy body cosigs enrolled) (verify_checkpoint_witnesses toy body cosigs enrolled)
    × DistinctNames (verify_checkpoint_witnesses toy body cosigs enrolled)
verify_checkpoint_witnesses_lem_example = verify_checkpoint_witnesses_lem toy body cosigs enrolled

-- A number is one byte, and each byte of a root is shifted.
abbrev pub shifted_text : Text
shifted_text = record {
  atoi = λ s. elim s [ [] ↦ none | b ∷ rest ↦ some (false, b - 100) ];
  base64 = λ s. some (map (λ b. b - 100) s);
}

abbrev pub shifted : Format
shifted = record { itoa = λ n. (n + 100) ∷ []; encode64 = λ s. map (λ b. b + 100) s }

shift_back : (s : Bytes) → map (λ b. b - 100) (map (λ b. b + 100) s) ≡ s
shift_back [] = refl
shift_back (b ∷ s) = let e : (b + 100) - 100 ≡ b = omega arith in rw (e, shift_back s) refl

shift-IsLine : (s : Bytes) → IsLine (map (λ b. b + 100) s)
shift-IsLine [] = tt
shift-IsLine (b ∷ s) = (λ e. omega (arith, e), shift-IsLine s)

pub shifted-IsInverse : IsInverse shifted_text shifted
shifted-IsInverse = record {
  number = λ n h. (let e : (n + 100) - 100 ≡ n = omega arith in rw e refl);
  number_line = λ n. (λ e. omega (arith, e), tt);
  bytes = λ b a. rw (shift_back b) refl;
  bytes_line = shift-IsLine;
  not_empty = λ b full. not_empty_shift b full;
}
  where
    not_empty_shift : (b : Bytes) → length b ≢ 0 → length (map (λ x. x + 100) b) ≢ 0
    not_empty_shift [] full = full
    not_empty_shift (x ∷ b) full = λ e. omega (arith, e)

abbrev printed : Checkpoint
printed = record { origin = 0x61 ∷ []; size = 3; root = zeros }

printable : IsPrintable printed
printable = record {
  origin = ground arith;
  size = omega arith;
  root_bytes = ground arith;
  root_length = refl;
}

parse_checkpoint-checkpoint_body_example :
    parse_checkpoint shifted_text (checkpoint_body shifted printed) ≡ ok printed
parse_checkpoint-checkpoint_body_example =
    parse_checkpoint-checkpoint_body shifted_text shifted shifted-IsInverse printed printable
