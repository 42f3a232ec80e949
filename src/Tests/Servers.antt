-- ===== src/Tests/Servers.antt =====
-- Examples for a witness that polls the server of an honest log.
use open_opticon.Common.{ℕ, ◌%◌, ◌≡◌, refl, arith, inr, [], ◌∷◌, ◌++◌, map, length, All}
use open_opticon.Common.Bytes.{Bytes, IsByte}
use open_opticon.Common.Results.{Result, ok}
use open_opticon.Hex.{hex_encode, hex_decode, hex_char, hex_digit, digit_of}
use open_opticon.Crypto.{Crypto, verify_sig, set_bytes, fill_bytes}
use open_opticon.Merkle.{mth, mth_fuel, hash_leaf, hash_node, largest_pow2_below, doubled}
use open_opticon.Checkpoint.{checkpoint_body, verify_checkpoint_sig}
use open_opticon.Witness.{WitnessState, poll, sign_note, hex_root, root_of}
use open_opticon.LogServer.{current, served}
use open_opticon.LogServer.Honest.{CanServe, SawPrefix, Accepts, honest_log_is_accepted}
use open_opticon.Tests.Samples.{toy, toy_length}
use open_opticon.Tests.Polls.{config, two, three}
use open_opticon.Tests.Checkpoints.{shifted_text, shifted, shifted-IsInverse}

-- The digest of `toy`, as bytes.
abbrev small : Crypto
small = record toy { sha256 = λ b. map (λ x. x % 256) (toy.sha256 b) }

reduced-IsByte : (l : Bytes) → All IsByte (map (λ x. x % 256) l)
reduced-IsByte [] = tt
reduced-IsByte (x ∷ l) = (omega arith, reduced-IsByte l)

length-reduced : (l : Bytes) → length (map (λ x. x % 256) l) ≡ length l
length-reduced [] = refl
length-reduced (x ∷ l) = omega (arith, length-reduced l)

small_digest : (b : Bytes) → All IsByte (small.sha256 b) × (length (small.sha256 b) ≡ 32)
small_digest b =
    (reduced-IsByte (toy.sha256 b), omega (arith, length-reduced (toy.sha256 b), toy_length b))

abbrev signing : Bytes → Result (ℕ × ℕ)
signing h = ok (1, 2)

abbrev made : Bytes
made = fill_bytes 32 1 ++ fill_bytes 32 2

can_serve : CanServe small shifted_text shifted config three signing signing
unfolding sign_note verify_checkpoint_sig verify_sig set_bytes fill_bytes
can_serve = record {
  inverse = shifted-IsInverse;
  origin = ground arith;
  size = omega arith;
  not_empty = omega arith;
  sig = made;
  signed = refl;
  sig_bytes = ground arith;
  verified = refl;
  cosig = made;
  cosigns = refl;
}

abbrev saw_two : WitnessState
saw_two = record { origin = config.origin; size = 2; root = hex_encode (mth small two) }

saw_prefix : SawPrefix small three saw_two
unfolding hex_root root_of hex_encode hex_decode hex_char hex_digit digit_of mth mth_fuel hash_leaf
    hash_node largest_pow2_below doubled
saw_prefix = record { size = omega arith; view = inr refl }

honest_log_is_accepted_example :
    Accepts small three (checkpoint_body shifted (current small config.origin three)) (
      poll small shifted_text config
        (served small shifted config.origin signing (ok three) (ok three) signing)
        saw_two)
honest_log_is_accepted_example =
    honest_log_is_accepted small small_digest shifted_text shifted config three signing signing
      can_serve (ok three) saw_two saw_prefix (λ seen less. refl)
