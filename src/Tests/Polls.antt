-- ===== src/Tests/Polls.antt =====
-- Examples for the polls of a witness: a first sight, and an extension by a third entry.
use open_opticon.Common.{
  ℕ, ◌≡◌, ◌⊎◌, refl, arith, Bool, false, Bool-cases, inl, inr, some, List, [], ◌∷◌, All, ◌==◌,
  if◌then◌else◌,
}
use open_opticon.Common.Bytes.{Bytes, bytes_eq}
use open_opticon.Common.Results.{ok}
use open_opticon.Hex.{hex_encode, hex_decode, hex_char, hex_digit, digit_of}
use open_opticon.Crypto.{verify_sig, set_bytes}
use open_opticon.Merkle.{mth, mth_fuel, hash_leaf, hash_node, largest_pow2_below, doubled, strip}
use open_opticon.Merkle.Sound.{Collision}
use open_opticon.Checkpoint.{
  Text, parse_checkpoint, parse_lines, checkpoint_size, checkpoint_root, split_lines, onto_first,
  trim_right, verify_checkpoint_sig,
}
use open_opticon.Consistency.{verify_consistency, walk, walk_step, walk_from_first, strip_odd}
use open_opticon.Witness.{
  Config, LogWorld, WitnessState, baseline, poll, poll_fetched, poll_signed, poll_parsed, carry_out,
  decide_poll, decide_against, decide_extension, decode_proof, hex_root, root_of, advance, accept,
  cosigned, sign_note,
}
use open_opticon.Witness.Outcome.{Outcome, poll-Outcome}
use open_opticon.Checkpoint.Parsed.{DecodesBytes}
use open_opticon.Witness.History.{
  History, begun, polled, noted, IsBelow, Descending, Supersedes, cosigns-IsBelow,
  never_cosigns_fork,
}
use open_opticon.Witness.History.Refine.{IsPrefixOf, IsView, cosigned_prefixes}
use open_opticon.Tests.Samples.{toy, toy_length, signature, key_x, key_y}

abbrev pub two : List Bytes
two = (1 ∷ []) ∷ (2 ∷ []) ∷ []

abbrev pub three : List Bytes
three = (1 ∷ []) ∷ (2 ∷ []) ∷ (3 ∷ []) ∷ []

abbrev starts : ℕ → Bytes → Bool
starts b [] = false
starts b (x ∷ s) = x == b

-- The text library: a number that starts with '2' is 2 and any other one 3, and a root that starts
-- with 'y' is that of `two` and any other one that of `three`.
abbrev pub text : Text
text = record {
  atoi = λ s. some (false, if starts b'2' s then 2 else 3);
  base64 = λ s. some (if starts b'y' s then mth toy two else mth toy three);
}

pub text_bytes : DecodesBytes text
unfolding mth mth_fuel hash_leaf hash_node largest_pow2_below doubled
text_bytes s bs h = elim (Bool-cases (starts b'y' s)) [
  | inl y ↦ let h' = rw y at h in let e : mth toy two ≡ bs = ground arith in rw (← e) (ground arith)
  | inr n ↦
      let h' = rw n at h in let e : mth toy three ≡ bs = ground arith in rw (← e) (ground arith)
]

-- "a\n2\ny\n", "a\n3\nx\n" and "a\n3\ny\n".
abbrev pub body_two : Bytes
body_two = 0x61 ∷ 0x0a ∷ 0x32 ∷ 0x0a ∷ 0x79 ∷ 0x0a ∷ []

abbrev pub body_three : Bytes
body_three = 0x61 ∷ 0x0a ∷ 0x33 ∷ 0x0a ∷ 0x78 ∷ 0x0a ∷ []

abbrev pub body_fork : Bytes
body_fork = 0x61 ∷ 0x0a ∷ 0x33 ∷ 0x0a ∷ 0x79 ∷ 0x0a ∷ []

abbrev pub config : Config
config = record {
  name = 0x77 ∷ [];
  origin = 0x61 ∷ [];
  log_x = key_x;
  log_y = key_y;
  pub_x = key_x;
  pub_y = key_y;
}

abbrev pub serving : Bytes → LogWorld
serving body = record {
  checkpoint = ok (record { body = body; sig = hex_encode signature });
  consistency = λ n. ok (hex_encode (hash_leaf toy (3 ∷ [])) ∷ []);
  sign = λ h. ok (1, 2);
}

abbrev st_two : WitnessState
st_two = (poll toy text config (serving body_two) baseline).1

abbrev pub st_three : WitnessState
st_three = (poll toy text config (serving body_three) st_two).1

abbrev notes : List Bytes
notes =
    noted (poll toy text config (serving body_three) st_two).0
      (noted (poll toy text config (serving body_two) baseline).0 [])

run : History toy text config baseline st_three notes
run = polled (serving body_three) (polled (serving body_two) begun)

both_cosigned : notes ≡ body_three ∷ body_two ∷ []
unfolding noted poll poll_fetched poll_signed poll_parsed carry_out decide_poll decide_against
    decide_extension decode_proof hex_root root_of advance accept cosigned sign_note
    verify_checkpoint_sig verify_sig set_bytes parse_checkpoint parse_lines checkpoint_size
    checkpoint_root split_lines onto_first trim_right hex_encode hex_decode hex_char hex_digit
    digit_of bytes_eq verify_consistency walk walk_step walk_from_first strip_odd strip mth mth_fuel
    hash_leaf hash_node largest_pow2_below doubled
both_cosigned = refl

is_view : IsView toy three st_three
unfolding noted poll poll_fetched poll_signed poll_parsed carry_out decide_poll decide_against
    decide_extension decode_proof hex_root root_of advance accept cosigned sign_note
    verify_checkpoint_sig verify_sig set_bytes parse_checkpoint parse_lines checkpoint_size
    checkpoint_root split_lines onto_first trim_right hex_encode hex_decode hex_char hex_digit
    digit_of bytes_eq verify_consistency walk walk_step walk_from_first strip_odd strip mth mth_fuel
    hash_leaf hash_node largest_pow2_below doubled
is_view = record { root = refl; size = refl }

poll-Outcome_example :
    Outcome toy text config
      (serving body_two)
      baseline
      (poll toy text config (serving body_two) baseline).0
      (poll toy text config (serving body_two) baseline).1
poll-Outcome_example = poll-Outcome toy text config (serving body_two) baseline

cosigns-IsBelow_example : All (IsBelow toy text config st_three) notes
cosigns-IsBelow_example = cosigns-IsBelow toy text text_bytes config run

never_cosigns_fork_example : Descending (Supersedes text) notes
never_cosigns_fork_example = never_cosigns_fork toy text text_bytes config run

cosigned_prefixes_example : All (IsPrefixOf toy text three) notes ⊎ Collision toy
cosigned_prefixes_example =
    cosigned_prefixes toy toy_length text text_bytes config run three is_view
