-- ===== src/Tests/Daemons.antt =====
-- Examples for the daemon: a split view of the log at size 3, which a peer cosigned, and its flood.
use open_opticon.Common.{
  subst, sym, inl, ℕ, zero, suc, ◌+◌, ◌≡◌, ◌↔◌, refl, arith, Bool, true, false, Option, none, some,
  List, [], ◌∷◌, ◌++◌,
}
use open_opticon.Common.Bytes.{Bytes, bytes_eq}
use open_opticon.Common.Results.{ok}
use open_opticon.Hex.{hex_encode, hex_decode, hex_char, hex_digit, digit_of}
use open_opticon.Crypto.{verify_sig, set_bytes}
use open_opticon.Merkle.{mth, mth_fuel, hash_leaf, hash_node, largest_pow2_below, doubled}
use open_opticon.Quorum.Votes.{In}
use open_opticon.Checkpoint.{
  verify_equivocation, compare_checkpoints, parse_checkpoint, parse_lines, checkpoint_size,
  checkpoint_root, split_lines, onto_first, trim_right, verify_checkpoint_sig,
}
use open_opticon.Witness.{hex_root, root_of}
use open_opticon.Mesh.{
  Peer, PeerCosigResp, EquivProof, Answers, survey, view_of, view_root, check_answer,
  check_cosigned, check_parsed, judge, cross_check, peer_side, proof_of_peer, first_of,
  is_equivocation,
}
use open_opticon.Mesh.Daemon.{
  Daemon, Latest, no_error, fresh_proof, own_side, pinned_key, peer_key, try_adopt, judge_proof,
  judge_keys, judge_sides, pinned_side, is_about, latch, record_proof, proof_key, string_gt,
  has_key,
}
use open_opticon.Mesh.Handlers.{handle_health}
use open_opticon.Mesh.Divergence.{IsDivergent, survey-IsDivergent}
use open_opticon.Mesh.Evidence.{IsEvidence}
use open_opticon.Mesh.Adopt.{Effect, IsCosigned, Trusts, try_adopt_lem, assembled_proof_is_adopted}
use open_opticon.Mesh.Steps.{here, next, posted, alarm_is_permanent}
use open_opticon.Mesh.Held.{IsFresh, IsSound}
use open_opticon.Mesh.Invariant.{daemon-IsSound}
use open_opticon.Mesh.Flood.{
  Deliveries, receive, Network, quiet, delivery, deliver, pending, flood_terminates,
}
use open_opticon.Mesh.Commands.{peer_flag}
use open_opticon.Mesh.Spread.{Has, Spreads, flood_convinces_peers}
use open_opticon.Tests.Samples.{toy, signature, key_x, key_y}
use open_opticon.Tests.Polls.{text, three, config, body_three, body_fork}

abbrev peer : Peer
peer = record { name = 0x76 ∷ []; url = []; pub_x = key_x; pub_y = key_y }

abbrev own : Latest
own = record {
  body = body_three;
  cosignature = record { witness = 0x77 ∷ []; pub_x = key_x; pub_y = key_y; sig = signature };
}

abbrev daemon : Bool → Option Latest → Daemon
daemon alarm latest = record {
  cfg = config;
  peers = peer ∷ [];
  st = record { origin = 0x61 ∷ []; size = 3; root = hex_encode (mth toy three) };
  latest = latest;
  last_err = no_error;
  health_ok = true;
  peer_status = [];
  equivocation = alarm;
  proof = none;
  proofs = [];
  seen_proof = [];
}

abbrev forked : PeerCosigResp
forked = record {
  witness = 0x76 ∷ [];
  witness_pub_x = [];
  witness_pub_y = [];
  cosignature = hex_encode signature;
  checkpoint_body = body_fork;
}

abbrev split_view : EquivProof
split_view = record { a = own_side own; b = peer_side peer forked }

abbrev answers : Answers
answers = record {
  cosignature = λ q. ok forked;
  proof = λ q. ok split_view;
  consistency = λ n. ok [];
}

alarm_is_permanent_example :
    ((handle_health (try_adopt toy text split_view (daemon true none)).1.0).0 ≡ 503)
    × ((handle_health (try_adopt toy text split_view (daemon true none)).1.0).1.ok ≡ false)
alarm_is_permanent_example =
    alarm_is_permanent toy text {d = daemon true none} refl (next here (posted split_view))

fresh : IsFresh (daemon false none)
fresh = record { proof = refl; proofs = refl; seen_proof = refl }

daemon-IsSound_example :
    IsSound toy
      (try_adopt toy text split_view (daemon false none)).1.0
      ([] ++ (try_adopt toy text split_view (daemon false none)).1.1)
daemon-IsSound_example = daemon-IsSound toy text fresh (next here (posted split_view))

try_adopt_lem_example :
    (((try_adopt toy text split_view (daemon false none)).0.0 ≡ true)
      ↔ IsEvidence toy text (daemon false none) split_view)
    × Effect split_view
        (try_adopt toy text split_view (daemon false none)).0.0
        (daemon false none).proof
        (daemon false none)
        (try_adopt toy text split_view (daemon false none)).1
try_adopt_lem_example = try_adopt_lem toy text (daemon false none) split_view

found :
    (survey toy text config answers (view_of (daemon false none).st) (peer ∷ [])).proof_peer
    ≡ some (peer_side peer forked)
unfolding survey view_of view_root hex_root root_of check_answer check_cosigned check_parsed judge
    cross_check peer_side proof_of_peer first_of is_equivocation verify_checkpoint_sig verify_sig
    set_bytes parse_checkpoint parse_lines checkpoint_size checkpoint_root split_lines onto_first
    trim_right hex_encode hex_decode hex_char hex_digit digit_of bytes_eq mth mth_fuel hash_leaf
    hash_node largest_pow2_below doubled
found = refl

survey-IsDivergent_example :
    ((p : Peer) × In p (peer ∷ [])
      × IsDivergent toy text config answers
          (view_of (daemon false none).st)
          p
          (peer_side peer forked))
    × ((survey toy text config answers (view_of (daemon false none).st) (peer ∷ [])).any_equiv
        ≡ true)
survey-IsDivergent_example =
    survey-IsDivergent toy text config answers (view_of (daemon false none).st) (peer ∷ [])
      (peer_side peer forked) found

IsCosigned-view : IsCosigned toy text (daemon false (some own)) own
unfolding hex_root root_of verify_checkpoint_sig verify_sig set_bytes parse_checkpoint parse_lines
    checkpoint_size checkpoint_root split_lines onto_first trim_right hex_encode hex_decode hex_char
    hex_digit digit_of bytes_eq mth mth_fuel hash_leaf hash_node largest_pow2_below doubled
IsCosigned-view = record {
  cp = record { origin = 0x61 ∷ []; size = 3; root = mth toy three };
  parsed = refl;
  watched = refl;
  size = refl;
  root = refl;
  named = refl;
  signature = refl;
  sig_bytes = ground arith;
}

trusts : Trusts (daemon false none) (daemon false (some own))
unfolding pinned_key peer_key bytes_eq
trusts = record { origin = refl; own_key = refl; peer_keys = λ q at. only_peer q at }
  where
    only_peer :
        (q : Peer)
        → In q (peer ∷ [])
        → pinned_key (daemon false none) q.name ≡ some (q.pub_x, q.pub_y)
    only_peer q (zero, e) = let s : peer ≡ q = ground arith in rw (← s) refl
    only_peer q (suc i, e) = cc

assembled :
    fresh_proof
      (survey toy text config answers (view_of (daemon false none).st) (peer ∷ [])).proof_peer
      none
      (some own)
    ≡ some split_view
unfolding fresh_proof
assembled = rw found refl

assembled_proof_is_adopted_example : (try_adopt toy text split_view (daemon false none)).0.0 ≡ true
assembled_proof_is_adopted_example =
    assembled_proof_is_adopted toy text answers (daemon false (some own)) (daemon false none)
      split_view own trusts refl IsCosigned-view assembled

abbrev network : Network
network = record { nodes = daemon false none ∷ []; wire = (0, split_view) ∷ [] }

abbrev address : Peer → ℕ
address q = 0

flood_terminates_example :
    1 + pending (deliver toy text address (daemon false none ∷ []) (0, split_view) [])
    ≡ pending network
flood_terminates_example =
    flood_terminates toy text address {n = network}
      (delivery (daemon false none ∷ []) [] [] (0, split_view) quiet)

abbrev adopted_once : Daemon
adopted_once = (try_adopt toy text split_view (daemon false none)).1.0

abbrev adopted_twice : Daemon
adopted_twice = (try_adopt toy text split_view adopted_once).1.0

abbrev flooded : Network
flooded = record { nodes = adopted_twice ∷ []; wire = [] }

holds_none : Spreads toy text address network
holds_none zero d p q e at held mine ae =
    let s : daemon false none ≡ d = ground arith in
    let n : none ≡ some p = subst (λ x. x.proof ≡ some p) (sym s) held in cc
holds_none (suc i) d p q e at held mine ae = cc

flooding : Deliveries toy text address network 2 flooded
unfolding deliver receive try_adopt judge_proof judge_keys judge_sides pinned_side pinned_key
    peer_key is_about latch record_proof proof_key string_gt has_key verify_equivocation
    compare_checkpoints own_side peer_side hex_root root_of verify_checkpoint_sig verify_sig
    set_bytes parse_checkpoint parse_lines checkpoint_size checkpoint_root split_lines onto_first
    trim_right hex_encode hex_decode hex_char hex_digit digit_of bytes_eq mth mth_fuel hash_leaf
    hash_node largest_pow2_below doubled
flooding =
    delivery (adopted_once ∷ []) [] [] (0, split_view)
      (delivery (daemon false none ∷ []) [] [] (0, split_view) quiet)

evidence : (try_adopt toy text split_view adopted_twice).0.0 ≡ true
unfolding deliver receive try_adopt judge_proof judge_keys judge_sides pinned_side pinned_key
    peer_key is_about latch record_proof proof_key string_gt has_key verify_equivocation
    compare_checkpoints own_side peer_side hex_root root_of verify_checkpoint_sig verify_sig
    set_bytes parse_checkpoint parse_lines checkpoint_size checkpoint_root split_lines onto_first
    trim_right hex_encode hex_decode hex_char hex_digit digit_of bytes_eq mth mth_fuel hash_leaf
    hash_node largest_pow2_below doubled
evidence = refl

held_proof : adopted_twice.proof ≡ some split_view
unfolding try_adopt judge_proof judge_keys judge_sides pinned_side pinned_key peer_key is_about
    latch record_proof proof_key string_gt has_key verify_equivocation compare_checkpoints own_side
    peer_side hex_root root_of verify_checkpoint_sig verify_sig set_bytes parse_checkpoint
    parse_lines checkpoint_size checkpoint_root split_lines onto_first trim_right hex_encode
    hex_decode hex_char hex_digit digit_of bytes_eq mth mth_fuel hash_leaf hash_node
    largest_pow2_below doubled
held_proof = refl

own_peer : Has peer adopted_twice.peers
unfolding try_adopt judge_proof judge_keys judge_sides pinned_side pinned_key peer_key is_about
    latch record_proof proof_key string_gt has_key verify_equivocation compare_checkpoints own_side
    peer_side hex_root root_of verify_checkpoint_sig verify_sig set_bytes parse_checkpoint
    parse_lines checkpoint_size checkpoint_root split_lines onto_first trim_right hex_encode
    hex_decode hex_char hex_digit digit_of bytes_eq mth mth_fuel hash_leaf hash_node
    largest_pow2_below doubled
own_peer = inl refl

flood_convinces_peers_example : adopted_twice.equivocation ≡ true
flood_convinces_peers_example =
    flood_convinces_peers toy text address holds_none flooding refl 0 adopted_twice split_view peer
      adopted_twice refl held_proof own_peer refl
      ((try_adopt_lem toy text adopted_twice split_view).0.0 evidence)

-- "v,,11,22" and "w,/,11,22".
abbrev spec : Bytes
spec = 0x76 ∷ 0x2c ∷ 0x2c ∷ 0x31 ∷ 0x31 ∷ 0x2c ∷ 0x32 ∷ 0x32 ∷ []

abbrev other_spec : Bytes
other_spec = 0x77 ∷ 0x2c ∷ 0x2f ∷ 0x2c ∷ 0x31 ∷ 0x31 ∷ 0x2c ∷ 0x32 ∷ 0x32 ∷ []

abbrev parsed : List Peer
parsed = peer ∷ record peer { name = 0x77 ∷ [] } ∷ []

abbrev flags : List Bytes
flags = peer_flag ∷ spec ∷ peer_flag ∷ other_spec ∷ []
