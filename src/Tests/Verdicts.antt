-- ===== src/Tests/Verdicts.antt =====
-- Examples for the gates, the quorum and the challenge sessions.
use open_opticon.Common.{◌≡◌, ◌<◌, ◌↔◌, ◌⊎◌, refl, ap, true, none, some, [], ◌∷◌, get_elem?}
use open_opticon.Common.Bytes.{Bytes, bytes_eq}
use open_opticon.Common.Results.{ok}
use open_opticon.Hex.{hex_decode, hex_encode, hex_decode-hex_encode}
use open_opticon.Payload.{event_name}
use open_opticon.Payload.Encode.{encode_payload}
use open_opticon.Payload.Complete.{decode_payload-encode_payload}
use open_opticon.Bundle.{VerifyResult, verify_bundle}
use open_opticon.Bundle.Gates.{accepted}
use open_opticon.Bundle.Accept.{IsGenuine, verify_bundle-genuine, verify_bundle_iff}
use open_opticon.Bundle.Stream.{Collides, suppressed_window, verify_bundle-encode}
use open_opticon.Cose.{Sign1, CoseBundle, verify_cose_bundle, encode_cose_sign1}
use open_opticon.Cose.Accept.{verify_cose_bundle_iff}
use open_opticon.Quorum.{
  ProverInput, QuorumOptions, quorum_core, co_attest_core, collect_votes, match_key_hex, has_name,
  agreement, all_agree, collect_modalities,
}
use open_opticon.Quorum.Votes.{IsQuorum, quorum_core-IsQuorum}
use open_opticon.Quorum.Modalities.{IsCoAttested, co_attest_core-IsCoAttested}
use open_opticon.Session.{
  new_session, add_session, gc_locked, collect, store, handle_challenge, options_of, lookup,
}
use open_opticon.Session.Steps.{
  World, Reachable, start, next, challenge, find, check, finish, found, checked, committed, initial,
}
use open_opticon.Session.Bounds.{IsBounded, Reachable-IsBounded}
use open_opticon.Session.Replay.{Increasing, Reachable-Increasing}
use open_opticon.Tests.Samples.{
  toy, zeros, nonce, sample, sample-IsWire, sample_bytes, key_x, key_y, signature, sample_options,
  sample_bundle, sample_genuine,
}

verify_bundle_iff_example :
    ((verify_bundle toy sample_bundle sample_options).is_ok ≡ true)
    ↔ IsGenuine toy sample_bundle sample_options
verify_bundle_iff_example = verify_bundle_iff toy sample_bundle sample_options

accepted_sample : (verify_bundle toy sample_bundle sample_options).is_ok ≡ true
accepted_sample = (verify_bundle_iff toy sample_bundle sample_options).1 sample_genuine

suppressed_window_example : (zeros ≡ 0 ∷ []) ⊎ Collides toy zeros (0 ∷ [])
suppressed_window_example =
    suppressed_window toy sample_bundle sample_options accepted_sample zeros (0 ∷ [])
      (encode_payload sample) sample refl
      (hex_decode-hex_encode (encode_payload sample) sample_bytes)
      (decode_payload-encode_payload sample sample-IsWire) refl

verify_bundle-encode_example :
    (hex_decode sample_bundle.payload ≡ ok (encode_payload sample))
    × ((verify_bundle toy sample_bundle sample_options).next_digest
        ≡ some (toy.sha256 (encode_payload sample)))
    × (4 < 5)
verify_bundle-encode_example =
    verify_bundle-encode toy sample_bundle sample_options accepted_sample sample (
      ap (λ (r : VerifyResult). r.predicate)
        (verify_bundle-genuine toy sample_bundle sample_options sample_genuine))

abbrev cose_sample : CoseBundle
cose_sample = record {
  schema = [];
  cose = hex_encode (encode_cose_sign1 (encode_payload sample) signature);
  pub_x = hex_encode key_x;
  pub_y = hex_encode key_y;
}

verify_cose_bundle_iff_example :
    ((verify_cose_bundle toy cose_sample sample_options).is_ok ≡ true)
    ↔ open_opticon.Cose.Accept.IsGenuine toy cose_sample sample_options
verify_cose_bundle_iff_example = verify_cose_bundle_iff toy cose_sample sample_options

-- An input that verifies with `sample` under any options.
abbrev sample_input : ProverInput
sample_input = record {
  pub_x_hex = 0x31 ∷ 0x31 ∷ [];
  pub_y_hex = 0x32 ∷ 0x32 ∷ [];
  verify = λ _. accepted toy [] sample;
}

abbrev quorum_options : QuorumOptions
quorum_options = record {
  expected_nonce = nonce;
  roots = record { name = 0x61 ∷ []; pub_x = 0x11 ∷ []; pub_y = 0x22 ∷ [] } ∷ [];
  threshold = 1;
  last_counter = 4;
}

quorum_reached :
    (quorum_core (λ l. l) (sample_input ∷ sample_input ∷ []) quorum_options).is_ok ≡ true
unfolding quorum_core collect_votes match_key_hex hex_decode bytes_eq has_name agreement all_agree
    event_name
quorum_reached = refl

quorum_core-IsQuorum_example :
    IsQuorum quorum_options
      (sample_input ∷ sample_input ∷ [])
      (quorum_core (λ l. l) (sample_input ∷ sample_input ∷ []) quorum_options)
quorum_core-IsQuorum_example =
    quorum_core-IsQuorum (λ l. l) (λ P l h. h) quorum_options (sample_input ∷ sample_input ∷ [])
      quorum_reached

co_attested :
    (co_attest_core (λ l. l) (sample_input ∷ sample_input ∷ []) sample_options 1).is_ok ≡ true
unfolding co_attest_core collect_modalities bytes_eq hex_encode
co_attested = refl

co_attest_core-IsCoAttested_example :
    IsCoAttested
      (λ l. l)
      sample_options
      (sample_input ∷ sample_input ∷ [])
      1
      (co_attest_core (λ l. l) (sample_input ∷ sample_input ∷ []) sample_options 1)
co_attest_core-IsCoAttested_example =
    co_attest_core-IsCoAttested (λ l. l) (sample_input ∷ sample_input ∷ []) sample_options 1
      co_attested

-- One session, an attest with the sample bundle, and its commit.
abbrev sid : Bytes
sid = 0x73 ∷ []

abbrev challenged : World
challenged =
    let w = initial 300 none none in record w { server = (handle_challenge sid nonce 0 w.server).0 }

abbrev looked_up : World
looked_up = record challenged { requests = found sid 0 sample_bundle ∷ [] }

abbrev verdict : VerifyResult
verdict = verify_bundle toy sample_bundle (options_of challenged.server (new_session nonce 0))

abbrev snapshot : World
snapshot = record challenged { requests = checked sid 0 sample_bundle verdict ∷ [] }

abbrev answered : World
answered = committed snapshot [] sid 0 sample_bundle verdict

session_found : lookup sid challenged.server.sessions ≡ some 0
unfolding lookup handle_challenge add_session gc_locked collect store bytes_eq
session_found = refl

session_read : get_elem? challenged.server.heap 0 ≡ some (new_session nonce 0)
unfolding handle_challenge add_session gc_locked collect
session_read = refl

answered_reached : Reachable toy 300 none none answered
answered_reached =
    let r1 : Reachable toy 300 none none challenged = next start (challenge sid nonce 0) in
    let r2 : Reachable toy 300 none none looked_up =
      next r1 (find sid 0 sample_bundle session_found) in
    let r3 : Reachable toy 300 none none snapshot =
      next r2 (check sid 0 sample_bundle [] [] (new_session nonce 0) refl session_read) in
    next r3 (finish sid 0 sample_bundle verdict [] [] refl)

Reachable-Increasing_example : Increasing answered.passes
Reachable-Increasing_example = Reachable-Increasing toy 300 none none answered_reached

Reachable-IsBounded_example : IsBounded answered.server
Reachable-IsBounded_example = Reachable-IsBounded answered_reached
