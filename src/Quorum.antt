-- ===== src/Quorum.antt =====
-- src/verifier/quorum.go: k-of-n quorum and co-attestation. The map `passed` and the set
-- `seenInput` are association lists; Go's `sort.Strings` is the parameter `sort`.
pub mod Votes
pub mod Modalities
use open_opticon.Common.{
  ℕ, suc, ◌+◌, Bool, true, false, not, ◌&&◌, ◌||◌, Option, none, some, List, [], ◌∷◌, ◌++◌, length,
  ltb, leb, ◌==◌, if◌then◌else◌, map,
}
use open_opticon.Common.Bytes.{Bytes, bytes_eq}
use open_opticon.Common.Results.{Result, ok, err}
use open_opticon.Hex.{hex_decode, hex_encode}
use open_opticon.Payload.{Predicate, EventName, event_name, alarm_tone, voice, quiet}
use open_opticon.Crypto.{Crypto}
use open_opticon.Bundle.{VerifyResult, Options, Bundle, verify_bundle}
use open_opticon.Cose.{CoseBundle, verify_cose_bundle}

pub record Prover : Type 0 where
  pub name : Bytes
  pub pub_x : Bytes
  pub pub_y : Bytes

pub record QuorumOptions : Type 0 where
  pub expected_nonce : Bytes
  pub roots : List Prover
  pub threshold : ℕ
  pub last_counter : ℕ

pub data QuorumReason : Type 0 where
  bad_threshold : QuorumReason
  too_few : ℕ → ℕ → QuorumReason
  disagree : QuorumReason
  reached : QuorumReason

pub record QuorumResult : Type 0 where
  pub is_ok : Bool
  pub reason : QuorumReason
  pub event : Option EventName
  pub passed_roots : List Bytes

-- The loop of `matchKeyHex`.
unfoldable pub match_key : Bytes → Bytes → List Prover → Option Prover
match_key px py [] = none
match_key px py (r ∷ roots) =
    let found = match_key px py roots in
    if bytes_eq px r.pub_x && bytes_eq py r.pub_y then some r else found

unfoldable pub match_decoded : Result Bytes → Result Bytes → List Prover → Option Prover
unfolding match_key
match_decoded (ok px) (ok py) roots = match_key px py roots
match_decoded (ok px) (err e) roots = none
match_decoded (err e) y roots = none

-- `matchKeyHex`.
unfoldable pub match_key_hex : Bytes → Bytes → List Prover → Option Prover
unfolding match_decoded
match_key_hex x y roots = match_decoded (hex_decode x) (hex_decode y) roots

-- `proverInput`.
pub record ProverInput : Type 0 where
  pub pub_x_hex : Bytes
  pub pub_y_hex : Bytes
  pub verify : Options → VerifyResult

-- `rawInput`, and the input for a COSE_Sign1 envelope.
unfoldable pub raw_input : Crypto → Bundle → ProverInput
raw_input c b = record { pub_x_hex = b.pub_x; pub_y_hex = b.pub_y; verify = verify_bundle c b }

unfoldable pub cose_input : Crypto → CoseBundle → ProverInput
cose_input c b = record {
  pub_x_hex = b.pub_x;
  pub_y_hex = b.pub_y;
  verify = verify_cose_bundle c b;
}

-- `_, done := passed[name]`.
unfoldable pub has_name : Bytes → List (Bytes × Predicate) → Bool
has_name name [] = false
has_name name (v ∷ votes) = bytes_eq v.0 name || has_name name votes

abbrev pub root_options : QuorumOptions → Prover → Options
root_options q root = record {
  expected_nonce = q.expected_nonce;
  pin_pub_x = some root.pub_x;
  pin_pub_y = some root.pub_y;
  last_counter = q.last_counter;
  expected_prev_digest = none;
}

-- `if res.OK { passed[root.Name] = res.Predicate }`; an accepted result has a predicate.
unfoldable pub add_vote : Bytes → VerifyResult → List (Bytes × Predicate) → List (Bytes × Predicate)
add_vote name res votes =
    if res.is_ok then elim res.predicate [ none ↦ votes | some p ↦ (name, p) ∷ votes ] else votes

-- One round of the loop of `quorumCore`.
unfoldable pub vote :
    QuorumOptions
    → ProverInput
    → Option Prover
    → List (Bytes × Predicate)
    → List (Bytes × Predicate)
unfolding add_vote
vote q pi none votes = votes
vote q pi (some root) votes =
    if has_name root.name votes
    then votes
    else add_vote root.name (pi.verify (root_options q root)) votes

unfoldable pub collect_votes :
    QuorumOptions → List ProverInput → List (Bytes × Predicate) → List (Bytes × Predicate)
unfolding vote
collect_votes q [] votes = votes
collect_votes q (pi ∷ rest) votes =
    collect_votes q rest (vote q pi (match_key_hex pi.pub_x_hex pi.pub_y_hex q.roots) votes)

unfoldable pub same_event : EventName → EventName → Bool
same_event alarm_tone alarm_tone = true
same_event voice voice = true
same_event quiet quiet = true
same_event alarm_tone voice = false
same_event alarm_tone quiet = false
same_event voice alarm_tone = false
same_event voice quiet = false
same_event quiet alarm_tone = false
same_event quiet voice = false

-- The loop that looks for another event.
unfoldable pub all_agree : EventName → List (Bytes × Predicate) → Bool
unfolding same_event
all_agree e [] = true
all_agree e (v ∷ votes) = same_event (event_name v.1) e && all_agree e votes

abbrev pub no_quorum : QuorumReason → QuorumResult
no_quorum r = record { is_ok = false; reason = r; event = none; passed_roots = [] }

-- The agreement, over the votes in the order of their names.
unfoldable pub agreement : List (Bytes × Predicate) → QuorumResult
agreement [] = no_quorum disagree
agreement (v ∷ votes) =
    if all_agree (event_name v.1) (v ∷ votes)
    then record {
      is_ok = true;
      reason = reached;
      event = some (event_name v.1);
      passed_roots = map (λ (x : Bytes × Predicate). x.0) (v ∷ votes);
    }
    else no_quorum disagree

-- `sort.Strings` carries the votes into the order of their names.
module _ (sort : List (Bytes × Predicate) → List (Bytes × Predicate)) where
  -- `quorumCore`.
  unfoldable pub quorum_core : List ProverInput → QuorumOptions → QuorumResult
  quorum_core provers q =
      let votes = collect_votes q provers [] in
      if q.threshold == 0 || ltb (length q.roots) q.threshold
      then no_quorum bad_threshold
      else if ltb (length votes) q.threshold
      then no_quorum (too_few (length votes) q.threshold)
      else agreement (sort votes)

  -- `VerifyQuorum`.
  unfoldable pub verify_quorum : Crypto → List Bundle → QuorumOptions → QuorumResult
  verify_quorum c bundles q = quorum_core (map (raw_input c) bundles) q

pub data CoReason : Type 0 where
  zero_threshold : CoReason
  too_few_modalities : ℕ → ℕ → CoReason
  co_reached : CoReason

pub record CoAttestation : Type 0 where
  pub is_ok : Bool
  pub reason : CoReason
  pub modalities : List EventName

-- `seenInput[ih]`, on the modalities accepted so far.
unfoldable pub seen_input : Bytes → List (Bytes × EventName) → Bool
seen_input ih [] = false
seen_input ih (m ∷ seen) = bytes_eq m.0 ih || seen_input ih seen

-- One round of the loop of `coAttestCore`; the modalities are newest first.
unfoldable pub add_modality : VerifyResult → List (Bytes × EventName) → List (Bytes × EventName)
unfolding seen_input
add_modality res seen =
    if res.is_ok
    then elim res.predicate [
      | none ↦ seen
      | some p ↦
          (if seen_input (hex_encode p.input_hash) seen
            then seen
            else (hex_encode p.input_hash, event_name p) ∷ seen)
    ]
    else seen

unfoldable pub collect_modalities :
    Options → List ProverInput → List (Bytes × EventName) → List (Bytes × EventName)
unfolding add_modality
collect_modalities opt [] seen = seen
collect_modalities opt (pi ∷ rest) seen =
    collect_modalities opt rest (add_modality (pi.verify opt) seen)

module _ (sort : List EventName → List EventName) where
  -- `coAttestCore`.
  unfoldable pub co_attest_core : List ProverInput → Options → ℕ → CoAttestation
  co_attest_core provers opt threshold =
      let seen = collect_modalities opt provers [] in
      if threshold == 0
      then record { is_ok = false; reason = zero_threshold; modalities = [] }
      else if ltb (length seen) threshold
      then record {
        is_ok = false;
        reason = too_few_modalities (length seen) threshold;
        modalities = [];
      }
      else record {
        is_ok = true;
        reason = co_reached;
        modalities = sort (map (λ (m : Bytes × EventName). m.1) seen);
      }
