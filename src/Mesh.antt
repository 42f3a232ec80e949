-- ===== src/Mesh.antt =====
-- src/verifier/cmd/he-witness/main.go: the daemon of a witness and its peers. The peers' answers are
-- arguments, and an action gives the state it leaves and the proofs it pushes.
pub mod Daemon
pub mod Handlers
pub mod Commands
pub mod Specs
pub mod Peers
pub mod Frame
pub mod Divergence
pub mod Evidence
pub mod Adopt
pub mod Flood
pub mod Spread
pub mod Steps
pub mod Atomic
pub mod Held
pub mod Invariant
use open_opticon.Common.{
  ℕ, Bool, true, false, not, ◌&&◌, ◌||◌, Option, none, some, List, [], ◌∷◌, ◌++◌, map, replicate,
  length, ltb, ◌==◌, if◌then◌else◌,
}
use open_opticon.Common.Bytes.{Bytes, bytes_eq}
use open_opticon.Common.Results.{Error, Result, ok, err}
use open_opticon.Hex.{hex_decode, hex_encode}
use open_opticon.Crypto.{Crypto}
use open_opticon.Merkle.{Digest}
use open_opticon.Checkpoint.{Text, Checkpoint, Cosignature, parse_checkpoint, verify_checkpoint_sig}
use open_opticon.Consistency.{verify_consistency}
use open_opticon.Witness.{Config, WitnessState, hex_root, decode_proof}

-- `peer`.
pub record Peer : Type 0 where
  pub name : Bytes
  pub url : Bytes
  pub pub_x : Bytes
  pub pub_y : Bytes

pub data CrossVerdict : Type 0 where
  cross_agree cross_equivocation cross_inconclusive : CrossVerdict

-- The reasons of `crossCheck`, with the sizes and roots that they print.
pub data CrossReason : Type 0 where
  no_local_view : CrossReason
  same_root : ℕ → CrossReason
  other_root : ℕ → Digest → Digest → CrossReason
  peer_ahead consistent_extension not_extension we_are_ahead : ℕ → ℕ → CrossReason

-- `peerCosigResp`.
pub record PeerCosigResp : Type 0 where
  pub witness : Bytes
  pub witness_pub_x : Bytes
  pub witness_pub_y : Bytes
  pub cosignature : Bytes
  pub checkpoint_body : Bytes

-- `equivCkpt`.
pub record EquivCkpt : Type 0 where
  pub witness : Bytes
  pub checkpoint_body : Bytes
  pub cosignature : Bytes
  pub witness_pub_x : Bytes
  pub witness_pub_y : Bytes

-- `equivProof`, whose schema is the constant `equivProofSchema` and is not read.
pub record EquivProof : Type 0 where
  pub a : EquivCkpt
  pub b : EquivCkpt

-- `hasView`, `ourSize` and `ourRoot`.
pub record View : Type 0 where
  pub has_view : Bool
  pub size : ℕ
  pub root : Digest

-- The case of `crossCheck` where the peer is ahead; `none` is the nil proof.
unfoldable pub check_extension :
    Crypto → View → ℕ → Digest → Option (List Digest) → CrossVerdict × CrossReason
check_extension c v peer_size peer_root none = (cross_inconclusive, peer_ahead peer_size v.size)
check_extension c v peer_size peer_root (some proof) =
    if verify_consistency c v.size peer_size proof v.root peer_root
    then (cross_agree, consistent_extension peer_size v.size)
    else (cross_equivocation, not_extension peer_size v.size)

-- `crossCheck`.
unfoldable pub cross_check :
    Crypto → View → ℕ → Digest → Option (List Digest) → CrossVerdict × CrossReason
unfolding check_extension
cross_check c v peer_size peer_root proof =
    if not v.has_view
    then (cross_inconclusive, no_local_view)
    else if peer_size == v.size
    then (if bytes_eq peer_root v.root
        then (cross_agree, same_root v.size)
        else (cross_equivocation, other_root v.size peer_root v.root))
    else if ltb v.size peer_size
    then check_extension c v peer_size peer_root proof
    else (cross_inconclusive, we_are_ahead v.size peer_size)

-- An entry of `peerStatus`.
pub data PeerStatus : Type 0 where
  unreachable : Error → PeerStatus
  bad_cosignature_hex not_under_pinned_key parse_or_origin_mismatch : PeerStatus
  judged : CrossVerdict → CrossReason → PeerStatus

-- What the world gives to one round of the daemon: the answers of the peers to `/cosignature` and
-- `/equivocation-proof`, and those of the log to `/consistency?from=n`.
pub record Answers : Type 0 where
  pub cosignature : Peer → Result PeerCosigResp
  pub proof : Peer → Result EquivProof
  pub consistency : ℕ → Result (List Bytes)

unfoldable pub fetched_proof : Result (List Bytes) → Option (List Digest)
fetched_proof (err e) = none
fetched_proof (ok hexes) = elim (decode_proof hexes) [ err e ↦ none | ok proof ↦ some proof ]

-- `peerProof` of `checkPeers`.
unfoldable pub proof_of_peer : Answers → View → ℕ → Option (List Digest)
unfolding fetched_proof
proof_of_peer net v peer_size =
    if v.has_view && ltb v.size peer_size then fetched_proof (net.consistency v.size) else none

-- The `equivCkpt` of a divergent peer, with the key that is pinned for it.
unfoldable pub peer_side : Peer → PeerCosigResp → EquivCkpt
peer_side p pr = record {
  witness = p.name;
  checkpoint_body = pr.checkpoint_body;
  cosignature = pr.cosignature;
  witness_pub_x = hex_encode p.pub_x;
  witness_pub_y = hex_encode p.pub_y;
}

-- The switch over the verdict: the B side is given at the same size only.
unfoldable pub judge :
    Peer → PeerCosigResp → View → ℕ → CrossVerdict × CrossReason → PeerStatus × Option EquivCkpt
unfolding peer_side
judge p pr v peer_size (cross_agree, why) = (judged cross_agree why, none)
judge p pr v peer_size (cross_inconclusive, why) = (judged cross_inconclusive why, none)
judge p pr v peer_size (cross_equivocation, why) =
    (judged cross_equivocation why, if peer_size == v.size then some (peer_side p pr) else none)

unfoldable pub check_parsed :
    Crypto
    → Config
    → Answers
    → View
    → Peer
    → PeerCosigResp
    → Result Checkpoint
    → PeerStatus × Option EquivCkpt
unfolding judge cross_check proof_of_peer
check_parsed c cfg net v p pr (err e) = (parse_or_origin_mismatch, none)
check_parsed c cfg net v p pr (ok cp) =
    if not (bytes_eq cp.origin cfg.origin)
    then (parse_or_origin_mismatch, none)
    else judge p pr v cp.size (cross_check c v cp.size cp.root (proof_of_peer net v cp.size))

unfoldable pub check_cosigned :
    Crypto
    → Text
    → Config
    → Answers
    → View
    → Peer
    → PeerCosigResp
    → Result Bytes
    → PeerStatus × Option EquivCkpt
unfolding check_parsed
check_cosigned c t cfg net v p pr (err e) = (bad_cosignature_hex, none)
check_cosigned c t cfg net v p pr (ok sig) =
    if not (verify_checkpoint_sig c pr.checkpoint_body sig p.pub_x p.pub_y)
    then (not_under_pinned_key, none)
    else check_parsed c cfg net v p pr (parse_checkpoint t pr.checkpoint_body)

unfoldable pub check_answer :
    Crypto
    → Text
    → Config
    → Answers
    → View
    → Peer
    → Result PeerCosigResp
    → PeerStatus × Option EquivCkpt
unfolding check_cosigned
check_answer c t cfg net v p (err e) = (unreachable e, none)
check_answer c t cfg net v p (ok pr) = check_cosigned c t cfg net v p pr (hex_decode pr.cosignature)

-- `status`, `anyEquiv` and `proofPeer`.
pub record Survey : Type 0 where
  pub status : List (Bytes × PeerStatus)
  pub any_equiv : Bool
  pub proof_peer : Option EquivCkpt

unfoldable pub is_equivocation : PeerStatus → Bool
is_equivocation (judged cross_equivocation why) = true
is_equivocation _ = false

unfoldable pub first_of : Option EquivCkpt → Option EquivCkpt → Option EquivCkpt
first_of (some a) b = some a
first_of none b = b

-- The loop of `checkPeers`; the names of peers are distinct.
unfoldable pub survey : Crypto → Text → Config → Answers → View → List Peer → Survey
unfolding check_answer is_equivocation first_of
survey c t cfg net v [] = record { status = []; any_equiv = false; proof_peer = none }
survey c t cfg net v (p ∷ peers) =
    let found = check_answer c t cfg net v p (net.cosignature p) in
    let rest = survey c t cfg net v peers in
    record {
      status = (p.name, found.0) ∷ rest.status;
      any_equiv = is_equivocation found.0 || rest.any_equiv;
      proof_peer = first_of found.1 rest.proof_peer;
    }

-- `ourRoot, _ = hexRoot(…)`: the zero array beside an error.
unfoldable pub view_root : Result Digest → Digest
view_root (err e) = replicate 32 0
view_root (ok r) = r

-- `hasView`, `ourSize` and `ourRoot` of a state that `loadState` or `advance` gave.
unfoldable pub view_of : WitnessState → View
unfolding view_root
view_of st = record {
  has_view = not (length st.root == 0);
  size = st.size;
  root = view_root (hex_root st.root);
}
