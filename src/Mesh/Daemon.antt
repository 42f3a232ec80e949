-- ===== src/Mesh/Daemon.antt =====
-- src/verifier/cmd/he-witness/main.go: the state of the daemon and its actions. `once`, `checkPeers`
-- and `pullPeerProofs` run in one goroutine and are the only ones to use `st` and `latest`, so that
-- what `checkPeers` reads before its calls still stands when it takes the lock again: its effect is
-- one action. `tryAdopt` also runs in the handler of the intake.
use open_opticon.Common.{
  ℕ, Bool, true, false, not, ◌&&◌, ◌||◌, Option, none, some, List, [], ◌∷◌, ◌++◌, map, length, ltb,
  ◌==◌, if◌then◌else◌,
}
use open_opticon.Common.Bytes.{Bytes, bytes_eq}
use open_opticon.Common.Results.{Error, Result, ok, err}
use open_opticon.Hex.{hex_decode, hex_encode}
use open_opticon.Crypto.{Crypto}
use open_opticon.Checkpoint.{
  Text, Checkpoint, Cosignature, Finding, Signed, parse_checkpoint, verify_equivocation,
}
use open_opticon.Witness.{
  Config, LogWorld, WitnessState, PollResult, refused, accepted, Refusal, poll,
}
use open_opticon.Mesh.{Peer, EquivCkpt, EquivProof, Answers, PeerStatus, Survey, survey, view_of}

-- `latest`: the body and the cosignature of an accepted result.
pub record Latest : Type 0 where
  pub body : Bytes
  pub cosignature : Cosignature

pub data LastError : Type 0 where
  no_error state_save_failed : LastError
  poll_error : Error → LastError
  poll_refused : Refusal → LastError

-- `daemon`; `seen_proof` lists the keys that map to true.
pub record Daemon : Type 0 where
  pub cfg : Config
  pub peers : List Peer
  pub st : WitnessState
  pub latest : Option Latest
  pub last_err : LastError
  pub health_ok : Bool
  pub peer_status : List (Bytes × PeerStatus)
  pub equivocation : Bool
  pub proof : Option EquivProof
  pub proofs : List EquivProof
  pub seen_proof : List Bytes

abbrev pub max_retained_proofs : ℕ
max_retained_proofs = 64

-- `a > b` on strings.
unfoldable pub string_gt : Bytes → Bytes → Bool
string_gt [] b = false
string_gt (x ∷ a) [] = true
string_gt (x ∷ a) (y ∷ b) = ltb y x || x == y && string_gt a b

-- "||".
abbrev pub bars : Bytes
bars = 0x7c ∷ 0x7c ∷ []

-- `proofKey`.
unfoldable pub proof_key : Crypto → EquivProof → Bytes
unfolding string_gt
proof_key c p =
    if string_gt p.a.checkpoint_body p.b.checkpoint_body
    then hex_encode (c.sha256 (p.b.checkpoint_body ++ bars ++ p.a.checkpoint_body))
    else hex_encode (c.sha256 (p.a.checkpoint_body ++ bars ++ p.b.checkpoint_body))

-- `d.seenProof[k]`.
unfoldable pub has_key : Bytes → List Bytes → Bool
has_key k [] = false
has_key k (x ∷ seen) = bytes_eq x k || has_key k seen

-- `recordProofLocked`, for a proof that is not nil.
unfoldable pub record_proof : Crypto → EquivProof → Daemon → Daemon
unfolding has_key
record_proof c p d =
    if has_key (proof_key c p) d.seen_proof || not (ltb (length d.proofs) max_retained_proofs)
    then d
    else record d { seen_proof = d.seen_proof ++ proof_key c p ∷ []; proofs = d.proofs ++ p ∷ [] }

-- Proofs that are pushed to the intake of peers.
abbrev pub Pushes : Type 0
Pushes = List (Peer × EquivProof)

abbrev pub push_all : List Peer → EquivProof → Pushes
push_all peers p = map (λ q. (q, p)) peers

-- `d.proof = p`.
abbrev pub holding : EquivProof → Daemon → Daemon
holding p d = record d { proof = some p }

-- `d.equivocation = true; d.healthOK = false`.
abbrev pub alarmed : Daemon → Daemon
alarmed d = record d { equivocation = true; health_ok = false }

-- `d.peerStatus = status`, and the alarm for a divergent peer.
abbrev pub told : Survey → Daemon → Daemon
told s d =
    let after = record d { peer_status = s.status } in if s.any_equiv then alarmed after else after

-- The A side of the proof, from the cosigned view.
unfoldable pub own_side : Latest → EquivCkpt
own_side l = record {
  witness = l.cosignature.witness;
  checkpoint_body = l.body;
  cosignature = hex_encode l.cosignature.sig;
  witness_pub_x = hex_encode l.cosignature.pub_x;
  witness_pub_y = hex_encode l.cosignature.pub_y;
}

-- The proof that `checkPeers` assembles: a divergent peer, no proof so far, and a cosigned view.
unfoldable pub fresh_proof :
    Option EquivCkpt → Option EquivProof → Option Latest → Option EquivProof
unfolding own_side
fresh_proof (some b) none (some l) = some (record { a = own_side l; b = b })
fresh_proof none had latest = none
fresh_proof (some b) (some p) latest = none
fresh_proof (some b) none none = none

unfoldable pub install : Crypto → Option EquivProof → Daemon → Daemon × Pushes
unfolding record_proof
install c none d = (d, [])
install c (some p) d = (record_proof c p (holding p d), push_all d.peers p)

-- The part of `checkPeers` under the lock, and the relay behind it.
unfoldable pub settle : Crypto → Survey → Daemon → Daemon × Pushes
unfolding install fresh_proof
settle c s d = install c (fresh_proof s.proof_peer d.proof d.latest) (told s d)

-- `checkPeers`.
unfoldable pub check_peers : Crypto → Text → Answers → Daemon → Daemon × Pushes
unfolding settle
check_peers c t net d =
    if length d.peers == 0
    then (d, [])
    else settle c (survey c t d.cfg net (view_of d.st) d.peers) d

-- `once` behind the call of `poll`; `saved` tells whether `saveState` succeeded.
unfoldable pub once_polled : Bool → Result PollResult × WitnessState → Daemon → Daemon
once_polled saved (err e, st) d = record d { st = st; last_err = poll_error e; health_ok = false }
once_polled saved (ok (refused why), st) d = record d {
  st = st;
  last_err = poll_refused why;
  health_ok = false;
}
once_polled saved (ok (accepted reason body cosig), st) d = record d {
  st = st;
  latest = some (record { body = body; cosignature = cosig });
  last_err = if saved then no_error else state_save_failed;
  health_ok = saved;
}

-- `once`.
unfoldable pub once : Crypto → Text → LogWorld → Bool → Daemon → Daemon
unfolding once_polled
once c t w saved d = once_polled saved (poll c t d.cfg w d.st) d

unfoldable pub peer_key : List Peer → Bytes → Option (Bytes × Bytes)
peer_key [] name = none
peer_key (p ∷ peers) name =
    let rest = peer_key peers name in if bytes_eq p.name name then some (p.pub_x, p.pub_y) else rest

-- `pinnedKey`.
unfoldable pub pinned_key : Daemon → Bytes → Option (Bytes × Bytes)
unfolding peer_key
pinned_key d name =
    if bytes_eq name d.cfg.name then some (d.cfg.pub_x, d.cfg.pub_y) else peer_key d.peers name

-- The reasons of `tryAdopt`.
pub data Adoption : Type 0 where
  not_pinned bad_cosignatures other_log : Adoption
  not_verified adopted : Finding → Adoption

-- A side of a proof under a pinned key, or the error of the cosignature.
unfoldable pub pinned_side : EquivCkpt → Bytes × Bytes → Result Bytes → Option Signed
pinned_side s key (err e) = none
pinned_side s key (ok sig) =
    some (record { body = s.checkpoint_body; sig = sig; key_x = key.0; key_y = key.1 })

unfoldable pub is_about : Config → Result Checkpoint → Bool
is_about cfg (err e) = false
is_about cfg (ok cp) = bytes_eq cp.origin cfg.origin

-- The judgement of `tryAdopt`, in the order of its checks.
unfoldable pub judge_sides :
    Crypto → Text → Config → Option Signed → Option Signed → Bool × Adoption
unfolding is_about
judge_sides c t cfg (some a) (some b) =
    let (valid, why) = verify_equivocation c t a b in
    if not valid
    then (false, not_verified why)
    else if is_about cfg (parse_checkpoint t a.body)
    then (true, adopted why)
    else (false, other_log)
judge_sides c t cfg none b = (false, bad_cosignatures)
judge_sides c t cfg (some a) none = (false, bad_cosignatures)

unfoldable pub judge_keys :
    Crypto
    → Text
    → Config
    → EquivProof
    → Option (Bytes × Bytes)
    → Option (Bytes × Bytes)
    → Bool × Adoption
unfolding judge_sides pinned_side
judge_keys c t cfg p (some ka) (some kb) =
    judge_sides c t cfg (pinned_side p.a ka (hex_decode p.a.cosignature))
      (pinned_side p.b kb (hex_decode p.b.cosignature))
judge_keys c t cfg p none kb = (false, not_pinned)
judge_keys c t cfg p (some ka) none = (false, not_pinned)

unfoldable pub judge_proof : Crypto → Text → Daemon → EquivProof → Bool × Adoption
unfolding judge_keys pinned_key
judge_proof c t d p = judge_keys c t d.cfg p (pinned_key d p.a.witness) (pinned_key d p.b.witness)

-- The part of `tryAdopt` under the lock, and the flood behind it.
unfoldable pub latch : Crypto → EquivProof → Option EquivProof → Daemon → Daemon × Pushes
unfolding record_proof
latch c p none d = (record_proof c p (holding p (alarmed d)), push_all d.peers p)
latch c p (some had) d = (record_proof c p (alarmed d), [])

-- `tryAdopt`.
unfoldable pub try_adopt :
    Crypto → Text → EquivProof → Daemon → (Bool × Adoption) × (Daemon × Pushes)
unfolding latch judge_proof
try_adopt c t p d =
    let verdict = judge_proof c t d p in
    (verdict, if verdict.0 then latch c p d.proof d else (d, []))

-- One round of the loop of `pullPeerProofs`, with what the later rounds do: the first proof that is
-- adopted ends it.
unfoldable pub pull_one :
    Crypto → Text → Result EquivProof → Daemon → Daemon × Pushes → Daemon × Pushes
unfolding try_adopt
pull_one c t (err e) d others = others
pull_one c t (ok p) d others = let got = try_adopt c t p d in if got.0.0 then got.1 else others

unfoldable pub pull_loop : Crypto → Text → Answers → List Peer → Daemon → Daemon × Pushes
unfolding pull_one
pull_loop c t net [] d = (d, [])
pull_loop c t net (q ∷ rest) d = pull_one c t (net.proof q) d (pull_loop c t net rest d)

unfoldable pub has_proof : Option EquivProof → Bool
has_proof none = false
has_proof (some p) = true

-- `pullPeerProofs`.
unfoldable pub pull_peer_proofs : Crypto → Text → Answers → Daemon → Daemon × Pushes
unfolding pull_loop has_proof
pull_peer_proofs c t net d =
    if has_proof d.proof || length d.peers == 0 then (d, []) else pull_loop c t net d.peers d
