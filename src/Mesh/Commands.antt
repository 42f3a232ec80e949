-- ===== src/Mesh/Commands.antt =====
-- src/verifier/cmd/he-witness/main.go: the flags, and the commands `compare`, `verify-equivocation`
-- and `fetch-proof`. `cli.Die` is an error; what is read and fetched is an argument.
use open_opticon.Common.{
  ℕ, Bool, true, false, not, ◌&&◌, ◌||◌, Option, none, some, List, [], ◌∷◌, ◌++◌, length, ltb, ◌==◌,
  if◌then◌else◌,
}
use open_opticon.Common.Bytes.{Bytes, bytes_eq}
use open_opticon.Common.Results.{
  Result, ok, err, ◌>>=◌, ◌>>◌, guard, wrap, unexpected_argument, flag_without_value, bad_peer_spec,
  empty_peer_name, duplicate_peer, bad_pub_x, bad_pub_y, fetch_peer, bad_peer_cosignature,
  unparsed_peer, peer_name_mismatch, peer_not_verified, peer_origin_mismatch, bad_persisted_root,
  fetch_consistency, bad_consistency_proof, bad_cosignature_a, bad_cosignature_b,
  fetch_proof_failed, not_a_proof, proof_of_other_log,
}
use open_opticon.Hex.{hex_decode}
use open_opticon.Crypto.{Crypto}
use open_opticon.Merkle.{Digest}
use open_opticon.Checkpoint.{
  Text, Checkpoint, Finding, Signed, onto_first, parse_checkpoint, verify_checkpoint_sig,
  verify_equivocation,
}
use open_opticon.Witness.{WitnessState, hex_root, decode_proof}
use open_opticon.Mesh.{
  Peer, PeerCosigResp, EquivProof, CrossVerdict, CrossReason, View, cross_check,
}

-- `strings.Split(s, sep)` for a separator of one byte.
unfoldable pub split_on : ℕ → Bytes → List Bytes
unfolding onto_first
split_on sep [] = [] ∷ []
split_on sep (b ∷ s) =
    let parts = split_on sep s in if b == sep then [] ∷ parts else onto_first b parts

-- `strings.TrimRight(s, "/")`.
unfoldable pub trim_slashes : Bytes → Bytes
trim_slashes [] = []
trim_slashes (b ∷ s) =
    let rest = trim_slashes s in if b == 0x2f && length rest == 0 then [] else b ∷ rest

-- "--".
abbrev pub dashes : Bytes
dashes = 0x2d ∷ 0x2d ∷ []

-- `k[:eq]` and `k[eq+1:]`, where `k` has a '='.
unfoldable pub cut_flag : Bytes → Option (Bytes × Bytes)
cut_flag [] = none
cut_flag (b ∷ k) =
    let rest = cut_flag k in
    if b == 0x3d then some ([], k) else elim rest [ none ↦ none | some kv ↦ some (b ∷ kv.0, kv.1) ]

-- An argument that starts with "--", without it.
unfoldable pub flag_name : Bytes → Result Bytes
flag_name (x ∷ y ∷ k) = if x == 0x2d && y == 0x2d then ok k else err unexpected_argument
flag_name a = err unexpected_argument

unfoldable pub flag_after : Bytes → Option (Bytes × Bytes) → Option Bytes → Result (Bytes × Bytes)
flag_after k (some kv) value = ok kv
flag_after k none (some v) = ok (k, v)
flag_after k none none = err flag_without_value

-- `flagMap`, with the last value of a flag in front of the earlier ones.
unfoldable pub flag_map : List Bytes → List (Bytes × Bytes) → Result (List (Bytes × Bytes))
unfolding flag_name cut_flag flag_after
flag_map [] m = ok m
flag_map (a ∷ []) m = do k ← flag_name a; kv ← flag_after k (cut_flag k) none; ok (kv ∷ m)
flag_map (a ∷ b ∷ rest) m = do
  k ← flag_name a
  elim (cut_flag k) [ some kv ↦ flag_map (b ∷ rest) (kv ∷ m) | none ↦ flag_map rest ((k, b) ∷ m) ]

-- "--peer" and "--peer=".
abbrev pub peer_flag : Bytes
peer_flag = 0x2d ∷ 0x2d ∷ 0x70 ∷ 0x65 ∷ 0x65 ∷ 0x72 ∷ []

unfoldable pub after_prefix : Bytes → Bytes → Option Bytes
after_prefix [] s = some s
after_prefix (x ∷ p) [] = none
after_prefix (x ∷ p) (y ∷ s) = let rest = after_prefix p s in if x == y then rest else none

unfoldable pub with_spec : Option Bytes → List Bytes → List Bytes
with_spec none specs = specs
with_spec (some s) specs = s ∷ specs

-- The first loop of `parsePeers`.
unfoldable pub peer_specs : List Bytes → List Bytes
unfolding after_prefix with_spec
peer_specs [] = []
peer_specs (a ∷ []) = with_spec (after_prefix (peer_flag ++ 0x3d ∷ []) a) []
peer_specs (a ∷ b ∷ rest) =
    let behind_value = peer_specs rest in
    let behind = peer_specs (b ∷ rest) in
    if bytes_eq a peer_flag
    then b ∷ behind_value
    else with_spec (after_prefix (peer_flag ++ 0x3d ∷ []) a) behind

-- `seen[name]`.
unfoldable pub is_seen : Bytes → List Peer → Bool
is_seen name [] = false
is_seen name (p ∷ peers) = bytes_eq p.name name || is_seen name peers

-- One peer of the second loop of `parsePeers`, behind the peers so far.
unfoldable pub parse_spec : List Peer → List Bytes → Result Peer
unfolding is_seen trim_slashes
parse_spec seen (name ∷ url ∷ x ∷ y ∷ []) = do
  guard (not (length name == 0)) empty_peer_name
  guard (not (is_seen name seen)) duplicate_peer
  px ← wrap bad_pub_x (hex_decode x)
  py ← wrap bad_pub_y (hex_decode y)
  ok (record { name = name; url = trim_slashes url; pub_x = px; pub_y = py })
parse_spec seen _ = err bad_peer_spec

-- The second loop of `parsePeers`, with the peers so far.
unfoldable pub parse_specs : List Bytes → List Peer → Result (List Peer)
unfolding parse_spec split_on
parse_specs [] peers = ok peers
parse_specs (s ∷ specs) peers = do
  p ← parse_spec peers (split_on 0x2c s)
  parse_specs specs (peers ++ p ∷ [])

-- `parsePeers`.
unfoldable pub parse_peers : List Bytes → Result (List Peer)
unfolding parse_specs peer_specs
parse_peers args = parse_specs (peer_specs args) []

-- The flags of `compare` that are strings or keys.
pub record CompareFlags : Type 0 where
  pub origin : Bytes
  pub peer_name : Bytes
  pub peer_x : Bytes
  pub peer_y : Bytes
  pub has_log_url : Bool

unfoldable pub compare_view : WitnessState → Result View
compare_view st =
    if length st.root == 0
    then ok (record { has_view = false; size = st.size; root = [] })
    else (wrap bad_persisted_root (hex_root st.root) >>= λ r.
        ok (record { has_view = true; size = st.size; root = r }))

-- `peerProof` of `runCompare`: an error is fatal here.
unfoldable pub compare_proof :
    Bool → (ℕ → Result (List Bytes)) → View → ℕ → Result (Option (List Digest))
compare_proof has_log_url consistency v peer_size =
    if v.has_view && ltb v.size peer_size && has_log_url
    then (wrap fetch_consistency (consistency v.size) >>= λ hexes.
        wrap bad_consistency_proof (decode_proof hexes) >>= λ proof. ok (some proof))
    else ok none

-- `runCompare`, up to the exit code of the verdict.
unfoldable pub run_compare :
    Crypto
    → Text
    → CompareFlags
    → WitnessState
    → Result PeerCosigResp
    → (ℕ → Result (List Bytes))
    → Result (CrossVerdict × CrossReason)
unfolding compare_view compare_proof
run_compare c t f st fetched consistency = do
  pr ← wrap fetch_peer fetched
  guard (bytes_eq pr.witness f.peer_name) peer_name_mismatch
  sig ← wrap bad_peer_cosignature (hex_decode pr.cosignature)
  guard (verify_checkpoint_sig c pr.checkpoint_body sig f.peer_x f.peer_y) peer_not_verified
  cp ← wrap unparsed_peer (parse_checkpoint t pr.checkpoint_body)
  guard (bytes_eq cp.origin f.origin) peer_origin_mismatch
  v ← compare_view st
  proof ← compare_proof f.has_log_url consistency v cp.size
  ok (cross_check c v cp.size cp.root proof)

-- `runVerifyEquivocation`, for the proof of the file and the two keys that the caller pins.
unfoldable pub run_verify_equivocation :
    Crypto → Text → EquivProof → Bytes × Bytes → Bytes × Bytes → Result Finding
run_verify_equivocation c t p ka kb = do
  sa ← wrap bad_cosignature_a (hex_decode p.a.cosignature)
  sb ← wrap bad_cosignature_b (hex_decode p.b.cosignature)
  let a : Signed = record { body = p.a.checkpoint_body; sig = sa; key_x = ka.0; key_y = ka.1 }
  let b : Signed = record { body = p.b.checkpoint_body; sig = sb; key_x = kb.0; key_y = kb.1 }
  let (valid, why) = verify_equivocation c t a b
  guard valid not_a_proof
  ok why

unfoldable pub states_origin : Bytes → Result Checkpoint → Bool
states_origin want (err e) = false
states_origin want (ok cp) = bytes_eq cp.origin want

-- `runFetchProof`; the empty origin is none.
unfoldable pub run_fetch_proof :
    Crypto → Text → Result EquivProof → Bytes × Bytes → Bytes × Bytes → Bytes → Result Finding
unfolding run_verify_equivocation states_origin
run_fetch_proof c t fetched ka kb want = do
  p ← wrap fetch_proof_failed fetched
  why ← run_verify_equivocation c t p ka kb
  guard (length want == 0 || states_origin want (parse_checkpoint t p.a.checkpoint_body))
      proof_of_other_log
  ok why
