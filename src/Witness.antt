-- ===== src/Witness.antt =====
-- src/verifier/cmd/he-witness/main.go: one poll of a witness. The log's answers, `ecdsa.Sign` and
-- the file of the state are arguments: HTTP, JSON and the disk are not under src. Sizes are not
-- negative.
pub mod Outcome
pub mod History
use open_opticon.Common.{
  ℕ, Bool, true, false, not, List, [], ◌∷◌, ◌++◌, length, ltb, ◌==◌, if◌then◌else◌,
}
use open_opticon.Common.Bytes.{Bytes, bytes_eq}
use open_opticon.Common.Results.{
  Error, Result, ok, err, ◌>>=◌, wrap, fetch_checkpoint, bad_sig_hex, unparsed_checkpoint,
  bad_persisted_root, fetch_consistency, bad_consistency_proof, root_not_32_bytes, corrupt_state,
  invalid_root,
}
use open_opticon.Hex.{hex_decode, hex_encode}
use open_opticon.Crypto.{Crypto, fill_bytes}
use open_opticon.Merkle.{Digest}
use open_opticon.Checkpoint.{Text, Checkpoint, Cosignature, parse_checkpoint, verify_checkpoint_sig}
use open_opticon.Consistency.{verify_consistency}

-- `witnessState`: the empty root before the first checkpoint.
pub record WitnessState : Type 0 where
  pub origin : Bytes
  pub size : ℕ
  pub root : Bytes

-- `checkpointResp`, without the key that the log reports of itself, which is not used.
pub record CheckpointResp : Type 0 where
  pub body : Bytes
  pub sig : Bytes

-- `config`, with the public half of its key.
pub record Config : Type 0 where
  pub name : Bytes
  pub origin : Bytes
  pub log_x : Bytes
  pub log_y : Bytes
  pub pub_x : Bytes
  pub pub_y : Bytes

-- What the world gives to one poll: the log's answers to `/checkpoint` and `/consistency?from=n`,
-- and `ecdsa.Sign` with the witness's key, whose answer is also random.
pub record LogWorld : Type 0 where
  pub checkpoint : Result CheckpointResp
  pub consistency : ℕ → Result (List Bytes)
  pub sign : Bytes → Result (ℕ × ℕ)

-- The reasons of a `pollResult`.
pub data Refusal : Type 0 where
  log_signature origin_mismatch : Refusal
  rewound inconsistent : ℕ → ℕ → Refusal
  forked : Refusal
  cosign_error : Error → Refusal

pub data Acceptance : Type 0 where
  first_sight unchanged extension : Acceptance

-- `pollResult`.
pub data PollResult : Type 0 where
  refused : Refusal → PollResult
  accepted : Acceptance → Bytes → Cosignature → PollResult

-- `hexRoot`, behind the decoding.
unfoldable pub root_of : Result Bytes → Result Digest
root_of (err e) = err root_not_32_bytes
root_of (ok b) = if length b == 32 then ok b else err root_not_32_bytes

-- `hexRoot`.
unfoldable pub hex_root : Bytes → Result Digest
unfolding root_of
hex_root h = root_of (hex_decode h)

-- `decodeProof`.
unfoldable pub decode_proof : List Bytes → Result (List Digest)
decode_proof [] = ok []
decode_proof (h ∷ hexes) = do r ← hex_root h; rest ← decode_proof hexes; ok (r ∷ rest)

-- `signNote`, which `CosignCheckpoint` is.
unfoldable pub sign_note : Crypto → (Bytes → Result (ℕ × ℕ)) → Bytes → Result Bytes
sign_note c sign body = do rs ← sign (c.sha256 body); ok (fill_bytes 32 rs.0 ++ fill_bytes 32 rs.1)

-- `advance`.
unfoldable pub advance : Config → Checkpoint → WitnessState
advance cfg cp = record { origin = cfg.origin; size = cp.size; root = hex_encode cp.root }

-- `accept`.
unfoldable pub cosigned : Config → Acceptance → Bytes → Result Bytes → PollResult
cosigned cfg reason body (err e) = refused (cosign_error e)
cosigned cfg reason body (ok sig) =
    accepted reason body
      (record { witness = cfg.name; pub_x = cfg.pub_x; pub_y = cfg.pub_y; sig = sig })

unfoldable pub accept : Crypto → Config → LogWorld → Acceptance → Bytes → PollResult
unfolding cosigned sign_note
accept c cfg w reason body = cosigned cfg reason body (sign_note c w.sign body)

-- What `poll` decides before it changes the state: whether it is advanced.
pub data PollDecision : Type 0 where
  refuse : Refusal → PollDecision
  keep : PollDecision
  move_to : Acceptance → PollDecision

-- The last case of the switch: the checkpoint is larger than the view, whose root is `old`.
unfoldable pub decide_extension :
    Crypto → LogWorld → WitnessState → Checkpoint → Digest → Result PollDecision
decide_extension c w st cp old = do
  hexes ← wrap fetch_consistency (w.consistency st.size)
  proof ← wrap bad_consistency_proof (decode_proof hexes)
  ok (
      if verify_consistency c st.size cp.size proof old cp.root
      then move_to extension
      else refuse (inconsistent cp.size st.size))

-- The switch, behind the persisted root.
unfoldable pub decide_against :
    Crypto → LogWorld → WitnessState → Checkpoint → Digest → Result PollDecision
unfolding decide_extension
decide_against c w st cp old =
    if ltb cp.size st.size
    then ok (refuse (rewound cp.size st.size))
    else if cp.size == st.size
    then (if bytes_eq cp.root old then ok keep else ok (refuse forked))
    else decide_extension c w st cp old

-- The decision on a checkpoint that is signed by the log and parsed.
unfoldable pub decide_poll :
    Crypto → Config → LogWorld → WitnessState → Checkpoint → Result PollDecision
unfolding decide_against
decide_poll c cfg w st cp =
    if not (bytes_eq cp.origin cfg.origin)
    then ok (refuse origin_mismatch)
    else if length st.root == 0
    then ok (move_to first_sight)
    else (wrap bad_persisted_root (hex_root st.root) >>= decide_against c w st cp)

unfoldable pub carry_out :
    Crypto
    → Config
    → LogWorld
    → WitnessState
    → Bytes
    → Checkpoint
    → Result PollDecision
    → Result PollResult × WitnessState
unfolding accept advance
carry_out c cfg w st body cp (err e) = (err e, st)
carry_out c cfg w st body cp (ok (refuse why)) = (ok (refused why), st)
carry_out c cfg w st body cp (ok keep) = (ok (accept c cfg w unchanged body), st)
carry_out c cfg w st body cp (ok (move_to reason)) =
    (ok (accept c cfg w reason body), advance cfg cp)

unfoldable pub poll_parsed :
    Crypto
    → Config
    → LogWorld
    → WitnessState
    → Bytes
    → Result Checkpoint
    → Result PollResult × WitnessState
unfolding carry_out decide_poll
poll_parsed c cfg w st body (err e) = (err (unparsed_checkpoint e), st)
poll_parsed c cfg w st body (ok cp) = carry_out c cfg w st body cp (decide_poll c cfg w st cp)

unfoldable pub poll_signed :
    Crypto
    → Text
    → Config
    → LogWorld
    → WitnessState
    → Bytes
    → Result Bytes
    → Result PollResult × WitnessState
unfolding poll_parsed
poll_signed c t cfg w st body (err e) = (err (bad_sig_hex e), st)
poll_signed c t cfg w st body (ok sig) =
    if not (verify_checkpoint_sig c body sig cfg.log_x cfg.log_y)
    then (ok (refused log_signature), st)
    else poll_parsed c cfg w st body (parse_checkpoint t body)

unfoldable pub poll_fetched :
    Crypto
    → Text
    → Config
    → LogWorld
    → WitnessState
    → Result CheckpointResp
    → Result PollResult × WitnessState
unfolding poll_signed
poll_fetched c t cfg w st (err e) = (err (fetch_checkpoint e), st)
poll_fetched c t cfg w st (ok cp) = poll_signed c t cfg w st cp.body (hex_decode cp.sig)

-- `poll`, with the state it leaves.
unfoldable pub poll :
    Crypto → Text → Config → LogWorld → WitnessState → Result PollResult × WitnessState
unfolding poll_fetched
poll c t cfg w st = poll_fetched c t cfg w st w.checkpoint

-- What `os.ReadFile` and `json.Unmarshal` make of the file of the state.
pub data StateFile : Type 0 where
  no_path missing : StateFile
  unreadable : Error → StateFile
  contents : Result WitnessState → StateFile

abbrev pub baseline : WitnessState
baseline = record { origin = []; size = 0; root = [] }

unfoldable pub check_root : WitnessState → Result Digest → Result WitnessState
check_root st (err e) = err (invalid_root e)
check_root st (ok r) = ok st

-- `loadState`.
unfoldable pub load_state : StateFile → Result WitnessState
unfolding check_root
load_state no_path = ok baseline
load_state missing = ok baseline
load_state (unreadable e) = err e
load_state (contents (err e)) = err (corrupt_state e)
load_state (contents (ok st)) =
    if length st.root == 0 then ok st else check_root st (hex_root st.root)
