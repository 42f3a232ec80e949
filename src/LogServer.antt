-- ===== src/LogServer.antt =====
-- src/verifier/cmd/he-logd/main.go: the server of a log. The file and `ecdsa.Sign` are arguments; an
-- answer is a status with a body, and a client that reads it gets the fields of the body.
pub mod Digests
pub mod Honest
use open_opticon.Common.{
  ℕ, Bool, true, false, Option, none, some, List, [], ◌∷◌, map, length, ltb, ◌==◌, if◌then◌else◌,
}
use open_opticon.Common.Bytes.{Bytes}
use open_opticon.Common.Results.{Error, Result, ok, err, ◌>>=◌, bad_status}
use open_opticon.Hex.{hex_decode, hex_encode}
use open_opticon.Crypto.{Crypto}
use open_opticon.Merkle.{Digest, mth, consistency_proof}
use open_opticon.Checkpoint.{Format, Checkpoint, checkpoint_body}
use open_opticon.Witness.{CheckpointResp, LogWorld, sign_note}

-- `loadLogFile`, from the strings of the file.
unfoldable pub load_leaves : List Bytes → Result (List Bytes)
load_leaves [] = ok []
load_leaves (h ∷ hexes) = do b ← hex_decode h; rest ← load_leaves hexes; ok (b ∷ rest)

-- `origin`, `l.Size()` and `l.Root()`.
unfoldable pub current : Crypto → Bytes → List Bytes → Checkpoint
current c origin leaves = record { origin = origin; size = length leaves; root = mth c leaves }

-- The body of an answer to `/checkpoint`, without the key.
pub record CheckpointAnswer : Type 0 where
  pub origin : Bytes
  pub size : ℕ
  pub root : Bytes
  pub body : Bytes
  pub sig : Bytes

unfoldable pub checkpoint_answer : Format → Checkpoint → Result Bytes → ℕ × Option CheckpointAnswer
checkpoint_answer f cp (err e) = (500, none)
checkpoint_answer f cp (ok sig) = (
  200,
  some (record {
    origin = cp.origin;
    size = cp.size;
    root = hex_encode cp.root;
    body = checkpoint_body f cp;
    sig = hex_encode sig;
  }),
)

-- `checkpointHandler`, with `SignCheckpoint`.
unfoldable pub handle_checkpoint :
    Crypto
    → Format
    → Bytes
    → (Bytes → Result (ℕ × ℕ))
    → Result (List Bytes)
    → ℕ × Option CheckpointAnswer
unfolding checkpoint_answer current
handle_checkpoint c f origin sign (err e) = (500, none)
handle_checkpoint c f origin sign (ok leaves) =
    let cp = current c origin leaves in
    checkpoint_answer f cp (sign_note c sign (checkpoint_body f cp))

-- The body of an answer to `/consistency`.
pub record ConsistencyAnswer : Type 0 where
  pub from : ℕ
  pub new_size : ℕ
  pub new_root : Bytes
  pub proof : List Bytes

unfoldable pub consistency_answer :
    Crypto → List Bytes → ℕ → Option (List Digest) → ℕ × Option ConsistencyAnswer
consistency_answer c leaves from none = (400, none)
consistency_answer c leaves from (some proof) = (
  200,
  some (record {
    from = from;
    new_size = length leaves;
    new_root = hex_encode (mth c leaves);
    proof = map hex_encode proof;
  }),
)

-- `consistencyHandler`, for a `from` that is a number.
unfoldable pub handle_consistency : Crypto → ℕ → Result (List Bytes) → ℕ × Option ConsistencyAnswer
unfolding consistency_answer
handle_consistency c from (err e) = (500, none)
handle_consistency c from (ok leaves) =
    if ltb (length leaves) from
    then (400, none)
    else consistency_answer c leaves from (consistency_proof c leaves from)

-- `getJSON` of what is served.
unfoldable pub fetched_checkpoint : ℕ × Option CheckpointAnswer → Result CheckpointResp
fetched_checkpoint (status, none) = err bad_status
fetched_checkpoint (status, some a) =
    if status == 200 then ok (record { body = a.body; sig = a.sig }) else err bad_status

unfoldable pub fetched_consistency : ℕ × Option ConsistencyAnswer → Result (List Bytes)
fetched_consistency (status, none) = err bad_status
fetched_consistency (status, some a) = if status == 200 then ok a.proof else err bad_status

-- What a witness that polls this server gets. The file is read again for each request: at the first,
-- of the checkpoint, it gives `leaves`, and at the second, of a proof, `later`.
unfoldable pub served :
    Crypto
    → Format
    → Bytes
    → (Bytes → Result (ℕ × ℕ))
    → Result (List Bytes)
    → Result (List Bytes)
    → (Bytes → Result (ℕ × ℕ))
    → LogWorld
unfolding handle_checkpoint handle_consistency fetched_checkpoint fetched_consistency
served c f origin log_sign leaves later witness_sign = record {
  checkpoint = fetched_checkpoint (handle_checkpoint c f origin log_sign leaves);
  consistency = λ n. fetched_consistency (handle_consistency c n later);
  sign = witness_sign;
}
