-- ===== src/Checkpoint.antt =====
-- src/verifier/transparency.go: signed checkpoints and witness cosignatures. `strconv.Atoi` and
-- base64 belong to Go's library: they are the fields of `Text`.
pub mod Witnesses
pub mod Evidence
pub mod Lines
pub mod RoundTrip
pub mod Parsed
use open_opticon.Common.{
  ℕ, Bool, true, false, not, ◌&&◌, ◌||◌, Option, none, some, List, [], ◌∷◌, ◌++◌, length, ◌==◌,
  if◌then◌else◌,
}
use open_opticon.Common.Bytes.{Bytes, bytes_eq}
use open_opticon.Common.Results.{
  Error, Result, ok, err, ◌>>=◌, ◌>>◌, guard, wrap, not_three_lines, bad_checkpoint_size,
  bad_checkpoint_root, not_included, checkpoint_signature,
}
use open_opticon.Crypto.{Crypto, verify_sig}
use open_opticon.Merkle.{Digest, verify_inclusion}
use open_opticon.Quorum.{Prover}

-- `atoi` gives the sign, `true` for a negative number, and the magnitude.
pub record Text : Type 0 where
  pub atoi : Bytes → Option (Bool × ℕ)
  pub base64 : Bytes → Option Bytes

pub record Checkpoint : Type 0 where
  pub origin : Bytes
  pub size : ℕ
  pub root : Digest

-- `bytes.TrimRight(body, "\n")`.
unfoldable pub trim_right : Bytes → Bytes
trim_right [] = []
trim_right (b ∷ bs) =
    let rest = trim_right bs in if b == 0x0a && length rest == 0 then [] else b ∷ rest

-- A byte in front of the first line.
unfoldable pub onto_first : ℕ → List Bytes → List Bytes
onto_first b [] = (b ∷ []) ∷ []
onto_first b (l ∷ lines) = (b ∷ l) ∷ lines

-- `bytes.Split(s, "\n")`.
unfoldable pub split_lines : Bytes → List Bytes
unfolding onto_first
split_lines [] = [] ∷ []
split_lines (b ∷ bs) =
    let lines = split_lines bs in if b == 0x0a then [] ∷ lines else onto_first b lines

unfoldable pub checkpoint_size : Option (Bool × ℕ) → Result ℕ
checkpoint_size none = err bad_checkpoint_size
checkpoint_size (some n) = if n.0 && not (n.1 == 0) then err bad_checkpoint_size else ok n.1

unfoldable pub checkpoint_root : Option Bytes → Result Digest
checkpoint_root none = err bad_checkpoint_root
checkpoint_root (some raw) = if length raw == 32 then ok raw else err bad_checkpoint_root

unfoldable pub parse_lines : Text → List Bytes → Result Checkpoint
unfolding checkpoint_size checkpoint_root
parse_lines t [] = err not_three_lines
parse_lines t (a ∷ []) = err not_three_lines
parse_lines t (a ∷ b ∷ []) = err not_three_lines
parse_lines t (a ∷ b ∷ c ∷ []) = do
  size ← checkpoint_size (t.atoi b)
  root ← checkpoint_root (t.base64 c)
  ok (record { origin = a; size = size; root = root })
parse_lines t (a ∷ b ∷ c ∷ d ∷ rest) = err not_three_lines

-- `ParseCheckpoint`.
unfoldable pub parse_checkpoint : Text → Bytes → Result Checkpoint
unfolding parse_lines
parse_checkpoint t body = parse_lines t (split_lines (trim_right body))

abbrev pub succeeds {ℓ} : {A : Type ℓ} → Result A → Bool
succeeds (ok a) = true
succeeds (err e) = false

-- A line of a body and what follows it.
abbrev pub line : Bytes → Bytes → Bytes
line l rest = l ++ 0x0a ∷ rest

-- `%d` and `base64.StdEncoding.EncodeToString`.
pub record Format : Type 0 where
  pub itoa : ℕ → Bytes
  pub encode64 : Bytes → Bytes

-- `CheckpointBody`.
unfoldable pub checkpoint_body : Format → Checkpoint → Bytes
checkpoint_body f cp = line cp.origin (line (f.itoa cp.size) (line (f.encode64 cp.root) []))

-- `VerifyCheckpointSig`.
unfoldable pub verify_checkpoint_sig : Crypto → Bytes → Bytes → Bytes → Bytes → Bool
verify_checkpoint_sig c body sig px py = succeeds (verify_sig c body sig px py)

-- `CheckLoggedEndorsement`, for an index that is not negative.
unfoldable pub check_logged_endorsement :
    Crypto → Text → Bytes → ℕ → List Digest → Bytes → Bytes → Bytes → Bytes → Result (Unit {0})
check_logged_endorsement c t entry index proof cp_body cp_sig log_x log_y = do
  wrap checkpoint_signature (verify_sig c cp_body cp_sig log_x log_y)
  cp ← parse_checkpoint t cp_body
  guard (verify_inclusion c entry index cp.size proof cp.root) not_included

pub record Cosignature : Type 0 where
  pub witness : Bytes
  pub pub_x : Bytes
  pub pub_y : Bytes
  pub sig : Bytes

-- `matchWitness`; the empty name for no match.
unfoldable pub match_witness : Cosignature → List Prover → Bytes
match_witness s [] = []
match_witness s (w ∷ enrolled) =
    let found = match_witness s enrolled in
    if bytes_eq w.name s.witness && bytes_eq s.pub_x w.pub_x && bytes_eq s.pub_y w.pub_y
    then w.name
    else found

-- `seen[name]`: the names seen are those that were appended.
unfoldable pub has_witness : Bytes → List Bytes → Bool
has_witness name [] = false
has_witness name (n ∷ names) = bytes_eq n name || has_witness name names

-- One round of the loop of `VerifyCheckpointWitnesses`.
unfoldable pub add_witness : Crypto → Bytes → Cosignature → Bytes → List Bytes → List Bytes
unfolding has_witness
add_witness c cp_body s name names =
    if length name == 0 || has_witness name names
    then names
    else if succeeds (verify_sig c cp_body s.sig s.pub_x s.pub_y)
    then names ++ name ∷ []
    else names

unfoldable pub collect_witnesses :
    Crypto → Bytes → List Prover → List Cosignature → List Bytes → List Bytes
unfolding add_witness match_witness
collect_witnesses c cp_body enrolled [] names = names
collect_witnesses c cp_body enrolled (s ∷ rest) names =
    collect_witnesses c cp_body enrolled rest
      (add_witness c cp_body s (match_witness s enrolled) names)

-- `VerifyCheckpointWitnesses`.
unfoldable pub verify_checkpoint_witnesses :
    Crypto → Bytes → List Cosignature → List Prover → List Bytes
unfolding collect_witnesses
verify_checkpoint_witnesses c cp_body cosigs enrolled =
    collect_witnesses c cp_body enrolled cosigs []

-- The reasons of `VerifyEquivocation`.
pub data Finding : Type 0 where
  bad_signature_a bad_signature_b : Finding
  unparsed_a unparsed_b : Error → Finding
  different_origins different_sizes identical_roots equivocated : Finding

unfoldable pub compare_checkpoints : Result Checkpoint → Result Checkpoint → Bool × Finding
compare_checkpoints (err e) b = (false, unparsed_a e)
compare_checkpoints (ok a) (err e) = (false, unparsed_b e)
compare_checkpoints (ok a) (ok b) =
    if not (bytes_eq a.origin b.origin)
    then (false, different_origins)
    else if not (a.size == b.size)
    then (false, different_sizes)
    else if bytes_eq a.root b.root
    then (false, identical_roots)
    else (true, equivocated)

-- A checkpoint body with a cosignature and the key that the caller pinned for it.
pub record Signed : Type 0 where
  pub body : Bytes
  pub sig : Bytes
  pub key_x : Bytes
  pub key_y : Bytes

-- `VerifyEquivocation`.
unfoldable pub verify_equivocation : Crypto → Text → Signed → Signed → Bool × Finding
unfolding compare_checkpoints
verify_equivocation c t a b =
    if not (verify_checkpoint_sig c a.body a.sig a.key_x a.key_y)
    then (false, bad_signature_a)
    else if not (verify_checkpoint_sig c b.body b.sig b.key_x b.key_y)
    then (false, bad_signature_b)
    else compare_checkpoints (parse_checkpoint t a.body) (parse_checkpoint t b.body)
