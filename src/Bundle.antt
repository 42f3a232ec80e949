-- ===== src/Bundle.antt =====
-- src/verifier/bound.go: the gates of a raw bound-output bundle. `nil` slices are `none`.
pub mod Gates
pub mod Accept
pub mod Stream
use open_opticon.Common.{
  ℕ, ◌≤◌, Bool, true, false, not, ◌&&◌, Option, none, some, [], length, ltb, leb, ◌==◌,
  if◌then◌else◌,
}
use open_opticon.Common.Bytes.{Bytes, bytes_eq}
use open_opticon.Common.Results.{Error, Result, ok, err}
use open_opticon.Hex.{hex_decode}
use open_opticon.Payload.{Predicate, payload_version, decode_payload}
use open_opticon.Crypto.{Crypto, verify_sig, low_s}

-- The `Reason` strings of the package, one constructor each.
pub data Reason : Type 0 where
  payload_hex sig_hex pub_x_hex pub_y_hex cose_hex : Error → Reason
  pin_mismatch : Reason
  signature : Error → Reason
  high_s : Reason
  cose : Error → Reason
  decode : Error → Reason
  unsupported_version : ℕ → Reason
  no_expected_nonce no_nonce nonce_mismatch : Reason
  counter_not_greater : ℕ → ℕ → Reason
  prev_digest_mismatch : Reason
  verified : Reason

pub record VerifyResult : Type 0 where
  pub predicate : Option Predicate
  pub is_ok : Bool
  pub reason : Reason
  pub next_digest : Option Bytes

pub record Options : Type 0 where
  pub expected_nonce : Bytes
  pub pin_pub_x : Option Bytes
  pub pin_pub_y : Option Bytes
  pub last_counter : ℕ
  pub expected_prev_digest : Option Bytes

pub record Bundle : Type 0 where
  pub schema : Bytes
  pub payload : Bytes
  pub sig : Bytes
  pub pub_x : Bytes
  pub pub_y : Bytes

-- `VerifyResult{Reason: r}`, and with the predicate.
abbrev pub rejected : Reason → VerifyResult
rejected r = record { predicate = none; is_ok = false; reason = r; next_digest = none }

abbrev pub rejected_with : Predicate → Reason → VerifyResult
rejected_with p r = record { predicate = some p; is_ok = false; reason = r; next_digest = none }

-- `subtle.ConstantTimeCompare` with a slice that may be `nil`, which has no bytes.
unfoldable pub eq_slice : Bytes → Option Bytes → Bool
eq_slice xs none = bytes_eq xs []
eq_slice xs (some ys) = bytes_eq xs ys

-- `pinOK`.
unfoldable pub pin_ok : Bytes → Bytes → Option Bytes → Option Bytes → Bool
pin_ok px py none none = true
pin_ok px py pin_x pin_y = eq_slice px pin_x && eq_slice py pin_y

-- Gate 4.
unfoldable pub chains_onto : Bytes → Option Bytes → Bool
chains_onto prev none = true
chains_onto prev (some expected) = bytes_eq prev expected

-- `gatesAfterSig` behind the decoding.
unfoldable pub predicate_gates : Crypto → Bytes → Options → Predicate → VerifyResult
predicate_gates c payload opt p =
    if not (p.version == payload_version)
    then rejected_with p (unsupported_version p.version)
    else if length opt.expected_nonce == 0
    then rejected_with p no_expected_nonce
    else if length p.nonce == 0
    then rejected_with p no_nonce
    else if not (bytes_eq p.nonce opt.expected_nonce)
    then rejected_with p nonce_mismatch
    else if leb p.counter opt.last_counter
    then rejected_with p (counter_not_greater p.counter opt.last_counter)
    else if not (chains_onto p.prev_digest opt.expected_prev_digest)
    then rejected_with p prev_digest_mismatch
    else record {
      predicate = some p;
      is_ok = true;
      reason = verified;
      next_digest = some (c.sha256 payload);
    }

unfoldable pub gates_of : Crypto → Bytes → Options → Result Predicate → VerifyResult
gates_of c payload opt (err e) = rejected (decode e)
gates_of c payload opt (ok p) = predicate_gates c payload opt p

-- `gatesAfterSig`.
unfoldable pub gates_after_sig : Crypto → Bytes → Options → VerifyResult
unfolding gates_of
gates_after_sig c payload opt = gates_of c payload opt (decode_payload payload)

-- Gates 1 and 1b, before the shared ones.
unfoldable pub signed_gates : Crypto → Bytes → Bytes → Options → Result (Unit {0}) → VerifyResult
signed_gates c payload sig opt (err e) = rejected (signature e)
signed_gates c payload sig opt (ok _) =
    if low_s sig then gates_after_sig c payload opt else rejected high_s

-- `if err != nil { return VerifyResult{Reason: …} }` for a decoding step.
abbrev pub or_rejected : Result Bytes → (Error → Reason) → (Bytes → VerifyResult) → VerifyResult
or_rejected (ok bs) why k = k bs
or_rejected (err e) why k = rejected (why e)

-- `VerifyBundle` behind the decoding of the fields.
unfoldable pub decoded_gates : Crypto → Options → Bytes → Bytes → Bytes → Bytes → VerifyResult
unfolding signed_gates
decoded_gates c opt payload sig px py =
    if pin_ok px py opt.pin_pub_x opt.pin_pub_y
    then signed_gates c payload sig opt (verify_sig c payload sig px py)
    else rejected pin_mismatch

-- `VerifyBundle`.
unfoldable pub verify_bundle : Crypto → Bundle → Options → VerifyResult
verify_bundle c b opt = or_rejected (hex_decode b.payload) payload_hex λ payload.
    or_rejected (hex_decode b.sig) sig_hex λ sig.
      or_rejected (hex_decode b.pub_x) pub_x_hex
        λ px. or_rejected (hex_decode b.pub_y) pub_y_hex λ py. decoded_gates c opt payload sig px py
