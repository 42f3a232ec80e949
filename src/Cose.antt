-- ===== src/Cose.antt =====
-- src/verifier/cose.go and src/verifier/cose_encode.go: the COSE_Sign1 envelope of a bound output.
pub mod Sign
pub mod Message
pub mod Parsed
pub mod Accept
use open_opticon.Common.{
  ℕ, zero, suc, ◌+◌, ◌-◌, ◌/◌, ◌%◌, ◌^◌, bit_or, Bool, true, false, not, ◌||◌, List, [], ◌∷◌, ◌++◌,
  ltb, ◌==◌, if◌then◌else◌, length, take,
}
use open_opticon.Common.Bytes.{Bytes}
use open_opticon.Common.Results.{
  Error, Result, ok, err, ◌>>=◌, ◌>>◌, guard, wrap, short_sig, trailing_bytes, not_four_elements,
  protected_error, unprotected_error, payload_error, signature_error, protected_header,
  protected_label, alg_value, header_not_a_map, alg_not_es256, alg_missing,
}
use open_opticon.Hex.{hex_decode}
use open_opticon.Cbor.{read_head, read_uint, read_bstr, skip_value, max_cbor_depth}
use open_opticon.Crypto.{Crypto, verify_sig, low_s}
use open_opticon.Bundle.{
  VerifyResult, Options, pin_ok, gates_after_sig, signed_gates, or_rejected, rejected, Reason,
  cose_hex, pub_x_hex, pub_y_hex, cose, pin_mismatch,
}

pub record CoseBundle : Type 0 where
  pub schema : Bytes
  pub cose : Bytes
  pub pub_x : Bytes
  pub pub_y : Bytes

-- `coseContext`.
abbrev pub cose_context : Bytes
cose_context = 0x6a ∷ 0x53 ∷ 0x69 ∷ 0x67 ∷ 0x6e ∷ 0x61 ∷ 0x74 ∷ 0x75 ∷ 0x72 ∷ 0x65 ∷ 0x31 ∷ []

-- `coseSigStruct`.
unfoldable pub cose_sig_struct : Bytes → Bytes → Bytes
cose_sig_struct prot_bstr payload_bstr = 0x84 ∷ cose_context ++ prot_bstr ++ 0x40 ∷ payload_bstr

-- What `parseCOSESign1` returns.
pub record Sign1 : Type 0 where
  pub prot_bstr : Bytes
  pub payload : Bytes
  pub payload_bstr : Bytes
  pub sig : Bytes

-- The loop of `requireES256`, with `n` labels left.
unfoldable pub require_labels : ℕ → Bytes → Result (Unit {0})
require_labels zero bs = err alg_missing
require_labels (suc n) bs = do
  (label, bs) ← wrap protected_label (read_uint bs)
  if label == 1
      then (do
        (m, v, _) ← wrap alg_value (read_head bs)
        if not (m == 1) || not (v == 6) then err alg_not_es256 else ok tt)
      else (do bs ← skip_value max_cbor_depth bs; require_labels n bs)

-- `requireES256`.
unfoldable pub require_es256 : Bytes → Result (Unit {0})
unfolding require_labels
require_es256 protected = do
  (major, n, bs) ← wrap protected_header (read_head protected)
  if major == 5 then require_labels n bs else err header_not_a_map

-- `b[start:r.pos]`, of the bytes from `start` on and those from `r.pos` on.
unfoldable pub span : Bytes → Bytes → Bytes
span from rest = take (length from - length rest) from

-- `if r.pos < len(r.b) && r.b[r.pos] == 0xd2 { r.pos++ }`
unfoldable pub skip_tag : Bytes → Bytes
skip_tag [] = []
skip_tag (b ∷ bs) = if b == 0xd2 then bs else b ∷ bs

-- `parseCOSESign1`.
unfoldable pub parse_cose_sign1 : Bytes → Result Sign1
unfolding require_es256 span skip_tag
parse_cose_sign1 b = do
  (major, n, bs) ← read_head (skip_tag b)
  guard (major == 4) not_four_elements
  guard (n == 4) not_four_elements
  let at_prot = bs
  (prot, bs) ← wrap protected_error (read_bstr at_prot)
  let prot_bstr = span at_prot bs
  require_es256 prot
  at_payload ← wrap unprotected_error (skip_value max_cbor_depth bs)
  (payload, bs) ← wrap payload_error (read_bstr at_payload)
  let payload_bstr = span at_payload bs
  (sig, bs) ← wrap signature_error (read_bstr bs)
  guard (length sig == 64) short_sig
  guard (length bs == 0) trailing_bytes
  ok (record { prot_bstr = prot_bstr; payload = payload; payload_bstr = payload_bstr; sig = sig })

-- `VerifyCOSEBundle` behind the parsing.
unfoldable pub sign1_gates : Crypto → Options → Bytes → Bytes → Sign1 → VerifyResult
sign1_gates c opt px py s =
    if pin_ok px py opt.pin_pub_x opt.pin_pub_y
    then signed_gates c s.payload s.sig opt
        (verify_sig c (cose_sig_struct s.prot_bstr s.payload_bstr) s.sig px py)
    else rejected pin_mismatch

unfoldable pub parsed_gates : Crypto → Options → Bytes → Bytes → Result Sign1 → VerifyResult
unfolding sign1_gates
parsed_gates c opt px py (err e) = rejected (cose e)
parsed_gates c opt px py (ok s) = sign1_gates c opt px py s

-- `VerifyCOSEBundle`.
unfoldable pub verify_cose_bundle : Crypto → CoseBundle → Options → VerifyResult
unfolding parsed_gates
verify_cose_bundle c b opt = or_rejected (hex_decode b.cose) cose_hex λ bs.
    or_rejected (hex_decode b.pub_x) pub_x_hex λ px.
      or_rejected (hex_decode b.pub_y) pub_y_hex
        λ py. parsed_gates c opt px py (parse_cose_sign1 bs)

-- `COSEPayload`.
unfoldable pub cose_payload : Bytes → Result Bytes
cose_payload h = do raw ← hex_decode h; s ← parse_cose_sign1 raw; ok s.payload

-- `coseProtected`.
abbrev pub cose_protected : Bytes
cose_protected = 0x43 ∷ 0xa1 ∷ 0x01 ∷ 0x26 ∷ []

-- `bstrHead`.
unfoldable pub bstr_head : ℕ → Bytes
bstr_head n =
    if ltb n 24
    then bit_or 0x40 n ∷ []
    else if ltb n 256
    then 0x58 ∷ n ∷ []
    else if ltb n 65536
    then 0x59 ∷ n / 2 ^ 8 % 256 ∷ n % 256 ∷ []
    else 0x5a ∷ n / 2 ^ 24 % 256 ∷ n / 2 ^ 16 % 256 ∷ n / 2 ^ 8 % 256 ∷ n % 256 ∷ []

-- The bytes that `SignCOSESign1` signs.
unfoldable pub to_be_signed : Bytes → Bytes
to_be_signed payload = cose_sig_struct cose_protected (bstr_head (length payload) ++ payload)

-- The message that `SignCOSESign1` emits, for the signature of 64 bytes.
unfoldable pub encode_cose_sign1 : Bytes → Bytes → Bytes
encode_cose_sign1 payload sig =
    let payload_bstr = bstr_head (length payload) ++ payload in
    0xd2 ∷ 0x84 ∷ cose_protected ++ 0xa0 ∷ [] ++ (payload_bstr ++ (bstr_head 64 ++ sig))
