-- ===== src/Endorsement.antt =====
-- src/verifier/transparency.go: the endorsement body and its COSE_Sign1 form. An error is `none`.
use open_opticon.Common.{
  Bool, false, ◌||◌, not, Option, none, some, List, [], ◌∷◌, ◌++◌, length, ◌==◌, if◌then◌else◌,
}
use open_opticon.Common.Bytes.{Bytes, bytes_eq}
use open_opticon.Common.Results.{Result, ok, err}
use open_opticon.Hex.{hex_decode, hex_encode}
use open_opticon.Crypto.{Crypto, verify_sig}
use open_opticon.Cose.{Sign1, parse_cose_sign1, cose_sig_struct}
use open_opticon.Checkpoint.{split_lines, trim_right, succeeds}

-- "honest-ear/endorsement/v1".
abbrev endorsement_schema : Bytes
endorsement_schema =
    0x68 ∷ 0x6f ∷ 0x6e ∷ 0x65 ∷ 0x73 ∷ 0x74 ∷ 0x2d ∷ 0x65 ∷ 0x61 ∷ 0x72 ∷ 0x2f ∷ 0x65 ∷ 0x6e ∷ 0x64
    ∷ 0x6f ∷ 0x72 ∷ 0x73 ∷ 0x65 ∷ 0x6d ∷ 0x65 ∷ 0x6e ∷ 0x74 ∷ 0x2f ∷ 0x76 ∷ 0x31 ∷ []

record Endorsement : Type 0 where
  endorser : Bytes
  device_x : Bytes
  device_y : Bytes

-- `strings.Contains(s, "\n")`.
unfoldable has_newline : Bytes → Bool
has_newline [] = false
has_newline (b ∷ bs) = b == 0x0a || has_newline bs

-- `EndorsementBody`.
unfoldable endorsement_body : Endorsement → Option Bytes
unfolding has_newline
endorsement_body e =
    if has_newline e.endorser
    then none
    else if not (length e.device_x == 32) || not (length e.device_y == 32)
    then none
    else some (
        endorsement_schema
        ++ 0x0a ∷ e.endorser
        ++ 0x0a ∷ hex_encode e.device_x
        ++ 0x0a ∷ hex_encode e.device_y
        ++ 0x0a ∷ [])

-- A coordinate: hex of 32 bytes.
unfoldable coordinate : Result Bytes → Option Bytes
coordinate (err e) = none
coordinate (ok x) = if length x == 32 then some x else none

unfoldable endorsed : Bytes → Option Bytes → Option Bytes → Option Endorsement
endorsed name (some x) (some y) = some (record { endorser = name; device_x = x; device_y = y })
endorsed name (some x) none = none
endorsed name none y = none

unfoldable endorsement_lines : List Bytes → Option Endorsement
unfolding endorsed coordinate
endorsement_lines (schema ∷ name ∷ x ∷ y ∷ []) =
    if bytes_eq schema endorsement_schema
    then endorsed name (coordinate (hex_decode x)) (coordinate (hex_decode y))
    else none
endorsement_lines _ = none

-- `ParseEndorsement`.
unfoldable parse_endorsement : Bytes → Option Endorsement
unfolding endorsement_lines
parse_endorsement body = endorsement_lines (split_lines (trim_right body))

unfoldable verify_parsed_endorsement : Crypto → Bytes → Bytes → Result Sign1 → Option Endorsement
unfolding parse_endorsement
verify_parsed_endorsement c px py (err e) = none
verify_parsed_endorsement c px py (ok s) =
    if succeeds (verify_sig c (cose_sig_struct s.prot_bstr s.payload_bstr) s.sig px py)
    then parse_endorsement s.payload
    else none

-- `VerifyCOSEEndorsement`.
unfoldable verify_cose_endorsement : Crypto → Bytes → Bytes → Bytes → Option Endorsement
unfolding verify_parsed_endorsement
verify_cose_endorsement c cose px py = verify_parsed_endorsement c px py (parse_cose_sign1 cose)
