-- ===== src/Tests/Tokens.antt =====
-- An example for PSA tokens.
use open_opticon.Common.{◌≡◌, refl, ap, arith, some, none, [], ◌∷◌, ◌++◌}
use open_opticon.Common.Bytes.{Bytes, bytes_eq}
use open_opticon.Common.Results.{ok}
use open_opticon.Crypto.{verify_sig}
use open_opticon.Cbor.{
  read_head, read_argument, read_wide, read_n, next_byte, read_uint, read_bstr, read_tstr,
}
use open_opticon.Cose.{encode_cose_sign1}
use open_opticon.Cose.Sign.{parse_cose_sign1-encode}
use open_opticon.Token.{
  PsaClaims, PsaOptions, psa_profile, parse_psa_claims, read_claims, claim_field, verify_psa_token,
  parsed_token, signed_claims, claims_result, check_claims, appraise,
}
use open_opticon.Token.Accept.{IsToken, verify_psa_token-IsToken}
use open_opticon.Tests.Samples.{toy, nonce, signature, key_x, key_y}

-- {10: nonce, 265: psa_profile}.
abbrev payload : Bytes
payload = 0xa2 ∷ 0x0a ∷ 0x43 ∷ nonce ++ 0x19 ∷ 0x01 ∷ 0x09 ∷ 0x78 ∷ 0x18 ∷ psa_profile

abbrev token : Bytes
token = encode_cose_sign1 payload signature

abbrev options : PsaOptions
options = record { expected_nonce = nonce; expected_profile = []; references = [] }

abbrev claims : PsaClaims
claims = record {
  profile = psa_profile;
  nonce = nonce;
  instance_id = [];
  implementation_id = [];
  components = [];
}

decoded : parse_psa_claims payload ≡ ok claims
unfolding parse_psa_claims read_claims claim_field read_head read_argument read_wide read_n
    next_byte read_uint read_bstr read_tstr
decoded = refl

accepted :
    verify_psa_token toy token key_x key_y options ≡ record { claims = some claims; error = none }
unfolding verify_psa_token parsed_token signed_claims claims_result check_claims appraise verify_sig
    bytes_eq
accepted = rw (parse_cose_sign1-encode payload signature (omega arith) refl, decoded) refl

verify_psa_token-IsToken_example :
    (c : PsaClaims) × ((verify_psa_token toy token key_x key_y options).claims ≡ some c)
    × IsToken toy token key_x key_y options c
verify_psa_token-IsToken_example =
    verify_psa_token-IsToken toy token key_x key_y options (ap (λ r. r.error) accepted)
