-- ===== src/Tests/Formats.antt =====
-- Examples for the CBOR reader, hex, the payload and the COSE_Sign1 message.
use open_opticon.Common.{◌≡◌, refl, arith, [], ◌∷◌, ◌++◌}
use open_opticon.Common.Results.{ok}
use open_opticon.Cbor.{read_head}
use open_opticon.Cbor.Head.{encode_head, read_head-encode_head}
use open_opticon.Cbor.Canonical.{IsHead, read_head-IsHead}
use open_opticon.Hex.{hex_decode, hex_encode, hex_decode-hex_encode}
use open_opticon.Payload.{decode_payload}
use open_opticon.Payload.Encode.{encode_payload, IsWire}
use open_opticon.Payload.Complete.{decode_payload-encode_payload}
use open_opticon.Payload.Accepted.{decode_payload-eq_encode}
use open_opticon.Cose.{bstr_head, cose_protected, parse_cose_sign1, encode_cose_sign1}
use open_opticon.Cose.Sign.{parse_cose_sign1-encode}
use open_opticon.Tests.Samples.{sample, sample-IsWire, sample_bytes, signature}

read_head-encode_head_example : read_head (encode_head 2 70000 ++ 9 ∷ []) ≡ ok (2, 70000, 9 ∷ [])
read_head-encode_head_example = read_head-encode_head 2 70000 (9 ∷ []) (omega arith) (omega arith)

read_head-IsHead_example : IsHead 0 500 (0x19 ∷ 0x01 ∷ 0xf4 ∷ 7 ∷ []) (7 ∷ [])
unfolding encode_head
read_head-IsHead_example =
    read_head-IsHead (0x19 ∷ 0x01 ∷ 0xf4 ∷ 7 ∷ []) (7 ∷ []) 0 500 (ground arith)
      (read_head-encode_head 0 500 (7 ∷ []) (omega arith) (omega arith))

hex_decode-hex_encode_example :
    hex_decode (hex_encode (0 ∷ 171 ∷ 255 ∷ [])) ≡ ok (0 ∷ 171 ∷ 255 ∷ [])
hex_decode-hex_encode_example = hex_decode-hex_encode (0 ∷ 171 ∷ 255 ∷ []) (ground arith)

decode_payload-encode_payload_example : decode_payload (encode_payload sample) ≡ ok sample
decode_payload-encode_payload_example = decode_payload-encode_payload sample sample-IsWire

decode_payload-eq_encode_example : (encode_payload sample ≡ encode_payload sample) × IsWire sample
decode_payload-eq_encode_example =
    decode_payload-eq_encode (encode_payload sample) sample sample_bytes
      (decode_payload-encode_payload sample sample-IsWire)

parse_cose_sign1-encode_example :
    parse_cose_sign1 (encode_cose_sign1 (1 ∷ 2 ∷ 3 ∷ []) signature)
    ≡ ok (record {
      prot_bstr = cose_protected;
      payload = 1 ∷ 2 ∷ 3 ∷ [];
      payload_bstr = bstr_head 3 ++ 1 ∷ 2 ∷ 3 ∷ [];
      sig = signature;
    })
parse_cose_sign1-encode_example =
    parse_cose_sign1-encode (1 ∷ 2 ∷ 3 ∷ []) signature (omega arith) refl
