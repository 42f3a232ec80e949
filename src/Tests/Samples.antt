-- ===== src/Tests/Samples.antt =====
-- The data of the tests.
use open_opticon.Common.{
  ℕ, ◌≡◌, refl, arith, true, some, [], ◌∷◌, ◌++◌, length, take, replicate, All, length-take,
  length-append, length-replicate,
}
use open_opticon.Common.Bytes.{Bytes, IsByte}
use open_opticon.Hex.{hex_encode, hex_decode-hex_encode}
use open_opticon.Payload.{Predicate}
use open_opticon.Cbor.Head.{encode_head}
use open_opticon.Payload.Encode.{
  encode_payload, payload_entries, put_uint, put_bool, put_bstr, IsWire, IsDigest,
}
use open_opticon.Payload.Complete.{decode_payload-encode_payload}
use open_opticon.Crypto.{Crypto, verify_sig, set_bytes}
use open_opticon.Bundle.{Options, Bundle}
use open_opticon.Bundle.Gates.{Admits}
use open_opticon.Bundle.Accept.{IsSigned, IsGenuine}

-- The first 32 bytes stand for the digest, and every signature verifies.
abbrev pub toy : Crypto
toy = record {
  sha256 = λ b. take 32 (b ++ replicate 32 0);
  is_on_curve = λ x y. true;
  ecdsa_verify = λ x y h r s. true;
}

pub toy_length : (b : Bytes) → length (toy.sha256 b) ≡ 32
toy_length b = omega (
  arith,
  length-take 32 (b ++ replicate 32 0),
  length-append b (replicate 32 0),
  length-replicate {A = ℕ} 32 0,
)

abbrev pub zeros : Bytes
zeros = replicate 32 0

zeros-IsDigest : IsDigest zeros
zeros-IsDigest = (refl, ground arith)

abbrev pub sample : Predicate
sample = record {
  version = 1;
  nonce = 7 ∷ 8 ∷ 9 ∷ [];
  event_id = 1;
  voice_active = true;
  presence = 300;
  frames = 20;
  window_ms = 70000;
  counter = 5;
  config_hash = zeros;
  input_hash = zeros;
  prev_digest = zeros;
}

pub sample-IsWire : IsWire sample
sample-IsWire = record {
  version = omega arith;
  nonce = (omega arith, ground arith);
  event_id = omega arith;
  presence = omega arith;
  frames = omega arith;
  window_ms = omega arith;
  counter = omega arith;
  config_hash = zeros-IsDigest;
  input_hash = zeros-IsDigest;
  prev_digest = zeros-IsDigest;
}

abbrev pub nonce : Bytes
nonce = 7 ∷ 8 ∷ 9 ∷ []

abbrev pub key_x : Bytes
key_x = 17 ∷ []

abbrev pub key_y : Bytes
key_y = 34 ∷ []

abbrev pub signature : Bytes
signature = replicate 64 1

pub sample_bytes : All IsByte (encode_payload sample)
unfolding encode_payload payload_entries put_uint put_bool put_bstr encode_head
sample_bytes = ground arith

abbrev pub sample_options : Options
sample_options = record {
  expected_nonce = nonce;
  pin_pub_x = some key_x;
  pin_pub_y = some key_y;
  last_counter = 4;
  expected_prev_digest = some zeros;
}

pub IsSigned-sample : (message : Bytes) → IsSigned toy sample_options message signature key_x key_y
unfolding verify_sig set_bytes
IsSigned-sample message = record {
  pinned = (refl, refl);
  signature = refl;
  sig_length = refl;
  is_low = ground arith;
}

pub sample_admitted : Admits sample_options (encode_payload sample) sample
sample_admitted = record {
  decoded = decode_payload-encode_payload sample sample-IsWire;
  version = refl;
  nonce_given = ground arith;
  fresh = refl;
  advances = omega arith;
  chained = refl;
}

abbrev pub sample_bundle : Bundle
sample_bundle = record {
  schema = [];
  payload = hex_encode (encode_payload sample);
  sig = hex_encode signature;
  pub_x = hex_encode key_x;
  pub_y = hex_encode key_y;
}

abbrev pub sample_genuine : IsGenuine toy sample_bundle sample_options
sample_genuine = record {
  payload = encode_payload sample;
  sig = signature;
  px = key_x;
  py = key_y;
  predicate = sample;
  payload_decoded = hex_decode-hex_encode (encode_payload sample) sample_bytes;
  sig_decoded = hex_decode-hex_encode signature (ground arith);
  px_decoded = hex_decode-hex_encode key_x (ground arith);
  py_decoded = hex_decode-hex_encode key_y (ground arith);
  is_signed = IsSigned-sample (encode_payload sample);
  admits = sample_admitted;
}
