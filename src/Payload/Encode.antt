-- ===== src/Payload/Encode.antt =====
-- src/common/he_payload.h, the wire contract of src/verifier/bound.go: the deterministic CBOR map
-- of the device, and what the fields of a payload may be.
use open_opticon.Common.{ℕ, ◌^◌, ◌≤◌, ◌<◌, ◌≡◌, Bool, [], ◌∷◌, ◌++◌, length, All, if◌then◌else◌}
use open_opticon.Common.Bytes.{Bytes, IsByte}
use open_opticon.Cbor.Head.{encode_head}
use open_opticon.Payload.{Predicate, nonce_max, hash_len}

-- A key and the value after it, in front of the rest of the map.
unfoldable pub put_uint : ℕ → ℕ → Bytes → Bytes
put_uint key v rest = encode_head 0 key ++ (encode_head 0 v ++ rest)

unfoldable pub put_bool : ℕ → Bool → Bytes → Bytes
put_bool key v rest = encode_head 0 key ++ ((if v then 0xf5 else 0xf4) ∷ rest)

unfoldable pub put_bstr : ℕ → Bytes → Bytes → Bytes
put_bstr key v rest = encode_head 0 key ++ (encode_head 2 (length v) ++ (v ++ rest))

-- The eleven entries in ascending order.
unfoldable pub payload_entries : Predicate → Bytes
payload_entries p = put_uint 0 p.version (
    put_bstr 1 p.nonce (
      put_uint 2 p.event_id (
        put_bool 3 p.voice_active (
          put_uint 4 p.presence (
            put_uint 5 p.frames (
              put_uint 6 p.window_ms (
                put_uint 7 p.counter (
                  put_bstr 8 p.config_hash
                    (put_bstr 9 p.input_hash (put_bstr 10 p.prev_digest []))))))))))

unfoldable pub encode_payload : Predicate → Bytes
encode_payload p = encode_head 5 11 ++ payload_entries p

-- Numbers are `uint64`s, a nonce has at most 64 bytes and a digest has 32.
abbrev pub IsU64 : ℕ → Type 0
IsU64 v = v < 2 ^ 64

abbrev pub IsNonce : Bytes → Type 0
IsNonce v = (length v ≤ nonce_max) × All IsByte v

abbrev pub IsDigest : Bytes → Type 0
IsDigest v = (length v ≡ hash_len) × All IsByte v

pub record IsWire (p : Predicate) : Type 0 where
  pub version : IsU64 p.version
  pub nonce : IsNonce p.nonce
  pub event_id : IsU64 p.event_id
  pub presence : IsU64 p.presence
  pub frames : IsU64 p.frames
  pub window_ms : IsU64 p.window_ms
  pub counter : IsU64 p.counter
  pub config_hash : IsDigest p.config_hash
  pub input_hash : IsDigest p.input_hash
  pub prev_digest : IsDigest p.prev_digest
