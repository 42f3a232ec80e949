-- ===== src/Payload/Complete.antt =====
-- src/verifier/bound.go: `DecodePayload` reads every encoded predicate.
use open_opticon.Common.{
  ℕ, suc, ◌^◌, ◌<◌, ◌≡◌, refl, ◌∙◌, Bool, true, some, [], ◌++◌, arith, length, if◌then◌else◌, ◌∷◌,
  le→leb, ==_iff,
}
use open_opticon.Common.Bytes.{Bytes}
use open_opticon.Common.Results.{Error, ok}
use open_opticon.Cbor.Head.{encode_head, read_head-encode_head}
use open_opticon.Cbor.Values.{read_uint-encode_head, read_bstr-encode_head, read_bool-byte}
use open_opticon.Payload.{
  Predicate, Decoding, blank, start, uint_field, bool_field, bstr_field, read_field, check_order,
  check_unseen, mark_seen, decode_entry, decode_entries, decode_payload, all_keys,
}
use open_opticon.Payload.Encode.{
  put_uint, put_bool, put_bstr, encode_payload, payload_entries, IsU64, IsWire,
}

-- The state behind an entry.
abbrev pub after : Decoding → ℕ → Predicate → Decoding
after d key p = record { predicate = p; seen = mark_seen d.seen key; last_key = some key }

module _ (n : ℕ) (d : Decoding) (key : ℕ) (small : key < 11) (rest : Bytes)
    (order : check_order d.last_key key ≡ ok tt) (unseen : check_unseen d.seen key ≡ ok tt) where
  entry_uint :
      (set : ℕ → Predicate) (v : ℕ)
      → ((bs : Bytes) → read_field key d.predicate bs ≡ uint_field key set bs)
      → IsU64 v
      → decode_entries (suc n) d (put_uint key v rest) ≡ decode_entries n (after d key (set v)) rest
  unfolding decode_entries decode_entry put_uint uint_field
  entry_uint set v field fits =
      let k = read_uint-encode_head key (encode_head 0 v ++ rest) (omega arith) in
      let r = read_uint-encode_head v rest fits in rw (k, order, unseen, field, r)

  entry_bool :
      (set : Bool → Predicate) (v : Bool)
      → ((bs : Bytes) → read_field key d.predicate bs ≡ bool_field key set bs)
      → decode_entries (suc n) d (put_bool key v rest) ≡ decode_entries n (after d key (set v)) rest
  unfolding decode_entries decode_entry put_bool bool_field
  entry_bool set v field =
      let k = read_uint-encode_head key ((if v then 0xf5 else 0xf4) ∷ rest) (omega arith) in
      let r = read_bool-byte v rest in rw (k, order, unseen, field, r)

  entry_bstr :
      (fits : ℕ → Bool) (bad_length : ℕ → Error) (set : Bytes → Predicate) (v : Bytes)
      → ((bs : Bytes) → read_field key d.predicate bs ≡ bstr_field key fits bad_length set bs)
      → fits (length v) ≡ true
      → length v < 2 ^ 64
      → decode_entries (suc n) d (put_bstr key v rest) ≡ decode_entries n (after d key (set v)) rest
  unfolding decode_entries decode_entry put_bstr bstr_field
  entry_bstr fits bad_length set v field good small_length =
      let k = read_uint-encode_head key (encode_head 2 (length v) ++ (v ++ rest)) (omega arith) in
      let r = read_bstr-encode_head v rest small_length in rw (k, order, unseen, field, r, good)

-- The state behind the first entries.
abbrev stage_4 : Predicate → Decoding
stage_4 p = record {
  predicate = record blank {
    version = p.version;
    nonce = p.nonce;
    event_id = p.event_id;
    voice_active = p.voice_active;
  };
  seen = 15;
  last_key = some 3;
}

abbrev stage_8 : Predicate → Decoding
stage_8 p = record {
  predicate = record blank {
    version = p.version;
    nonce = p.nonce;
    event_id = p.event_id;
    voice_active = p.voice_active;
    presence = p.presence;
    frames = p.frames;
    window_ms = p.window_ms;
    counter = p.counter;
  };
  seen = 255;
  last_key = some 7;
}

abbrev stage_11 : Predicate → Decoding
stage_11 p = record { predicate = p; seen = all_keys; last_key = some 10 }

module _ (p : Predicate) (w : IsWire p) where
  entries_0_4 :
      (rest : Bytes)
      → decode_entries 11 start (
          put_uint 0 p.version
            (put_bstr 1 p.nonce (put_uint 2 p.event_id (put_bool 3 p.voice_active rest))))
        ≡ decode_entries 7 (stage_4 p) rest
  unfolding check_order check_unseen mark_seen read_field
  entries_0_4 rest =
      entry_uint 10 start 0 (omega arith) _ refl refl _ p.version (λ bs. refl) w.version
      ∙ entry_bstr 9 _ 1 (omega arith) _ refl refl _ _ _ p.nonce (λ bs. refl) (le→leb _ _ w.nonce.0)
          (omega arith)
      ∙ entry_uint 8 _ 2 (omega arith) _ refl refl _ p.event_id (λ bs. refl) w.event_id
      ∙ entry_bool 7 _ 3 (omega arith) _ refl refl _ p.voice_active (λ bs. refl)

  entries_4_8 :
      (rest : Bytes)
      → decode_entries 7 (stage_4 p) (
          put_uint 4 p.presence
            (put_uint 5 p.frames (put_uint 6 p.window_ms (put_uint 7 p.counter rest))))
        ≡ decode_entries 3 (stage_8 p) rest
  unfolding check_order check_unseen mark_seen read_field
  entries_4_8 rest =
      entry_uint 6 (stage_4 p) 4 (omega arith) _ refl refl _ p.presence (λ bs. refl) w.presence
      ∙ entry_uint 5 _ 5 (omega arith) _ refl refl _ p.frames (λ bs. refl) w.frames
      ∙ entry_uint 4 _ 6 (omega arith) _ refl refl _ p.window_ms (λ bs. refl) w.window_ms
      ∙ entry_uint 3 _ 7 (omega arith) _ refl refl _ p.counter (λ bs. refl) w.counter

  entries_8_11 :
      decode_entries 3
        (stage_8 p)
        (put_bstr 8 p.config_hash (put_bstr 9 p.input_hash (put_bstr 10 p.prev_digest [])))
      ≡ decode_entries 0 (stage_11 p) []
  unfolding check_order check_unseen mark_seen read_field
  entries_8_11 =
      entry_bstr 2 (stage_8 p) 8 (omega arith) _ refl refl _ _ _ p.config_hash (λ bs. refl)
        ((==_iff _ _).1 w.config_hash.0) (omega arith)
      ∙ entry_bstr 1 _ 9 (omega arith) _ refl refl _ _ _ p.input_hash (λ bs. refl)
          ((==_iff _ _).1 w.input_hash.0) (omega arith)
      ∙ entry_bstr 0 _ 10 (omega arith) _ refl refl _ _ _ p.prev_digest (λ bs. refl)
          ((==_iff _ _).1 w.prev_digest.0) (omega arith)

  decode_entries-payload_entries : decode_entries 11 start (payload_entries p) ≡ ok (stage_11 p, [])
  unfolding payload_entries
  decode_entries-payload_entries =
      entries_0_4 _ ∙ entries_4_8 _ ∙ entries_8_11 ∙ unfold decode_entries in refl

-- Decoding what the device encoded gives the predicate back, for every predicate whose fields are in
-- the wire contract's range.
pub decode_payload-encode_payload :
    (p : Predicate) → IsWire p → decode_payload (encode_payload p) ≡ ok p
unfolding decode_payload encode_payload
decode_payload-encode_payload p w = rw (
  read_head-encode_head 5 11 (payload_entries p) (omega arith) (omega arith),
  decode_entries-payload_entries p w,
)
