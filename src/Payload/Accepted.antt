-- ===== src/Payload/Accepted.antt =====
-- src/verifier/bound.go: what `DecodePayload` accepted is the encoding of the predicate returned.
use open_opticon.Common.{ℕ, ◌≡◌, refl, ◌∙◌, ap, true, [], ◌∷◌, arith, length, ◌==◌, All, ==_iff}
use open_opticon.Common.Bytes.{Bytes, IsByte}
use open_opticon.Common.Results.{
  ok, ◌>>◌, >>=-eq-ok, guard, guard-eq-ok, not_a_map, missing_keys, trailing_bytes,
}
use open_opticon.Cbor.{read_head}
use open_opticon.Cbor.Canonical.{read_head-IsHead}
use open_opticon.Payload.{
  Predicate, Decoding, blank, start, decode_entries, decode_payload, all_keys,
}
use open_opticon.Payload.Encode.{payload_entries, encode_payload, IsWire}
use open_opticon.Payload.Canonical.{last_key_ends}
use open_opticon.Payload.Entries.{
  FirstEntries, MiddleEntries, LastEntries, first_entries, middle_entries, last_entries,
}

module _ (n : ℕ) (d : Decoding) (body : Bytes) (a : FirstEntries n blank d body []) where
  abbrev with_first : Predicate
  with_first = record blank {
    version = a.version;
    nonce = a.nonce;
    event_id = a.event_id;
    voice_active = a.voice_active;
  }

  module _ (b : MiddleEntries a.left with_first d a.more []) where
    abbrev with_middle : Predicate
    with_middle = record with_first {
      presence = b.presence;
      frames = b.frames;
      window_ms = b.window_ms;
      counter = b.counter;
    }

    module _ (c : LastEntries b.left with_middle d b.more []) where
      abbrev with_last : Predicate
      with_last = record with_middle {
        config_hash = c.config_hash;
        input_hash = c.input_hash;
        prev_digest = c.prev_digest;
      }

      with_last-IsWire : IsWire with_last
      with_last-IsWire = record {
        version = a.version_fits;
        nonce = a.nonce_fits;
        event_id = a.event_id_fits;
        presence = b.presence_fits;
        frames = b.frames_fits;
        window_ms = b.window_ms_fits;
        counter = b.counter_fits;
        config_hash = c.config_hash_fits;
        input_hash = c.input_hash_fits;
        prev_digest = c.prev_digest_fits;
      }

      assemble :
          c.left ≡ 0
          → d.predicate ≡ with_last
          → [] ≡ c.more
          → (n ≡ 11) × (body ≡ payload_entries d.predicate) × IsWire d.predicate
      unfolding payload_entries
      assemble zero_left same done = rw same (
        omega (arith, a.count, b.count, c.count),
        cc (a.split, b.split, c.split, done),
        with_last-IsWire,
      )

abbrev IsWhole : ℕ → Decoding → Bytes → Type 0
IsWhole n d body = (n ≡ 11) × (body ≡ payload_entries d.predicate) × IsWire d.predicate

module _ (n : ℕ) (d : Decoding) (body : Bytes) (seen : d.seen ≡ all_keys) where
  IsWhole-from_last :
      (a : FirstEntries n blank d body [])
      (b : MiddleEntries a.left (with_first n d body a) d a.more [])
      (c : LastEntries b.left (with_middle n d body a b) d b.more [])
      → IsWhole n d body
  IsWhole-from_last a b c =
      let z = last_key_ends c.left (with_last n d body a b c) d c.more [] 2047 c.goes_on in
      assemble n d body a b c z.0 z.1 z.2

  IsWhole-from_middle :
      (a : FirstEntries n blank d body [])
      (b : MiddleEntries a.left (with_first n d body a) d a.more [])
      → IsWhole n d body
  IsWhole-from_middle a b =
      IsWhole-from_last a b
        (last_entries b.left (with_middle n d body a b) d b.more [] b.tail seen b.goes_on)

  IsWhole-from_first : (a : FirstEntries n blank d body []) → IsWhole n d body
  IsWhole-from_first a =
      IsWhole-from_middle a
        (middle_entries a.left (with_first n d body a) d a.more [] a.tail seen a.goes_on)

  whole : All IsByte body → decode_entries n start body ≡ ok (d, []) → IsWhole n d body
  whole h run = IsWhole-from_first (first_entries n blank d body [] h seen run)

no_bytes : (rest : Bytes) → (length rest == 0) ≡ true → rest ≡ []
no_bytes [] h = refl
no_bytes (b ∷ rest) h = absurd (omega (arith, (==_iff (length (b ∷ rest)) 0).0 h))

-- What `decode_payload` accepted, in parts.
record Parts (bs : Bytes) (p : Predicate) : Type 0 where
  n : ℕ
  body : Bytes
  d : Decoding
  head : read_head bs ≡ ok (5, n, body)
  run : decode_entries n start body ≡ ok (d, [])
  seen : d.seen ≡ all_keys
  same : d.predicate ≡ p

tail-Parts :
    (bs : Bytes) (p : Predicate) (n : ℕ) (body : Bytes) (d : Decoding) (rest : Bytes)
    → read_head bs ≡ ok (5, n, body)
    → decode_entries n start body ≡ ok (d, rest)
    → (guard (d.seen == all_keys) (missing_keys d.seen)
        >> (guard (length rest == 0) trailing_bytes >> ok d.predicate))
      ≡ ok p
    → Parts bs p
tail-Parts bs p n body d rest e r h =
    let (_, h1, h2) = >>=-eq-ok (guard (d.seen == all_keys) (missing_keys d.seen)) _ h in
    let (_, h3, h4) = >>=-eq-ok (guard (length rest == 0) trailing_bytes) _ h2 in
    let nil = no_bytes rest (guard-eq-ok _ trailing_bytes h3) in
    record {
      n = n;
      body = body;
      d = d;
      head = e;
      run = r ∙ ap (λ (x : Bytes). ok (d, x)) nil;
      seen = (==_iff d.seen all_keys).0 (guard-eq-ok _ (missing_keys d.seen) h1);
      same = ground arith;
    }

decode_payload-Parts : (bs : Bytes) (p : Predicate) → decode_payload bs ≡ ok p → Parts bs p
unfolding decode_payload
decode_payload-Parts bs p h =
    let ((major, n, body), e1, e2) = >>=-eq-ok (read_head bs) _ h in
    let (_, e3, e4) = >>=-eq-ok (guard (major == 5) (not_a_map major)) _ e2 in
    let five = (==_iff major 5).0 (guard-eq-ok _ (not_a_map major) e3) in
    let ((d, rest), e5, e6) = >>=-eq-ok (decode_entries n start body) _ e4 in
    tail-Parts bs p n body d rest (e1 ∙ ap (λ (x : ℕ). ok (x, n, body)) five) e5 e6

Parts-encode :
    (bs : Bytes) (p : Predicate) → All IsByte bs → Parts bs p → (bs ≡ encode_payload p) × IsWire p
unfolding encode_payload
Parts-encode bs p h t =
    let i = read_head-IsHead bs t.body 5 t.n h t.head in
    let w = whole t.n t.d t.body t.seen i.tail t.run in rw (← t.same) (cc (i.split, w.0, w.1), w.2)

-- `DecodePayload` accepts a byte string only if it is the deterministic encoding of the predicate
-- that it returns, and every field of that is in the wire contract's range.
pub decode_payload-eq_encode :
    (bs : Bytes) (p : Predicate)
    → All IsByte bs
    → decode_payload bs ≡ ok p
    → (bs ≡ encode_payload p) × IsWire p
decode_payload-eq_encode bs p h e = Parts-encode bs p h (decode_payload-Parts bs p e)
