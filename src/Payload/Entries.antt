-- ===== src/Payload/Entries.antt =====
-- src/verifier/bound.go: what the loop of `DecodePayload` read, in three stretches of the map.
use open_opticon.Common.{
  ℕ, suc, ◌+◌, ◌≡◌, refl, ◌∙◌, ap, Bool, some, none, arith, All, leb→le, ==_iff,
}
use open_opticon.Common.Bytes.{Bytes, IsByte}
use open_opticon.Common.Results.{ok}
use open_opticon.Payload.{Predicate, Decoding, read_field, mark_seen, decode_entries, all_keys}
use open_opticon.Payload.Encode.{put_uint, put_bool, put_bstr, IsU64, IsNonce, IsDigest}
use open_opticon.Payload.Unique.{Step-uint, Step-bool, Step-bstr}

count_three : {n a b c : ℕ} → n ≡ suc a → a ≡ suc b → b ≡ suc c → n ≡ c + 3
count_three p q r = omega arith

count_four : {n a b c d : ℕ} → n ≡ suc a → a ≡ suc b → b ≡ suc c → c ≡ suc d → n ≡ d + 4
count_four p q r t = omega arith

-- Entries 0 to 3, read onto the predicate `p`.
pub record FirstEntries (n : ℕ) (p : Predicate) (d' : Decoding) (bs rest : Bytes) : Type 0 where
  pub version : ℕ
  pub nonce : Bytes
  pub event_id : ℕ
  pub voice_active : Bool
  pub left : ℕ
  pub count : n ≡ left + 4
  pub more : Bytes
  pub split :
      bs
      ≡ put_uint 0 version (put_bstr 1 nonce (put_uint 2 event_id (put_bool 3 voice_active more)))
  pub version_fits : IsU64 version
  pub nonce_fits : IsNonce nonce
  pub event_id_fits : IsU64 event_id
  pub tail : All IsByte more
  pub goes_on :
      decode_entries left
        (record {
          predicate = record p {
            version = version;
            nonce = nonce;
            event_id = event_id;
            voice_active = voice_active;
          };
          seen = 15;
          last_key = some 3;
        })
        more
      ≡ ok (d', rest)

pub first_entries :
    (n : ℕ) (p : Predicate) (d' : Decoding) (bs rest : Bytes)
    → All IsByte bs
    → d'.seen ≡ all_keys
    → decode_entries n (record { predicate = p; seen = 0; last_key = none }) bs ≡ ok (d', rest)
    → FirstEntries n p d' bs rest
unfolding mark_seen read_field
first_entries n p d' bs rest h s run =
    let s0 = Step-uint n 0 _ d' bs rest h refl refl (rw s) run _ (λ b. refl) in
    let s1 =
      Step-bstr s0.left 1 _ d' s0.more rest s0.tail refl refl (rw s) s0.goes_on _ _ _ (λ b. refl) in
    let s2 =
      Step-uint s1.left 2 _ d' s1.more rest s1.tail refl refl (rw s) s1.goes_on _ (λ b. refl) in
    let s3 =
      Step-bool s2.left 3 _ d' s2.more rest s2.tail refl refl (rw s) s2.goes_on _ (λ b. refl) in
    record {
      version = s0.v;
      nonce = s1.v;
      event_id = s2.v;
      voice_active = s3.v;
      left = s3.left;
      count = count_four s0.count s1.count s2.count s3.count;
      more = s3.more;
      split =
          s0.split
          ∙ ap (put_uint 0 s0.v)
              (s1.split ∙ ap (put_bstr 1 s1.v) (s2.split ∙ ap (put_uint 2 s2.v) (s3.split)));
      version_fits = s0.fits;
      nonce_fits = (leb→le _ _ s1.fits.0, s1.fits.1);
      event_id_fits = s2.fits;
      tail = s3.tail;
      goes_on = s3.goes_on;
    }

-- Entries 4 to 7, read onto the predicate `p`.
pub record MiddleEntries (n : ℕ) (p : Predicate) (d' : Decoding) (bs rest : Bytes) : Type 0 where
  pub presence : ℕ
  pub frames : ℕ
  pub window_ms : ℕ
  pub counter : ℕ
  pub left : ℕ
  pub count : n ≡ left + 4
  pub more : Bytes
  pub split :
      bs ≡ put_uint 4 presence (put_uint 5 frames (put_uint 6 window_ms (put_uint 7 counter more)))
  pub presence_fits : IsU64 presence
  pub frames_fits : IsU64 frames
  pub window_ms_fits : IsU64 window_ms
  pub counter_fits : IsU64 counter
  pub tail : All IsByte more
  pub goes_on :
      decode_entries left
        (record {
          predicate = record p {
            presence = presence;
            frames = frames;
            window_ms = window_ms;
            counter = counter;
          };
          seen = 255;
          last_key = some 7;
        })
        more
      ≡ ok (d', rest)

pub middle_entries :
    (n : ℕ) (p : Predicate) (d' : Decoding) (bs rest : Bytes)
    → All IsByte bs
    → d'.seen ≡ all_keys
    → decode_entries n (record { predicate = p; seen = 15; last_key = some 3 }) bs ≡ ok (d', rest)
    → MiddleEntries n p d' bs rest
unfolding mark_seen read_field
middle_entries n p d' bs rest h s run =
    let s0 = Step-uint n 4 _ d' bs rest h refl refl (rw s) run _ (λ b. refl) in
    let s1 =
      Step-uint s0.left 5 _ d' s0.more rest s0.tail refl refl (rw s) s0.goes_on _ (λ b. refl) in
    let s2 =
      Step-uint s1.left 6 _ d' s1.more rest s1.tail refl refl (rw s) s1.goes_on _ (λ b. refl) in
    let s3 =
      Step-uint s2.left 7 _ d' s2.more rest s2.tail refl refl (rw s) s2.goes_on _ (λ b. refl) in
    record {
      presence = s0.v;
      frames = s1.v;
      window_ms = s2.v;
      counter = s3.v;
      left = s3.left;
      count = count_four s0.count s1.count s2.count s3.count;
      more = s3.more;
      split =
          s0.split
          ∙ ap (put_uint 4 s0.v)
              (s1.split ∙ ap (put_uint 5 s1.v) (s2.split ∙ ap (put_uint 6 s2.v) (s3.split)));
      presence_fits = s0.fits;
      frames_fits = s1.fits;
      window_ms_fits = s2.fits;
      counter_fits = s3.fits;
      tail = s3.tail;
      goes_on = s3.goes_on;
    }

-- Entries 8 to 10, read onto the predicate `p`.
pub record LastEntries (n : ℕ) (p : Predicate) (d' : Decoding) (bs rest : Bytes) : Type 0 where
  pub config_hash : Bytes
  pub input_hash : Bytes
  pub prev_digest : Bytes
  pub left : ℕ
  pub count : n ≡ left + 3
  pub more : Bytes
  pub split : bs ≡ put_bstr 8 config_hash (put_bstr 9 input_hash (put_bstr 10 prev_digest more))
  pub config_hash_fits : IsDigest config_hash
  pub input_hash_fits : IsDigest input_hash
  pub prev_digest_fits : IsDigest prev_digest
  pub tail : All IsByte more
  pub goes_on :
      decode_entries left
        (record {
          predicate = record p {
            config_hash = config_hash;
            input_hash = input_hash;
            prev_digest = prev_digest;
          };
          seen = 2047;
          last_key = some 10;
        })
        more
      ≡ ok (d', rest)

pub last_entries :
    (n : ℕ) (p : Predicate) (d' : Decoding) (bs rest : Bytes)
    → All IsByte bs
    → d'.seen ≡ all_keys
    → decode_entries n (record { predicate = p; seen = 255; last_key = some 7 }) bs ≡ ok (d', rest)
    → LastEntries n p d' bs rest
unfolding mark_seen read_field
last_entries n p d' bs rest h s run =
    let s0 = Step-bstr n 8 _ d' bs rest h refl refl (rw s) run _ _ _ (λ b. refl) in
    let s1 =
      Step-bstr s0.left 9 _ d' s0.more rest s0.tail refl refl (rw s) s0.goes_on _ _ _ (λ b. refl) in
    let s2 =
      Step-bstr s1.left 10 _ d' s1.more rest s1.tail refl refl (rw s) s1.goes_on _ _ _
        (λ b. refl) in
    record {
      config_hash = s0.v;
      input_hash = s1.v;
      prev_digest = s2.v;
      left = s2.left;
      count = count_three s0.count s1.count s2.count;
      more = s2.more;
      split = s0.split ∙ ap (put_bstr 8 s0.v) (s1.split ∙ ap (put_bstr 9 s1.v) (s2.split));
      config_hash_fits = ((==_iff _ _).0 s0.fits.0, s0.fits.1);
      input_hash_fits = ((==_iff _ _).0 s1.fits.0, s1.fits.1);
      prev_digest_fits = ((==_iff _ _).0 s2.fits.0, s2.fits.1);
      tail = s2.tail;
      goes_on = s2.goes_on;
    }
