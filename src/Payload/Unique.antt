-- ===== src/Payload/Unique.antt =====
-- src/verifier/bound.go: the bytes of an accepted payload are determined by its predicate.
use open_opticon.Common.{
  ℕ, suc, ◌≡◌, ◌∙◌, ap, Bool, true, ◌∷◌, ◌++◌, arith, length, All, if◌then◌else◌,
}
use open_opticon.Common.Bits.{bit}
use open_opticon.Common.Bytes.{Bytes, IsByte}
use open_opticon.Common.Results.{
  Error, ok, >>=-eq-ok, wrap, wrap-eq-ok, guard, guard-eq-ok, value_for_key,
}
use open_opticon.Cbor.{read_uint, read_bstr, read_bool}
use open_opticon.Cbor.Head.{encode_head}
use open_opticon.Cbor.Values.{read_uint-IsUint, read_bstr-IsBstr, read_bool-IsBool}
use open_opticon.Payload.{
  Predicate, Decoding, uint_field, bool_field, bstr_field, read_field, decode_entries,
}
use open_opticon.Payload.Encode.{put_uint, put_bool, put_bstr, IsU64}
use open_opticon.Payload.Complete.{after}
use open_opticon.Payload.Canonical.{Next, expected_next, Follows}

-- An entry with its value, and the run of the loop from behind it.
pub record Step {A : Type 0} (put : A → Bytes → Bytes) (P : A → Type 0) (next : A → Decoding)
    (n : ℕ) (d' : Decoding) (bs rest : Bytes) : Type 0 where
  pub v : A
  pub left : ℕ
  pub count : n ≡ suc left
  pub more : Bytes
  pub split : bs ≡ put v more
  pub fits : P v
  pub tail : All IsByte more
  pub goes_on : decode_entries left (next v) more ≡ ok (d', rest)

module _ (n j : ℕ) (d d' : Decoding) (bs rest : Bytes) (h : All IsByte bs)
    (follows : Follows d.last_key j) (unseen : bit j d.seen ≡ 0) (seen : bit j d'.seen ≡ 1)
    (run : decode_entries n d bs ≡ ok (d', rest)) where
  abbrev entry : Next n j d d' bs rest
  entry = expected_next n j d d' bs rest follows unseen seen run

  pub Step-uint :
      (set : ℕ → Predicate)
      → ((b : Bytes) → read_field j d.predicate b ≡ uint_field j set b)
      → Step (put_uint j) IsU64 (λ v. after d j (set v)) n d' bs rest
  unfolding put_uint uint_field
  Step-uint set field =
      let i = entry in
      let k = read_uint-IsUint bs i.body j h i.key_read in
      let e = rw field at i.value_read in
      let ((v, r), e1, e2) = >>=-eq-ok (wrap (value_for_key j) (read_uint i.body)) _ e in
      let q : (set v ≡ i.predicate) × (r ≡ i.more) = ground arith in
      let u = read_uint-IsUint i.body r v k.tail (wrap-eq-ok (value_for_key j) _ e1) in
      record {
        v = v;
        left = i.left;
        count = i.count;
        more = i.more;
        split =
            k.split
            ∙ ap (λ (x : Bytes). encode_head 0 j ++ x)
                (u.split ∙ ap (λ (x : Bytes). encode_head 0 v ++ x) q.1);
        fits = u.lt;
        tail = rw (← q.1) u.tail;
        goes_on = rw q.0 i.goes_on;
      }

  pub Step-bool :
      (set : Bool → Predicate)
      → ((b : Bytes) → read_field j d.predicate b ≡ bool_field j set b)
      → Step (put_bool j) (λ _. Unit {0}) (λ v. after d j (set v)) n d' bs rest
  unfolding put_bool bool_field
  Step-bool set field =
      let i = entry in
      let k = read_uint-IsUint bs i.body j h i.key_read in
      let e = rw field at i.value_read in
      let ((v, r), e1, e2) = >>=-eq-ok (wrap (value_for_key j) (read_bool i.body)) _ e in
      let q : (set v ≡ i.predicate) × (r ≡ i.more) = ground arith in
      let u = read_bool-IsBool i.body r v k.tail (wrap-eq-ok (value_for_key j) _ e1) in
      record {
        v = v;
        left = i.left;
        count = i.count;
        more = i.more;
        split =
            k.split
            ∙ ap (λ (x : Bytes). encode_head 0 j ++ x)
                (u.split ∙ ap (λ (x : Bytes). (if v then 0xf5 else 0xf4) ∷ x) q.1);
        fits = tt;
        tail = rw (← q.1) u.tail;
        goes_on = rw q.0 i.goes_on;
      }

  pub Step-bstr :
      (test : ℕ → Bool) (bad_length : ℕ → Error) (set : Bytes → Predicate)
      → ((b : Bytes) → read_field j d.predicate b ≡ bstr_field j test bad_length set b)
      → Step
          (put_bstr j)
          (λ v. (test (length v) ≡ true) × All IsByte v)
          (λ v. after d j (set v))
          n
          d'
          bs
          rest
  unfolding put_bstr bstr_field
  Step-bstr test bad_length set field =
      let i = entry in
      let k = read_uint-IsUint bs i.body j h i.key_read in
      let e = rw field at i.value_read in
      let ((v, r), e1, e2) = >>=-eq-ok (wrap (value_for_key j) (read_bstr i.body)) _ e in
      let (_, e3, e4) = >>=-eq-ok (guard (test (length v)) (bad_length (length v))) _ e2 in
      let q : (set v ≡ i.predicate) × (r ≡ i.more) = ground arith in
      let u = read_bstr-IsBstr i.body v r k.tail (wrap-eq-ok (value_for_key j) _ e1) in
      record {
        v = v;
        left = i.left;
        count = i.count;
        more = i.more;
        split =
            k.split
            ∙ ap (λ (x : Bytes). encode_head 0 j ++ x)
                (u.split ∙ ap (λ (x : Bytes). encode_head 2 (length v) ++ (v ++ x)) q.1);
        fits = (guard-eq-ok _ (bad_length (length v)) e3, u.small);
        tail = rw (← q.1) u.tail;
        goes_on = rw q.0 i.goes_on;
      }
