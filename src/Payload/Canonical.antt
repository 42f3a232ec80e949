-- ===== src/Payload/Canonical.antt =====
-- src/verifier/bound.go: `DecodePayload` accepts nothing but the deterministic encoding of a
-- predicate.
use open_opticon.Common.{
  ℕ, zero, suc, ◌+◌, ◌^◌, ◌≤◌, ◌<◌, ◌≡◌, ◌≢◌, refl, ◌∙◌, ap, sym, some, none, Option, arith,
  ℕ_discrete, lt→ltb,
}
use open_opticon.Common.Bits.{bit, bit-bit_or, bit-pow_ne}
use open_opticon.Common.Bytes.{Bytes}
use open_opticon.Common.Results.{ok, >>=-eq-ok, wrap, wrap-eq-ok, map_key}
use open_opticon.Cbor.{read_uint}
use open_opticon.Payload.{
  Predicate, Decoding, read_field, check_order, check_unseen, mark_seen, decode_entry,
  decode_entries,
}
use open_opticon.Payload.Complete.{after}

-- An accepted entry.
record Entry (d d' : Decoding) (bs rest : Bytes) : Type 0 where
  key : ℕ
  body : Bytes
  predicate : Predicate
  key_read : read_uint bs ≡ ok (key, body)
  ordered : check_order d.last_key key ≡ ok tt
  known : key < 11
  value_read : read_field key d.predicate body ≡ ok (predicate, rest)
  next : d' ≡ after d key predicate

read_field_known :
    (key : ℕ) (p p' : Predicate) (bs rest : Bytes) → read_field key p bs ≡ ok (p', rest) → key < 11
unfolding read_field
read_field_known key p p' bs rest h = ground arith

decode_entry_inv :
    (d d' : Decoding) (bs rest : Bytes) → decode_entry d bs ≡ ok (d', rest) → Entry d d' bs rest
unfolding decode_entry
decode_entry_inv d d' bs rest h =
    let ((key, body), k, h1) = >>=-eq-ok (wrap map_key (read_uint bs)) _ h in
    let (_, o, h2) = >>=-eq-ok (check_order d.last_key key) _ h1 in
    let (_, u, h3) = >>=-eq-ok (check_unseen d.seen key) _ h2 in
    let ((p, r), f, h4) = >>=-eq-ok (read_field key d.predicate body) _ h3 in
    let e : r ≡ rest = ground arith in
    record {
      key = key;
      body = body;
      predicate = p;
      key_read = wrap-eq-ok map_key (read_uint bs) k;
      ordered = o;
      known = read_field_known key d.predicate p body r f;
      value_read = f ∙ ap (λ (x : Bytes). ok (p, x)) e;
      next = ground arith;
    }

-- `key` comes behind `last`, and is the first that may.
abbrev pub Follows : Option ℕ → ℕ → Type 0
Follows none key = key ≡ 0
Follows (some last) key = last + 1 ≡ key

abbrev HasPassed : Option ℕ → ℕ → Type 0
HasPassed none key = ⊥
HasPassed (some last) key = key ≤ last

check_order-lt :
    (last : Option ℕ) (j key : ℕ) → HasPassed last j → check_order last key ≡ ok tt → j < key
unfolding check_order
check_order-lt none j key h e = absurd h
check_order-lt (some last) j key h e = ground arith

check_order-le :
    (last : Option ℕ) (j key : ℕ) → Follows last j → check_order last key ≡ ok tt → j ≤ key
unfolding check_order
check_order-le none j key h e = omega arith
check_order-le (some last) j key h e = ground arith

mark_seen-bit :
    (j seen key : ℕ) → key < 11 → j ≢ key → bit j seen ≡ 0 → bit j (mark_seen seen key) ≡ 0
unfolding mark_seen
mark_seen-bit j seen key h ne e =
    rw (lt→ltb key 11 h, bit-bit_or j seen (2 ^ key), bit-pow_ne j key ne) (omega arith)

-- A key that has been passed is not seen any more.
passed_stays_unseen :
    (n j : ℕ) (d d' : Decoding) (bs rest : Bytes)
    → HasPassed d.last_key j
    → bit j d.seen ≡ 0
    → decode_entries n d bs ≡ ok (d', rest)
    → bit j d'.seen ≡ 0
unfolding decode_entries
passed_stays_unseen zero j d d' bs rest h e r = let q : d ≡ d' = ground arith in rw (← q) e
passed_stays_unseen (suc n) j d d' bs rest h e r =
    let ((d1, bs1), r1, r2) = >>=-eq-ok (decode_entry d bs) _ r in
    let i = decode_entry_inv d d1 bs bs1 r1 in
    let lt = check_order-lt d.last_key j i.key h i.ordered in
    let r3 = rw i.next at r2 in
    passed_stays_unseen n j (after d i.key i.predicate) d' bs1 rest (omega arith)
      (mark_seen-bit j d.seen i.key i.known (omega arith) e) r3

-- The entry that has to come next, since its key is seen in the end.
pub record Next (n j : ℕ) (d d' : Decoding) (bs rest : Bytes) : Type 0 where
  pub left : ℕ
  pub count : n ≡ suc left
  pub body : Bytes
  pub predicate : Predicate
  pub more : Bytes
  pub key_read : read_uint bs ≡ ok (j, body)
  pub value_read : read_field j d.predicate body ≡ ok (predicate, more)
  pub goes_on : decode_entries left (after d j predicate) more ≡ ok (d', rest)

pub expected_next :
    (n j : ℕ) (d d' : Decoding) (bs rest : Bytes)
    → Follows d.last_key j
    → bit j d.seen ≡ 0
    → bit j d'.seen ≡ 1
    → decode_entries n d bs ≡ ok (d', rest)
    → Next n j d d' bs rest
unfolding decode_entries
expected_next zero j d d' bs rest f e s r =
    let q : d ≡ d' = ground arith in
    absurd (omega (arith, e, s, ap (λ (x : Decoding). bit j x.seen) q))
expected_next (suc n) j d d' bs rest f e s r =
    let ((d1, bs1), r1, r2) = >>=-eq-ok (decode_entry d bs) _ r in
    let i = decode_entry_inv d d1 bs bs1 r1 in
    let r3 = rw i.next at r2 in
    let le = check_order-le d.last_key j i.key f i.ordered in
    elim (ℕ_discrete i.key j) [
      | yes same ↦ record {
        left = n;
        count = refl;
        body = i.body;
        predicate = i.predicate;
        more = bs1;
        key_read = rw (← same) i.key_read;
        value_read = rw (← same) i.value_read;
        goes_on = rw (← same) r3;
      }
      | no other ↦ absurd (
          omega (
            arith,
            passed_stays_unseen n j (after d i.key i.predicate) d' bs1 rest le
                (mark_seen-bit j d.seen i.key i.known (λ q. other (sym q)) e) r3,
          ))
    ]

-- Behind key 10 the map is at its end.
pub last_key_ends :
    (n : ℕ) (p : Predicate) (d' : Decoding) (bs rest : Bytes) (seen : ℕ)
    → decode_entries n (record { predicate = p; seen = seen; last_key = some 10 }) bs
      ≡ ok (d', rest)
    → (n ≡ 0) × (d'.predicate ≡ p) × (rest ≡ bs)
unfolding decode_entries
last_key_ends zero p d' bs rest seen r = (refl, ground arith, ground arith)
last_key_ends (suc n) p d' bs rest seen r =
    let d : Decoding = record { predicate = p; seen = seen; last_key = some 10 } in
    let ((d1, bs1), r1, r2) = >>=-eq-ok (decode_entry d bs) _ r in
    let i = decode_entry_inv d d1 bs bs1 r1 in
    absurd (omega (arith, i.known, check_order-lt (some 10) 10 i.key (omega arith) i.ordered))
