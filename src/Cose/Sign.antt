-- ===== src/Cose/Sign.antt =====
-- src/verifier/cose_encode.go: what `SignCOSESign1` emits, `parseCOSESign1` reads back.
use open_opticon.Common.{
  ℕ, ◌+◌, ◌-◌, ◌^◌, ◌<◌, ◌≡◌, refl, sym, ap, ◌∙◌, arith, true, [], ◌∷◌, ◌++◌, ltb, ◌==◌, length,
  length-append, take-append, append_assoc, append-nil, bit_or, ==_iff, ltb→lt,
}
use open_opticon.Common.Bits.{all_below, all_below_sound}
use open_opticon.Common.Bytes.{Bytes}
use open_opticon.Common.Results.{ok}
use open_opticon.Cbor.{read_head, read_uint, read_argument, read_bstr, skip_value}
use open_opticon.Cbor.Head.{encode_head}
use open_opticon.Cbor.Values.{read_bstr-encode_head}
use open_opticon.Cose.{
  bstr_head, encode_cose_sign1, parse_cose_sign1, cose_protected, span, require_es256, skip_tag,
}

small_or : all_below 24 (λ n. bit_or 0x40 n == 64 + n) ≡ true
unfolding all_below
small_or = refl

bit_or-small : (n : ℕ) → ltb n 24 ≡ true → bit_or 0x40 n ≡ 64 + n
bit_or-small n h = (==_iff _ _).0 (all_below_sound 24 _ n small_or (ltb→lt n 24 h))

bstr_head-eq_encode : (n : ℕ) → n < 2 ^ 32 → bstr_head n ≡ encode_head 2 n
unfolding bstr_head encode_head
bstr_head-eq_encode n h = ground (arith, bit_or-small n)

pub span-append : (xs rest : Bytes) → span (xs ++ rest) rest ≡ xs
unfolding span
span-append xs rest =
    let e : length (xs ++ rest) - length rest ≡ length xs = omega (arith, length-append xs rest) in
    rw e (take-append xs rest)

es256 : require_es256 (0xa1 ∷ 0x01 ∷ 0x26 ∷ []) ≡ ok tt
unfolding require_es256 read_head read_argument read_uint
es256 = refl

abbrev header : Bytes
header = 0xa1 ∷ 0x01 ∷ 0x26 ∷ []

pub read_array : (rest : Bytes) → read_head (skip_tag (0xd2 ∷ 0x84 ∷ rest)) ≡ ok (4, 4, rest)
unfolding read_head read_argument skip_tag
read_array rest = refl

read_header : (rest : Bytes) → read_bstr (0x43 ∷ header ++ rest) ≡ ok (header, rest)
unfolding encode_head
read_header rest = read_bstr-encode_head header rest (omega arith)

skip_empty_map : (rest : Bytes) → skip_value 64 (0xa0 ∷ rest) ≡ ok rest
unfolding skip_value read_head read_argument
skip_empty_map rest = refl

read_encoded :
    (v rest : Bytes)
    → length v < 2 ^ 32
    → read_bstr ((bstr_head (length v) ++ v) ++ rest) ≡ ok (v, rest)
read_encoded v rest h =
    rw (append_assoc (bstr_head (length v)) v rest, bstr_head-eq_encode (length v) h)
      (read_bstr-encode_head v rest (omega arith))

module _ (payload sig : Bytes) (short : length payload < 2 ^ 32) (is_sig : length sig ≡ 64) where
  abbrev body : Bytes
  body = bstr_head (length payload) ++ payload

  abbrev tail : Bytes
  tail = bstr_head 64 ++ sig

  read_sig : read_bstr tail ≡ ok (sig, [])
  read_sig =
      let e : bstr_head 64 ≡ encode_head 2 (length sig) =
        bstr_head-eq_encode 64 (omega arith) ∙ ap (encode_head 2) (sym is_sig) in
      let at = read_bstr-encode_head sig [] (omega arith) in
      rw e (ap (λ r. read_bstr (encode_head 2 (length sig) ++ r)) (sym (append-nil sig)) ∙ at)

  -- The parser reads back what the encoder emits for a payload below 2^32 bytes and a signature of
  -- 64 bytes: the payload, the signature, and the two byte strings that the signature is over.
  pub parse_cose_sign1-encode :
      parse_cose_sign1 (encode_cose_sign1 payload sig)
      ≡ ok (record {
        prot_bstr = cose_protected;
        payload = payload;
        payload_bstr = bstr_head (length payload) ++ payload;
        sig = sig;
      })
  unfolding parse_cose_sign1 encode_cose_sign1
  parse_cose_sign1-encode =
      rw
        (
          read_array (0x43 ∷ header ++ 0xa0 ∷ (body ++ tail)),
          read_header (0xa0 ∷ (body ++ tail)),
          es256,
          skip_empty_map (body ++ tail),
          read_encoded payload tail short,
        )
        (rw
          (
            read_sig,
            is_sig,
            span-append (0x43 ∷ header) (0xa0 ∷ (body ++ tail)),
            span-append body tail,
          )
          refl)
