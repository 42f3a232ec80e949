-- ===== src/Cose/Parsed.antt =====
-- src/verifier/cose.go: `parseCOSESign1` accepts these messages and no others.
use open_opticon.Common.{
  ◌^◌, ◌<◌, ◌≡◌, ◌⊎◌, refl, sym, ap, subst, ◌∙◌, arith, true, Bool-cases, inl, inr, [], ◌∷◌, ◌++◌,
  append-nil, append_assoc, length, ◌==◌, All,
}
use open_opticon.Common.Bytes.{Bytes, IsByte}
use open_opticon.Common.Results.{
  Result, ok, >>=-eq-ok, guard, guard-eq-ok, wrap, wrap-eq-ok, protected_error, unprotected_error,
  payload_error, signature_error, not_four_elements, short_sig, trailing_bytes,
}
use open_opticon.Cbor.{read_head, read_argument, read_bstr, skip_value, max_cbor_depth}
use open_opticon.Cbor.Head.{encode_head}
use open_opticon.Cbor.Canonical.{read_head-IsHead}
use open_opticon.Cbor.Values.{read_bstr-encode_head, read_bstr-IsBstr}
use open_opticon.Cbor.Skips.{skip_value-IsByte}
use open_opticon.Cose.{Sign1, parse_cose_sign1, require_es256, skip_tag, span}
use open_opticon.Cose.Sign.{span-append, read_array}
use open_opticon.Cose.Message.{bstr, IsMessage, require→, →require}

-- A byte string that is read, and the bytes that were read for it.
pub bstr-read :
    (bs v rest : Bytes)
    → All IsByte bs
    → read_bstr bs ≡ ok (v, rest)
    → (bs ≡ bstr v ++ rest) × (span bs rest ≡ bstr v) × (length v < 2 ^ 64) × All IsByte rest
bstr-read bs v rest a e =
    let i = read_bstr-IsBstr bs v rest a e in
    let split : bs ≡ bstr v ++ rest =
      i.split ∙ sym (append_assoc (encode_head 2 (length v)) v rest) in
    (split, rw split (span-append (bstr v) rest), i.lt, i.tail)

pub read_bstr-bstr :
    (v rest : Bytes) → length v < 2 ^ 64 → read_bstr (bstr v ++ rest) ≡ ok (v, rest)
read_bstr-bstr v rest h =
    rw (append_assoc (encode_head 2 (length v)) v rest) (read_bstr-encode_head v rest h)

array_of_four :
    (bs rest : Bytes) → All IsByte bs → read_head bs ≡ ok (4, 4, rest) → bs ≡ 0x84 ∷ rest
unfolding encode_head
array_of_four bs rest a h = (read_head-IsHead bs rest 4 4 a h).split

empty : (bs : Bytes) → (length bs == 0) ≡ true → bs ≡ []
empty [] h = refl
empty (x ∷ bs) h = ground arith

plain : (rest : Bytes) → read_head (skip_tag (0x84 ∷ rest)) ≡ ok (4, 4, rest)
unfolding read_head read_argument skip_tag
plain rest = refl

-- The array of four behind the tag.
array→ :
    (b rest : Bytes)
    → All IsByte b
    → read_head (skip_tag b) ≡ ok (4, 4, rest)
    → ((b ≡ 0x84 ∷ rest) ⊎ (b ≡ 0xd2 ∷ 0x84 ∷ rest)) × All IsByte rest
unfolding skip_tag
array→ [] rest a h = absurd (let e = array_of_four [] rest tt h in cc)
array→ (x ∷ b) rest (ax, a) h = elim (Bool-cases (x == 0xd2)) [
  | inl y ↦
      let h' = rw y at h in
      let tag : x ≡ 0xd2 = ground arith in
      (
        inr (ap (λ t. t ∷ b) tag ∙ ap (λ t. 0xd2 ∷ t) (array_of_four b rest a h')),
        (read_head-IsHead b rest 4 4 a h').tail,
      )
  | inr n ↦
      let h' = rw n at h in
      (
        inl (array_of_four (x ∷ b) rest (ax, a) h'),
        (read_head-IsHead (x ∷ b) rest 4 4 (ax, a) h').tail,
      )
]

-- What the parser returns for a message of these strings.
abbrev pub parsed_as : Bytes → Bytes → Bytes → Sign1
parsed_as protected payload sig = record {
  prot_bstr = bstr protected;
  payload = payload;
  payload_bstr = bstr payload;
  sig = sig;
}

same_sign1 :
    (s : Sign1) (protected payload sig x y : Bytes)
    → Result.ok (record { prot_bstr = x; payload = payload; payload_bstr = y; sig = sig }) ≡ ok s
    → x ≡ bstr protected
    → y ≡ bstr payload
    → s ≡ parsed_as protected payload sig
same_sign1 s protected payload sig x y h e f =
    let i : record { prot_bstr = x; payload = payload; payload_bstr = y; sig = sig } ≡ s =
      ground arith in
    sym i ∙ rw (e, f) refl

pub parse→ :
    (b : Bytes) (s : Sign1)
    → All IsByte b
    → parse_cose_sign1 b ≡ ok s
    → (protected payload sig : Bytes) × IsMessage b protected payload sig
      × (s ≡ parsed_as protected payload sig)
unfolding parse_cose_sign1
parse→ b s a h =
    let ((major, n, at_prot), e0, h1) = >>=-eq-ok (read_head (skip_tag b)) _ h in
    let (u1, g1, h2) = >>=-eq-ok (guard (major == 4) not_four_elements) _ h1 in
    let (u2, g2, h3) = >>=-eq-ok (guard (n == 4) not_four_elements) _ h2 in
    let ((prot, bs), e1, h4) = >>=-eq-ok (wrap protected_error (read_bstr at_prot)) _ h3 in
    let (u3, e2, h5) = >>=-eq-ok (require_es256 prot) _ h4 in
    let (at_payload, e3, h6) =
      >>=-eq-ok (wrap unprotected_error (skip_value max_cbor_depth bs)) _ h5 in
    let ((payload, at_sig), e4, h7) = >>=-eq-ok (wrap payload_error (read_bstr at_payload)) _ h6 in
    let ((sig, behind), e5, h8) = >>=-eq-ok (wrap signature_error (read_bstr at_sig)) _ h7 in
    let (u4, g3, h9) = >>=-eq-ok (guard (length sig == 64) short_sig) _ h8 in
    let (u5, g4, h10) = >>=-eq-ok (guard (length behind == 0) trailing_bytes) _ h9 in
    let four : major ≡ 4 =
      (let g = guard-eq-ok (major == 4) not_four_elements g1 in ground arith) in
    let count : n ≡ 4 = (let g = guard-eq-ok (n == 4) not_four_elements g2 in ground arith) in
    let head =
      subst (λ m. read_head (skip_tag b) ≡ ok (m, 4, at_prot)) four
        (subst (λ m. read_head (skip_tag b) ≡ ok (major, m, at_prot)) count e0) in
    let (tag, a1) = array→ b at_prot a head in
    let r1 = bstr-read at_prot prot bs a1 (wrap-eq-ok protected_error (read_bstr at_prot) e1) in
    let skip = wrap-eq-ok unprotected_error (skip_value max_cbor_depth bs) e3 in
    let a2 = skip_value-IsByte max_cbor_depth bs at_payload r1.3 skip in
    let r2 =
      bstr-read at_payload payload at_sig a2 (wrap-eq-ok payload_error (read_bstr at_payload) e4) in
    let r3 = bstr-read at_sig sig behind r2.3 (wrap-eq-ok signature_error (read_bstr at_sig) e5) in
    let none_left : behind ≡ [] =
      (let g = guard-eq-ok (length behind == 0) trailing_bytes g4 in empty behind g) in
    (
      prot,
      payload,
      sig,
      record {
        body = 0x84 ∷ at_prot;
        unprotected = bs;
        tagged = tag;
        array = ap (λ x. 0x84 ∷ x) r1.0;
        is_es256 = require→ prot e2;
        skipped =
            skip
            ∙ ap ok (
                r2.0
                ∙ ap (λ x. bstr payload ++ x)
                    (r3.0 ∙ ap (λ x. bstr sig ++ x) none_left ∙ append-nil (bstr sig)));
        protected_lt = r1.2;
        payload_lt = r2.2;
        sig_length = (let g = guard-eq-ok (length sig == 64) short_sig g3 in ground arith);
      },
      same_sign1 s prot payload sig (span at_prot bs) (span at_payload at_sig) h10 r1.1 r2.1,
    )

pub →parse :
    (b protected payload sig : Bytes)
    → IsMessage b protected payload sig
    → parse_cose_sign1 b ≡ ok (parsed_as protected payload sig)
unfolding parse_cose_sign1
→parse b protected payload sig m =
    let rest = m.unprotected in
    let head : read_head (skip_tag b) ≡ ok (4, 4, bstr protected ++ rest) = elim m.tagged [
      | inl e ↦ ap (λ x. read_head (skip_tag x)) (e ∙ m.array) ∙ plain (bstr protected ++ rest)
      | inr e ↦
          ap (λ x. read_head (skip_tag x)) (e ∙ ap (λ x. 0xd2 ∷ x) m.array)
          ∙ read_array (bstr protected ++ rest)
    ] in
    let sig_short : length sig < 2 ^ 64 = omega (arith, m.sig_length) in
    let last : read_bstr (bstr sig) ≡ ok (sig, []) =
      ap read_bstr (sym (append-nil (bstr sig))) ∙ read_bstr-bstr sig [] sig_short in
    rw
      (
        head,
        read_bstr-bstr protected rest m.protected_lt,
        →require protected m.is_es256,
        m.skipped,
        read_bstr-bstr payload (bstr sig) m.payload_lt,
      )
      (rw
        (
          last,
          span-append (bstr protected) rest,
          span-append (bstr payload) (bstr sig),
          m.sig_length,
        )
        refl)
