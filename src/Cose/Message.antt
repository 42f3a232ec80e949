-- ===== src/Cose/Message.antt =====
-- src/verifier/cose.go: the messages that `parseCOSESign1` accepts, told without the parser: an array
-- of four, with the protected header, any unprotected one, the payload and the signature.
use open_opticon.Common.{
  ℕ, zero, suc, ◌^◌, ◌<◌, ◌≡◌, ◌≢◌, ◌⊎◌, refl, subst, arith, false, Bool-cases, inl, inr, [], ◌∷◌,
  ◌++◌, length, ◌==◌,
}
use open_opticon.Common.Bytes.{Bytes}
use open_opticon.Common.Results.{
  ok, >>=-eq-ok, wrap, wrap-eq-ok, protected_label, alg_value, protected_header,
}
use open_opticon.Cbor.{read_head, read_uint, skip_value, max_cbor_depth}
use open_opticon.Cbor.Head.{encode_head}
use open_opticon.Cose.{require_es256, require_labels, cose_sig_struct}

-- A byte string, with the shortest head.
abbrev pub bstr : Bytes → Bytes
bstr v = encode_head 2 (length v) ++ v

-- "Signature1".
abbrev signature1 : Bytes
signature1 = 0x53 ∷ 0x69 ∷ 0x67 ∷ 0x6e ∷ 0x61 ∷ 0x74 ∷ 0x75 ∷ 0x72 ∷ 0x65 ∷ 0x31 ∷ []

-- The Sig_structure of RFC 9052: an array of the text "Signature1", the protected header, no external
-- data, and the payload.
abbrev pub sig_structure : Bytes → Bytes → Bytes
sig_structure protected payload =
    encode_head 4 4 ++ encode_head 3 10 ++ signature1 ++ bstr protected ++ (bstr [] ++ bstr payload)

-- The first label 1 among the pairs has the value -7, of major type 1 and argument 6.
pub data HasEs256 : ℕ → Bytes → Type 0 where
  found :
      {n : ℕ} {bs rest after : Bytes}
      → read_uint bs ≡ ok (1, rest)
      → read_head rest ≡ ok (1, 6, after)
      → HasEs256 (suc n) bs
  passed :
      {n label : ℕ} {bs rest after : Bytes}
      → read_uint bs ≡ ok (label, rest)
      → label ≢ 1
      → skip_value max_cbor_depth rest ≡ ok after
      → HasEs256 n after
      → HasEs256 (suc n) bs

-- A map whose algorithm is ES256.
pub record IsEs256 (protected : Bytes) : Type 0 where
  pub count : ℕ
  pub pairs : Bytes
  pub is_map : read_head protected ≡ ok (5, count, pairs)
  pub algorithm : HasEs256 count pairs

-- The message is a COSE_Sign1, behind its tag or not, of these three strings.
pub record IsMessage (message protected payload sig : Bytes) : Type 0 where
  pub body : Bytes
  pub unprotected : Bytes
  pub tagged : (message ≡ body) ⊎ (message ≡ 0xd2 ∷ body)
  pub array : body ≡ 0x84 ∷ (bstr protected ++ unprotected)
  pub is_es256 : IsEs256 protected
  pub skipped : skip_value max_cbor_depth unprotected ≡ ok (bstr payload ++ bstr sig)
  pub protected_lt : length protected < 2 ^ 64
  pub payload_lt : length payload < 2 ^ 64
  pub sig_length : length sig ≡ 64

pub sig_structure-is :
    (protected payload : Bytes)
    → cose_sig_struct (bstr protected) (bstr payload) ≡ sig_structure protected payload
unfolding cose_sig_struct encode_head
sig_structure-is protected payload = refl

labels→ : (n : ℕ) (bs : Bytes) → require_labels n bs ≡ ok tt → HasEs256 n bs
unfolding require_labels
labels→ zero bs h = cc
labels→ (suc n) bs h =
    let ((label, rest), e, h1) = >>=-eq-ok (wrap protected_label (read_uint bs)) _ h in
    let at = wrap-eq-ok protected_label (read_uint bs) e in
    elim (Bool-cases (label == 1)) [
      | inl y ↦
          let h2 = rw y at h1 in
          let ((m, v, after), f, h3) = >>=-eq-ok (wrap alg_value (read_head rest)) _ h2 in
          let is : (m ≡ 1) × (v ≡ 6) = ground arith in
          let one : label ≡ 1 = ground arith in
          let head = wrap-eq-ok alg_value (read_head rest) f in
          found (subst (λ l. read_uint bs ≡ ok (l, rest)) one at) (
            subst (λ l. read_head rest ≡ ok (1, l, after)) is.1
              (subst (λ l. read_head rest ≡ ok (l, v, after)) is.0 head))
      | inr n1 ↦
          let h2 = rw n1 at h1 in
          let (after, f, h3) = >>=-eq-ok (skip_value max_cbor_depth rest) _ h2 in
          passed at (λ q. ground arith) f (labels→ n after h3)
    ]

→labels : {n : ℕ} {bs : Bytes} → HasEs256 n bs → require_labels n bs ≡ ok tt
unfolding require_labels
→labels (found e f) = rw (e, f) refl
→labels (passed {label = label} e n f r) =
    let other : (label == 1) ≡ false = ground arith in rw (e, other, f) (→labels r)

pub require→ : (protected : Bytes) → require_es256 protected ≡ ok tt → IsEs256 protected
unfolding require_es256
require→ protected h =
    let ((major, n, bs), e, h1) = >>=-eq-ok (wrap protected_header (read_head protected)) _ h in
    let head = wrap-eq-ok protected_header (read_head protected) e in
    elim (Bool-cases (major == 5)) [
      | inl y ↦
          let is : major ≡ 5 = ground arith in
          record {
            count = n;
            pairs = bs;
            is_map = subst (λ l. read_head protected ≡ ok (l, n, bs)) is head;
            algorithm = labels→ n bs (rw y at h1);
          }
      | inr m ↦ let h2 = rw m at h1 in cc
    ]

pub →require : (protected : Bytes) → IsEs256 protected → require_es256 protected ≡ ok tt
unfolding require_es256
→require protected i = rw i.is_map (→labels i.algorithm)
