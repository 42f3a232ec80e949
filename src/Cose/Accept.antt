-- ===== src/Cose/Accept.antt =====
-- src/verifier/cose.go: a COSE_Sign1 bundle passes the same gates as a raw one, with the signature
-- over the Sig_structure.
use open_opticon.Common.{◌≡◌, ◌↔◌, refl, sym, ap, subst, ◌∙◌, true, Bool-cases, inl, inr}
use open_opticon.Common.Bytes.{Bytes}
use open_opticon.Common.Results.{Result, ok, err}
use open_opticon.Hex.{hex_decode, hex_decode-IsByte}
use open_opticon.Payload.{Predicate}
use open_opticon.Crypto.{Crypto, verify_sig}
use open_opticon.Bundle.{
  VerifyResult, Options, pin_ok, gates_after_sig, signed_gates, cose_hex, pub_x_hex, pub_y_hex,
}
use open_opticon.Bundle.Gates.{Admits, accepted, gates_after_sig→, →gates_after_sig}
use open_opticon.Bundle.Accept.{IsSigned, or_rejected→, signed_gates→, pin_ok_iff, low_s_iff}
use open_opticon.Cose.Message.{IsMessage, sig_structure, sig_structure-is}
use open_opticon.Cose.Parsed.{parsed_as, parse→, →parse}
use open_opticon.Cose.{
  Sign1, CoseBundle, verify_cose_bundle, parse_cose_sign1, sign1_gates, parsed_gates,
  cose_sig_struct,
}

-- A bundle whose fields decode, whose message is a COSE_Sign1 with an ES256 header, that is signed
-- under the pinned key over the Sig_structure of its protected header and payload, and whose payload
-- is admitted.
pub record IsGenuine (c : Crypto) (b : CoseBundle) (opt : Options) : Type 0 where
  pub message : Bytes
  pub px : Bytes
  pub py : Bytes
  pub protected : Bytes
  pub payload : Bytes
  pub sig : Bytes
  pub predicate : Predicate
  pub message_decoded : hex_decode b.cose ≡ ok message
  pub px_decoded : hex_decode b.pub_x ≡ ok px
  pub py_decoded : hex_decode b.pub_y ≡ ok py
  pub is_message : IsMessage message protected payload sig
  pub is_signed : IsSigned c opt (sig_structure protected payload) sig px py
  pub admits : Admits opt payload predicate

module _ (c : Crypto) (opt : Options) (px py : Bytes) where
  sign1_gates→ :
      (s : Sign1)
      → (sign1_gates c opt px py s).is_ok ≡ true
      → IsSigned c opt (cose_sig_struct s.prot_bstr s.payload_bstr) s.sig px py
        × (sign1_gates c opt px py s ≡ gates_after_sig c s.payload opt)
  unfolding sign1_gates
  sign1_gates→ s h = elim (Bool-cases (pin_ok px py opt.pin_pub_x opt.pin_pub_y)) [
    | inl e ↦
        let h' = rw e at h in
        let (v, low, same) =
          signed_gates→ c opt s.payload s.sig
            (verify_sig c (cose_sig_struct s.prot_bstr s.payload_bstr) s.sig px py) h' in
        let l = (low_s_iff s.sig).0 low in
        (
          record {
            pinned = (pin_ok_iff px py opt.pin_pub_x opt.pin_pub_y).0 e;
            signature = v;
            sig_length = l.0;
            is_low = l.1;
          },
          rw e same,
        )
    | inr e ↦ let h' = rw e at h in cc
  ]

  →sign1_gates :
      (s : Sign1)
      → IsSigned c opt (cose_sig_struct s.prot_bstr s.payload_bstr) s.sig px py
      → sign1_gates c opt px py s ≡ gates_after_sig c s.payload opt
  unfolding sign1_gates signed_gates
  →sign1_gates s i = rw (
    (pin_ok_iff px py opt.pin_pub_x opt.pin_pub_y).1 i.pinned,
    i.signature,
    (low_s_iff s.sig).1 (i.sig_length, i.is_low),
  )

  parsed_gates→ :
      (r : Result Sign1)
      → (parsed_gates c opt px py r).is_ok ≡ true
      → (s : Sign1) × (r ≡ ok s) × ((sign1_gates c opt px py s).is_ok ≡ true)
  unfolding parsed_gates
  parsed_gates→ (ok s) h = (s, refl, h)
  parsed_gates→ (err e) h = cc

module _ (c : Crypto) (b : CoseBundle) (opt : Options) where
  genuine : (verify_cose_bundle c b opt).is_ok ≡ true → IsGenuine c b opt
  unfolding verify_cose_bundle
  genuine h =
      let (bs, e1, h1) = or_rejected→ (hex_decode b.cose) cose_hex _ h in
      let (px, e2, h2) = or_rejected→ (hex_decode b.pub_x) pub_x_hex _ h1 in
      let (py, e3, h3) = or_rejected→ (hex_decode b.pub_y) pub_y_hex _ h2 in
      let (s, e4, h4) = parsed_gates→ c opt px py (parse_cose_sign1 bs) h3 in
      let (protected, payload, sig, m, is) = parse→ bs s (hex_decode-IsByte b.cose bs e1) e4 in
      let h5 = rw is at h4 in
      let (i, same) = sign1_gates→ c opt px py (parsed_as protected payload sig) h5 in
      let (p, a, _) = gates_after_sig→ c opt payload (rw same at h5) in
      record {
        message = bs;
        px = px;
        py = py;
        protected = protected;
        payload = payload;
        sig = sig;
        predicate = p;
        message_decoded = e1;
        px_decoded = e2;
        py_decoded = e3;
        is_message = m;
        is_signed = subst (λ x. IsSigned c opt x sig px py) (sig_structure-is protected payload) i;
        admits = a;
      }

  pub verify_cose_bundle-genuine :
      (g : IsGenuine c b opt) → verify_cose_bundle c b opt ≡ accepted c g.payload g.predicate
  unfolding verify_cose_bundle parsed_gates
  verify_cose_bundle-genuine g =
      let signed =
        subst (λ x. IsSigned c opt x g.sig g.px g.py) (sym (sig_structure-is g.protected g.payload))
          g.is_signed in
      rw
        (
          g.message_decoded,
          g.px_decoded,
          g.py_decoded,
          →parse g.message g.protected g.payload g.sig g.is_message,
        )
        (→sign1_gates c opt g.px g.py (parsed_as g.protected g.payload g.sig) signed
          ∙ →gates_after_sig c opt g.payload g.predicate g.admits)

  -- `VerifyCOSEBundle` answers OK exactly where the message is, behind its tag or not, an array of
  -- four with nothing behind it: a protected header that is a map with the algorithm ES256, an item
  -- that is skipped, a payload, and a signature of 64 bytes, the byte strings with their shortest
  -- heads; where the signature, with a low s, is over the Sig_structure of RFC 9052 of this header
  -- and payload under the bundle's key, which matches the pin if one is set; and where the payload
  -- passes the gates that a raw bundle's payload has to pass.
  pub verify_cose_bundle_iff : ((verify_cose_bundle c b opt).is_ok ≡ true) ↔ IsGenuine c b opt
  verify_cose_bundle_iff =
      (genuine, λ g. ap (λ (r : VerifyResult). r.is_ok) (verify_cose_bundle-genuine g))
