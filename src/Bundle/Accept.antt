-- ===== src/Bundle/Accept.antt =====
-- src/verifier/bound.go: `VerifyBundle` accepts exactly the genuine bundles.
use open_opticon.Common.{
  ◌/◌, ◌≤◌, ◌≡◌, ◌↔◌, refl, true, Option, none, some, [], length, ap, ◌∙◌, arith, Bool-cases, inl,
  inr, drop,
}
use open_opticon.Common.Bytes.{Bytes, bytes_eq_iff}
use open_opticon.Common.Results.{Error, Result, ok, err}
use open_opticon.Hex.{hex_decode}
use open_opticon.Payload.{Predicate}
use open_opticon.Crypto.{Crypto, verify_sig, low_s, order, set_bytes}
use open_opticon.Bundle.{
  VerifyResult, Options, Bundle, gates_after_sig, signed_gates, decoded_gates, verify_bundle,
  pin_ok, eq_slice, or_rejected, Reason, payload_hex, sig_hex, pub_x_hex, pub_y_hex,
}
use open_opticon.Bundle.Gates.{Admits, accepted, gates_after_sig→, →gates_after_sig}

-- A slice that a pin may give: `nil` counts as empty.
abbrev pub EqSlice : Bytes → Option Bytes → Type 0
EqSlice xs none = xs ≡ []
EqSlice xs (some ys) = xs ≡ ys

-- Gate 0: no pin is set, or both coordinates agree with it.
abbrev pub MatchesPin : Bytes → Bytes → Option Bytes → Option Bytes → Type 0
MatchesPin px py none none = Unit {0}
MatchesPin px py pin_x pin_y = EqSlice px pin_x × EqSlice py pin_y

eq_slice_iff : (xs : Bytes) (o : Option Bytes) → (eq_slice xs o ≡ true) ↔ EqSlice xs o
unfolding eq_slice
eq_slice_iff xs none = bytes_eq_iff xs []
eq_slice_iff xs (some ys) = bytes_eq_iff xs ys

pub pin_ok_iff :
    (px py : Bytes) (pin_x pin_y : Option Bytes)
    → (pin_ok px py pin_x pin_y ≡ true) ↔ MatchesPin px py pin_x pin_y
unfolding pin_ok
pin_ok_iff px py none none = (λ _. tt, λ _. refl)
pin_ok_iff px py none (some y) = ground (arith, eq_slice_iff px none, eq_slice_iff py (some y))
pin_ok_iff px py (some x) none = ground (arith, eq_slice_iff px (some x), eq_slice_iff py none)
pin_ok_iff px py (some x) (some y) =
    ground (arith, eq_slice_iff px (some x), eq_slice_iff py (some y))

-- Gates 0, 1 and 1b on the decoded fields, for signed bytes that need not be the payload.
pub record IsSigned (c : Crypto) (opt : Options) (signed sig px py : Bytes) : Type 0 where
  pub pinned : MatchesPin px py opt.pin_pub_x opt.pin_pub_y
  pub signature : verify_sig c signed sig px py ≡ ok tt
  pub sig_length : length sig ≡ 64
  pub is_low : set_bytes 0 (drop 32 sig) ≤ order / 2

-- A bundle whose fields decode, that is signed under the pinned key, and whose payload is admitted.
pub record IsGenuine (c : Crypto) (b : Bundle) (opt : Options) : Type 0 where
  pub payload : Bytes
  pub sig : Bytes
  pub px : Bytes
  pub py : Bytes
  pub predicate : Predicate
  pub payload_decoded : hex_decode b.payload ≡ ok payload
  pub sig_decoded : hex_decode b.sig ≡ ok sig
  pub px_decoded : hex_decode b.pub_x ≡ ok px
  pub py_decoded : hex_decode b.pub_y ≡ ok py
  pub is_signed : IsSigned c opt payload sig px py
  pub admits : Admits opt payload predicate

pub low_s_iff :
    (sig : Bytes)
    → (low_s sig ≡ true) ↔ ((length sig ≡ 64) × (set_bytes 0 (drop 32 sig) ≤ order / 2))
unfolding low_s
low_s_iff sig = ground arith

module _ (c : Crypto) (opt : Options) where
  pub signed_gates→ :
      (payload sig : Bytes) (r : Result (Unit {0}))
      → (signed_gates c payload sig opt r).is_ok ≡ true
      → (r ≡ ok tt)
        × (low_s sig ≡ true)
        × (signed_gates c payload sig opt r ≡ gates_after_sig c payload opt)
  unfolding signed_gates
  signed_gates→ payload sig (err e) h = cc
  signed_gates→ payload sig (ok u) h = elim (Bool-cases (low_s sig)) [
    | inl e ↦ (refl, e, rw e)
    | inr e ↦ let h' = rw e at h in cc
  ]

  decoded_gates→ :
      (payload sig px py : Bytes)
      → (decoded_gates c opt payload sig px py).is_ok ≡ true
      → IsSigned c opt payload sig px py
        × (decoded_gates c opt payload sig px py ≡ gates_after_sig c payload opt)
  unfolding decoded_gates
  decoded_gates→ payload sig px py h =
      elim (Bool-cases (pin_ok px py opt.pin_pub_x opt.pin_pub_y)) [
        | inl e ↦
            let h' = rw e at h in
            let (s, low, same) = signed_gates→ payload sig (verify_sig c payload sig px py) h' in
            let l = (low_s_iff sig).0 low in
            (
              record {
                pinned = (pin_ok_iff px py opt.pin_pub_x opt.pin_pub_y).0 e;
                signature = s;
                sig_length = l.0;
                is_low = l.1;
              },
              rw e same,
            )
        | inr e ↦ let h' = rw e at h in cc
      ]

  →decoded_gates :
      (payload sig px py : Bytes)
      → IsSigned c opt payload sig px py
      → decoded_gates c opt payload sig px py ≡ gates_after_sig c payload opt
  unfolding decoded_gates
  →decoded_gates payload sig px py s = rw (
    (pin_ok_iff px py opt.pin_pub_x opt.pin_pub_y).1 s.pinned,
    s.signature,
    (low_s_iff sig).1 (s.sig_length, s.is_low),
  )

pub or_rejected→ :
    (r : Result Bytes) (why : Error → Reason) (k : Bytes → VerifyResult)
    → (or_rejected r why k).is_ok ≡ true
    → (bs : Bytes) × (r ≡ ok bs) × ((k bs).is_ok ≡ true)
or_rejected→ (ok bs) why k h = (bs, refl, h)
or_rejected→ (err e) why k h = cc

module _ (c : Crypto) (b : Bundle) (opt : Options) where
  genuine : (verify_bundle c b opt).is_ok ≡ true → IsGenuine c b opt
  unfolding verify_bundle
  genuine h =
      let (payload, e1, h1) = or_rejected→ (hex_decode b.payload) payload_hex _ h in
      let (sig, e2, h2) = or_rejected→ (hex_decode b.sig) sig_hex _ h1 in
      let (px, e3, h3) = or_rejected→ (hex_decode b.pub_x) pub_x_hex _ h2 in
      let (py, e4, h4) = or_rejected→ (hex_decode b.pub_y) pub_y_hex _ h3 in
      let (s, same) = decoded_gates→ c opt payload sig px py h4 in
      let (p, a, _) = gates_after_sig→ c opt payload (rw same at h4) in
      record {
        payload = payload;
        sig = sig;
        px = px;
        py = py;
        predicate = p;
        payload_decoded = e1;
        sig_decoded = e2;
        px_decoded = e3;
        py_decoded = e4;
        is_signed = s;
        admits = a;
      }

  -- A genuine bundle is accepted, with its predicate and the digest of its payload as results.
  pub verify_bundle-genuine :
      (g : IsGenuine c b opt) → verify_bundle c b opt ≡ accepted c g.payload g.predicate
  unfolding verify_bundle
  verify_bundle-genuine g =
      rw (g.payload_decoded, g.sig_decoded, g.px_decoded, g.py_decoded)
        (→decoded_gates c opt g.payload g.sig g.px g.py g.is_signed
          ∙ →gates_after_sig c opt g.payload g.predicate g.admits)

  -- `VerifyBundle` answers OK exactly on the genuine bundles: the fields are hex, the pin matches if
  -- one is set, the low-s signature of 64 bytes verifies over the payload, and the payload decodes
  -- to a predicate of the supported version with the expected nonce, which is not empty, a counter
  -- above the last one, and the expected previous digest if one is given.
  pub verify_bundle_iff : ((verify_bundle c b opt).is_ok ≡ true) ↔ IsGenuine c b opt
  verify_bundle_iff = (genuine, λ g. ap (λ (r : VerifyResult). r.is_ok) (verify_bundle-genuine g))
