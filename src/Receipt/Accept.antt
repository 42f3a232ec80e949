-- ===== src/Receipt/Accept.antt =====
-- src/verifier/receipt.go: the receipts that `VerifyReceipt` accepts.
use open_opticon.Common.{◌≡◌, refl, ap, ◌∙◌, true, false, ◌&&◌, some, Bool-cases, inl, inr}
use open_opticon.Common.Bytes.{Bytes}
use open_opticon.Common.Results.{Error, Result, ok, err}
use open_opticon.Hex.{hex_decode}
use open_opticon.Crypto.{Crypto}
use open_opticon.Bundle.{pin_ok, chains_onto}
use open_opticon.Bundle.Gates.{ChainsOnto, chains_onto→}
use open_opticon.Bundle.Accept.{MatchesPin, pin_ok_iff}
use open_opticon.Checkpoint.{verify_checkpoint_sig}
use open_opticon.Receipt.{
  Decimal, Receipt, ReceiptBundle, ReceiptOptions, ReceiptReason, ReceiptResult, parse_receipt,
  receipt_gates, keyed_receipt, verify_receipt, or_refused, sig_hex, pub_x_hex, pub_y_hex,
}

-- What an accepted receipt says.
pub record IsReceipt (c : Crypto) (d : Decimal) (b : ReceiptBundle) (opt : ReceiptOptions)
    (res : ReceiptResult) : Type 0 where
  pub sig : Bytes
  pub px : Bytes
  pub py : Bytes
  pub receipt : Receipt
  pub sig_decoded : hex_decode b.sig ≡ ok sig
  pub px_decoded : hex_decode b.pub_x ≡ ok px
  pub py_decoded : hex_decode b.pub_y ≡ ok py
  pub pinned : MatchesPin px py opt.pin_pub_x opt.pin_pub_y
  pub signature : verify_checkpoint_sig c b.body sig px py ≡ true
  pub parsed : parse_receipt d b.body ≡ ok receipt
  pub not_retained : (opt.require_not_retained && receipt.retained) ≡ false
  pub chained : ChainsOnto receipt.prev_digest opt.expected_prev_digest
  pub returned : res.receipt ≡ some receipt
  pub next : res.next_digest ≡ some (c.sha256 b.body)

or_refused→ :
    (r : Result Bytes) (why : Error → ReceiptReason) (next : Bytes → ReceiptResult)
    → (or_refused r why next).is_ok ≡ true
    → (bs : Bytes) × (r ≡ ok bs) × ((next bs).is_ok ≡ true) × (or_refused r why next ≡ next bs)
or_refused→ (ok bs) why next h = (bs, refl, h, refl)
or_refused→ (err e) why next h = cc

module _ (c : Crypto) (d : Decimal) (opt : ReceiptOptions) (body : Bytes) where
  receipt_gates→ :
      (r : Result Receipt)
      → (receipt_gates c body opt r).is_ok ≡ true
      → (x : Receipt) × (r ≡ ok x)
        × ((opt.require_not_retained && x.retained) ≡ false)
        × ChainsOnto x.prev_digest opt.expected_prev_digest
        × ((receipt_gates c body opt r).receipt ≡ some x)
        × ((receipt_gates c body opt r).next_digest ≡ some (c.sha256 body))
  unfolding receipt_gates
  receipt_gates→ (err e) h = cc
  receipt_gates→ (ok x) h = elim (Bool-cases (opt.require_not_retained && x.retained)) [
    | inl e ↦ let h' = rw e at h in cc
    | inr e ↦ elim (Bool-cases (chains_onto x.prev_digest opt.expected_prev_digest)) [
      | inl f ↦ (
        x,
        refl,
        e,
        chains_onto→ x.prev_digest opt.expected_prev_digest f,
        rw (e, f) refl,
        rw (e, f) refl,
      )
      | inr f ↦ let h' = rw (e, f) at h in cc
    ]
  ]

  keyed_receipt→ :
      (sig px py : Bytes)
      → (keyed_receipt c d opt body sig px py).is_ok ≡ true
      → (pin_ok px py opt.pin_pub_x opt.pin_pub_y ≡ true)
        × (verify_checkpoint_sig c body sig px py ≡ true)
        × (keyed_receipt c d opt body sig px py ≡ receipt_gates c body opt (parse_receipt d body))
  unfolding keyed_receipt
  keyed_receipt→ sig px py h = elim (Bool-cases (pin_ok px py opt.pin_pub_x opt.pin_pub_y)) [
    | inr p ↦ let h' = rw p at h in cc
    | inl p ↦ elim (Bool-cases (verify_checkpoint_sig c body sig px py)) [
      | inl s ↦ (p, s, rw (p, s) refl)
      | inr s ↦ let h' = rw (p, s) at h in cc
    ]
  ]

-- An accepted receipt is signed over its body under the key given, which matches the pin if one is
-- set; the body parses to the receipt returned, which does not admit retained input if that is
-- required and carries the expected previous digest if one is given; the digest of the body is
-- handed on.
pub verify_receipt-IsReceipt :
    (c : Crypto) (d : Decimal) (b : ReceiptBundle) (opt : ReceiptOptions)
    → (verify_receipt c d b opt).is_ok ≡ true
    → IsReceipt c d b opt (verify_receipt c d b opt)
unfolding verify_receipt
verify_receipt-IsReceipt c d b opt h =
    let (sig, e1, h1, s1) = or_refused→ (hex_decode b.sig) sig_hex _ h in
    let (px, e2, h2, s2) = or_refused→ (hex_decode b.pub_x) pub_x_hex _ h1 in
    let (py, e3, h3, s3) = or_refused→ (hex_decode b.pub_y) pub_y_hex _ h2 in
    let (p, s, s4) = keyed_receipt→ c d opt b.body sig px py h3 in
    let g = receipt_gates→ c d opt b.body (parse_receipt d b.body) (rw s4 at h3) in
    let same = s1 ∙ s2 ∙ s3 ∙ s4 in
    record {
      sig = sig;
      px = px;
      py = py;
      receipt = g.0;
      sig_decoded = e1;
      px_decoded = e2;
      py_decoded = e3;
      pinned = (pin_ok_iff px py opt.pin_pub_x opt.pin_pub_y).0 p;
      signature = s;
      parsed = g.1;
      not_retained = g.2;
      chained = g.3;
      returned = ap (λ (r : ReceiptResult). r.receipt) same ∙ g.4;
      next = ap (λ (r : ReceiptResult). r.next_digest) same ∙ g.5;
    }
