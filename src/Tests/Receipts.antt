-- ===== src/Tests/Receipts.antt =====
-- An example for restraint receipts.
use open_opticon.Common.{◌≡◌, refl, arith, true, false, some, [], ◌∷◌}
use open_opticon.Common.Bytes.{bytes_eq}
use open_opticon.Common.Results.{ok}
use open_opticon.Hex.{hex_decode, hex_encode, hex_decode-hex_encode}
use open_opticon.Crypto.{verify_sig}
use open_opticon.Bundle.{pin_ok, chains_onto, eq_slice}
use open_opticon.Checkpoint.{split_lines, verify_checkpoint_sig}
use open_opticon.Receipt.{
  Decimal, Receipt, ReceiptBundle, ReceiptOptions, receipt_origin, receipt_body, parse_receipt,
  keyed_receipt, receipt_gates, verify_receipt,
}
use open_opticon.Receipt.Accept.{IsReceipt, verify_receipt-IsReceipt}
use open_opticon.Tests.Samples.{toy, zeros, signature, key_x, key_y}

-- Every number is 5.
abbrev decimal : Decimal
decimal = record { print = λ _. 0x35 ∷ []; parse = λ _. some 5 }

abbrev receipt : Receipt
receipt = record {
  origin = receipt_origin;
  session = 0x73 ∷ [];
  batch = 5;
  input_hash = zeros;
  output_hash = zeros;
  retained = false;
  prev_digest = zeros;
}

abbrev bundle : ReceiptBundle
bundle = record {
  schema = [];
  body = receipt_body decimal receipt;
  sig = hex_encode signature;
  pub_x = hex_encode key_x;
  pub_y = hex_encode key_y;
}

abbrev options : ReceiptOptions
options = record {
  expected_prev_digest = some zeros;
  pin_pub_x = some key_x;
  pin_pub_y = some key_y;
  require_not_retained = true;
}

parsed : parse_receipt decimal (receipt_body decimal receipt) ≡ ok receipt
unfolding parse_receipt receipt_body split_lines bytes_eq hex_decode hex_encode
parsed = refl

accepted : (verify_receipt toy decimal bundle options).is_ok ≡ true
unfolding verify_receipt keyed_receipt receipt_gates pin_ok eq_slice chains_onto bytes_eq
    verify_checkpoint_sig verify_sig
accepted =
    rw
      (
        hex_decode-hex_encode signature (ground arith),
        hex_decode-hex_encode key_x (ground arith),
        hex_decode-hex_encode key_y (ground arith),
        parsed,
      )
      refl

verify_receipt-IsReceipt_example :
    IsReceipt toy decimal bundle options (verify_receipt toy decimal bundle options)
verify_receipt-IsReceipt_example = verify_receipt-IsReceipt toy decimal bundle options accepted
