-- ===== src/Receipt.antt =====
-- src/verifier/receipt.go: signed restraint receipts. Decimal numbers belong to Go's library: they
-- are the fields of `Decimal`.
pub mod Accept
use open_opticon.Common.{
  ℕ, Bool, true, false, not, ◌&&◌, Option, none, some, List, [], ◌∷◌, ◌++◌, length, ◌==◌,
  if◌then◌else◌,
}
use open_opticon.Common.Bytes.{Bytes, bytes_eq}
use open_opticon.Common.Results.{
  Error, Result, ok, err, ◌>>=◌, ◌>>◌, guard, wrap, not_seven_lines, bad_batch, bad_retained,
  bad_origin, wrong_length, input_hash_error, output_hash_error, prev_digest_error,
}
use open_opticon.Hex.{hex_decode, hex_encode}
use open_opticon.Crypto.{Crypto}
use open_opticon.Bundle.{pin_ok, chains_onto}
use open_opticon.Checkpoint.{line, split_lines, verify_checkpoint_sig}

-- `%d` and `strconv.ParseUint(s, 10, 64)`.
pub record Decimal : Type 0 where
  pub print : ℕ → Bytes
  pub parse : Bytes → Option ℕ

pub record Receipt : Type 0 where
  pub origin : Bytes
  pub session : Bytes
  pub batch : ℕ
  pub input_hash : Bytes
  pub output_hash : Bytes
  pub retained : Bool
  pub prev_digest : Bytes

-- "honest-ear/restraint-receipt/v1".
abbrev pub receipt_origin : Bytes
receipt_origin =
    0x68 ∷ 0x6f ∷ 0x6e ∷ 0x65 ∷ 0x73 ∷ 0x74 ∷ 0x2d ∷ 0x65 ∷ 0x61 ∷ 0x72 ∷ 0x2f ∷ 0x72 ∷ 0x65 ∷ 0x73
    ∷ 0x74 ∷ 0x72 ∷ 0x61 ∷ 0x69 ∷ 0x6e ∷ 0x74 ∷ 0x2d ∷ 0x72 ∷ 0x65 ∷ 0x63 ∷ 0x65 ∷ 0x69 ∷ 0x70
    ∷ 0x74 ∷ 0x2f ∷ 0x76 ∷ 0x31 ∷ []

-- `ReceiptBody`.
unfoldable pub receipt_body : Decimal → Receipt → Bytes
receipt_body d r = line r.origin (
    line r.session (
      line (d.print r.batch) (
        line (hex_encode r.input_hash) (
          line (hex_encode r.output_hash) (
            line (if r.retained then 0x31 ∷ [] else 0x30 ∷ [])
              (line (hex_encode r.prev_digest) []))))))

-- `hexLen`.
unfoldable pub hex_len : Bytes → ℕ → Result Bytes
hex_len s n = do b ← hex_decode s; guard (length b == n) (wrong_length n (length b)); ok b

unfoldable pub batch_of : Option ℕ → Result ℕ
batch_of none = err bad_batch
batch_of (some n) = ok n

-- `switch parts[5]`.
unfoldable pub retained_of : Bytes → Result Bool
retained_of s =
    if bytes_eq s (0x30 ∷ [])
    then ok false
    else if bytes_eq s (0x31 ∷ [])
    then ok true
    else err bad_retained

unfoldable pub parse_fields :
    Decimal → Bytes → Bytes → Bytes → Bytes → Bytes → Bytes → Bytes → Result Receipt
unfolding batch_of retained_of hex_len
parse_fields d origin session batch input output retained prev = do
  guard (bytes_eq origin receipt_origin) bad_origin
  n ← batch_of (d.parse batch)
  input_hash ← wrap input_hash_error (hex_len input 32)
  output_hash ← wrap output_hash_error (hex_len output 32)
  kept ← retained_of retained
  prev_digest ← wrap prev_digest_error (hex_len prev 32)
  ok (record {
    origin = origin;
    session = session;
    batch = n;
    input_hash = input_hash;
    output_hash = output_hash;
    retained = kept;
    prev_digest = prev_digest;
  })

-- `len(parts) != 8 || parts[7] != ""`.
unfoldable pub parse_parts : Decimal → List Bytes → Result Receipt
unfolding parse_fields
parse_parts d (a ∷ b ∷ c ∷ e ∷ f ∷ g ∷ h ∷ [] ∷ []) = parse_fields d a b c e f g h
parse_parts d _ = err not_seven_lines

-- `ParseReceipt`.
unfoldable pub parse_receipt : Decimal → Bytes → Result Receipt
unfolding parse_parts
parse_receipt d body = parse_parts d (split_lines body)

pub record ReceiptBundle : Type 0 where
  pub schema : Bytes
  pub body : Bytes
  pub sig : Bytes
  pub pub_x : Bytes
  pub pub_y : Bytes

pub record ReceiptOptions : Type 0 where
  pub expected_prev_digest : Option Bytes
  pub pin_pub_x : Option Bytes
  pub pin_pub_y : Option Bytes
  pub require_not_retained : Bool

pub data ReceiptReason : Type 0 where
  sig_hex pub_x_hex pub_y_hex decode : Error → ReceiptReason
  pin_mismatch bad_signature retained_input prev_mismatch verified : ReceiptReason

pub record ReceiptResult : Type 0 where
  pub receipt : Option Receipt
  pub is_ok : Bool
  pub reason : ReceiptReason
  pub next_digest : Option Bytes

abbrev pub refused : Option Receipt → ReceiptReason → ReceiptResult
refused r why = record { receipt = r; is_ok = false; reason = why; next_digest = none }

unfoldable pub receipt_gates : Crypto → Bytes → ReceiptOptions → Result Receipt → ReceiptResult
receipt_gates c body opt (err e) = refused none (decode e)
receipt_gates c body opt (ok r) =
    if opt.require_not_retained && r.retained
    then refused (some r) retained_input
    else if not (chains_onto r.prev_digest opt.expected_prev_digest)
    then refused (some r) prev_mismatch
    else record {
      receipt = some r;
      is_ok = true;
      reason = verified;
      next_digest = some (c.sha256 body);
    }

unfoldable pub keyed_receipt :
    Crypto → Decimal → ReceiptOptions → Bytes → Bytes → Bytes → Bytes → ReceiptResult
unfolding receipt_gates
keyed_receipt c d opt body sig px py =
    if not (pin_ok px py opt.pin_pub_x opt.pin_pub_y)
    then refused none pin_mismatch
    else if not (verify_checkpoint_sig c body sig px py)
    then refused none bad_signature
    else receipt_gates c body opt (parse_receipt d body)

abbrev pub or_refused :
    Result Bytes → (Error → ReceiptReason) → (Bytes → ReceiptResult) → ReceiptResult
or_refused (ok bs) why next = next bs
or_refused (err e) why next = refused none (why e)

-- `VerifyReceipt`.
unfoldable pub verify_receipt : Crypto → Decimal → ReceiptBundle → ReceiptOptions → ReceiptResult
verify_receipt c d b opt = or_refused (hex_decode b.sig) sig_hex λ sig.
    or_refused (hex_decode b.pub_x) pub_x_hex
      λ px. or_refused (hex_decode b.pub_y) pub_y_hex λ py. keyed_receipt c d opt b.body sig px py
