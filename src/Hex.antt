-- ===== src/Hex.antt =====
-- encoding/hex, as the verifier uses it: strings are lists of bytes.
use open_opticon.Common.{
  ℕ, ◌+◌, ◌-◌, ◌*◌, ◌/◌, ◌%◌, ◌<◌, ◌≡◌, refl, ◌&&◌, Option, none, some, [], ◌∷◌, arith, ltb, leb,
  if◌then◌else◌, All,
}
use open_opticon.Common.Bytes.{Bytes, IsByte}
use open_opticon.Common.Results.{
  Result, ok, err, ◌>>=◌, >>=-eq-ok, odd_length_hex, invalid_hex_byte,
}

-- `reverseHexTable`; `none` is an entry above 0x0f.
unfoldable pub hex_digit : ℕ → Option ℕ
hex_digit c =
    if leb b'0' c && leb c b'9'
    then some (c - b'0')
    else if leb b'a' c && leb c b'f'
    then some (c - b'a' + 10)
    else if leb b'A' c && leb c b'F'
    then some (c - b'A' + 10)
    else none

unfoldable pub digit_of : ℕ → Result ℕ
unfolding hex_digit
digit_of c = elim (hex_digit c) [ none ↦ err (invalid_hex_byte c) | some d ↦ ok d ]

-- `hex.DecodeString`.
unfoldable pub hex_decode : Bytes → Result Bytes
unfolding digit_of
hex_decode [] = ok []
hex_decode (p ∷ []) = do _ ← digit_of p; err odd_length_hex
hex_decode (p ∷ q ∷ rest) = do
  a ← digit_of p
  b ← digit_of q
  bs ← hex_decode rest
  ok ((16 * a + b) ∷ bs)

-- `hex.EncodeToString`.
unfoldable pub hex_char : ℕ → ℕ
hex_char d = if ltb d 10 then b'0' + d else b'a' + (d - 10)

unfoldable pub hex_encode : Bytes → Bytes
unfolding hex_char
hex_encode [] = []
hex_encode (b ∷ bs) = hex_char (b / 16) ∷ hex_char (b % 16) ∷ hex_encode bs

digit_of-hex_char : (d : ℕ) → d < 16 → digit_of (hex_char d) ≡ ok d
unfolding digit_of hex_char
digit_of-hex_char d h = ground arith

-- Decoding what was encoded gives the bytes back.
pub hex_decode-hex_encode : (bs : Bytes) → All IsByte bs → hex_decode (hex_encode bs) ≡ ok bs
unfolding hex_decode hex_encode
hex_decode-hex_encode [] h = refl
hex_decode-hex_encode (b ∷ bs) (hb, h) =
    let e : 16 * (b / 16) + b % 16 ≡ b = omega arith in
    let hi = digit_of-hex_char (b / 16) (omega arith) in
    let lo = digit_of-hex_char (b % 16) (omega arith) in rw (hi, lo, hex_decode-hex_encode bs h, e)

hex_digit-lt : (c d : ℕ) → hex_digit c ≡ some d → d < 16
unfolding hex_digit
hex_digit-lt c d h = ground arith

digit_of-lt : (c d : ℕ) → digit_of c ≡ ok d → d < 16
unfolding digit_of
digit_of-lt c d h = ground (arith, hex_digit-lt c d)

-- What was decoded are bytes.
pub hex_decode-IsByte : (s bs : Bytes) → hex_decode s ≡ ok bs → All IsByte bs
unfolding hex_decode
hex_decode-IsByte [] bs h = let e : [] ≡ bs = ground arith in rw (← e) tt
hex_decode-IsByte (p ∷ []) bs h = let (a, _, h1) = >>=-eq-ok (digit_of p) _ h in cc
hex_decode-IsByte (p ∷ q ∷ rest) bs h =
    let (a, ea, h1) = >>=-eq-ok (digit_of p) _ h in
    let (b, eb, h2) = >>=-eq-ok (digit_of q) _ h1 in
    let (r, er, h3) = >>=-eq-ok (hex_decode rest) _ h2 in
    let e : (16 * a + b) ∷ r ≡ bs = ground arith in
    rw (← e) (omega (arith, digit_of-lt p a ea, digit_of-lt q b eb), hex_decode-IsByte rest r er)
