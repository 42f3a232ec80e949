-- ===== src/Cbor.antt =====
-- src/verifier/bound.go, src/verifier/cose.go and src/verifier/eat.go: the CBOR reader
-- `cborReader`. The reader's state is the bytes `b[pos:]` that are still to be read; `depth` is
-- the argument of `skip_value`, since only that function changes and restores it.
pub mod Head
pub mod Canonical
pub mod Values
pub mod Skips
use open_opticon.Common.{
  ℕ, zero, suc, ◌*◌, ◌/◌, ◌%◌, ◌^◌, bit_and, bit_or, Bool, true, false, List, [], ◌∷◌, ltb, leb,
  ◌==◌, if◌then◌else◌, length, take, drop,
}
use open_opticon.Common.Bytes.{Bytes}
use open_opticon.Common.Results.{
  Error, Result, ok, err, ◌>>=◌, unexpected_end, non_minimal, unsupported_info, expected_uint,
  expected_bstr, expected_tstr, expected_bool, bstr_exceeds_buffer, string_exceeds_buffer,
  nesting_too_deep, cannot_skip,
}

-- What a read returns: the value and the bytes after it.
abbrev pub Read : Type 0 → Type 0
Read A = Result (A × Bytes)

unfoldable pub next_byte : Bytes → Read ℕ
next_byte [] = err unexpected_end
next_byte (v ∷ rest) = ok (v, rest)

-- The loop of `readN`, with `n` rounds left; `v<<8 | uint64(b)` on 64 bits.
unfoldable pub read_n : ℕ → ℕ → Bytes → Read ℕ
unfolding next_byte
read_n zero v bs = ok (v, bs)
read_n (suc n) v bs = do (b, bs) ← next_byte bs; read_n n (bit_or (256 * v % 2 ^ 64) b) bs

-- A wide argument, refused unless it exceeds what the next smaller width holds.
unfoldable pub read_wide : ℕ → ℕ → ℕ → Bytes → Result (ℕ × ℕ × Bytes)
read_wide major width most bs = do
  (v, bs) ← read_n width 0 bs
  if leb v most then err (non_minimal width) else ok (major, v, bs)

-- The `switch` of `readHead`.
unfoldable pub read_argument : ℕ → ℕ → Bytes → Result (ℕ × ℕ × Bytes)
unfolding next_byte
read_argument major info bs =
    if ltb info 24
    then ok (major, info, bs)
    else if info == 24
    then (do (b, bs) ← next_byte bs; if ltb b 24 then err (non_minimal 1) else ok (major, b, bs))
    else if info == 25
    then read_wide major 2 0xff bs
    else if info == 26
    then read_wide major 4 0xffff bs
    else if info == 27
    then read_wide major 8 0xffff_ffff bs
    else err (unsupported_info info)

-- `ib >> 5` and `ib & 0x1f`.
unfoldable pub read_head : Bytes → Result (ℕ × ℕ × Bytes)
unfolding next_byte
read_head bs = do (ib, bs) ← next_byte bs; read_argument (ib / 32) (bit_and ib 0x1f) bs

unfoldable pub read_uint : Bytes → Read ℕ
read_uint bs = do
  (major, v, bs) ← read_head bs
  if major == 0 then ok (v, bs) else err (expected_uint major)

unfoldable pub read_bstr : Bytes → Read Bytes
read_bstr bs = do
  (major, n, bs) ← read_head bs
  if major == 2
      then if ltb (length bs) n then err bstr_exceeds_buffer else ok (take n bs, drop n bs)
      else err (expected_bstr major)

unfoldable pub read_tstr : Bytes → Read Bytes
read_tstr bs = do
  (major, n, bs) ← read_head bs
  if major == 3
      then if ltb (length bs) n then err string_exceeds_buffer else ok (take n bs, drop n bs)
      else err (expected_tstr major)

unfoldable pub read_bool : Bytes → Read Bool
unfolding next_byte
read_bool bs = do
  (b, bs) ← next_byte bs
  if b == 0xf4 then ok (false, bs) else if b == 0xf5 then ok (true, bs) else err (expected_bool b)

abbrev pub max_cbor_depth : ℕ
max_cbor_depth = 64

-- `for i := 0; i < n; i++ { skip() }`
unfoldable pub skip_items : (Bytes → Result Bytes) → ℕ → Bytes → Result Bytes
skip_items skip zero bs = ok bs
skip_items skip (suc n) bs = do rest ← skip bs; skip_items skip n rest

-- The levels that are left, `max_cbor_depth - r.depth`, go down where `r.depth` goes up.
unfoldable pub skip_value : ℕ → Bytes → Result Bytes
unfolding skip_items
skip_value zero bs = err nesting_too_deep
skip_value (suc levels) bs = do
  (major, n, bs) ← read_head bs
  if major == 0
      then ok bs
      else if major == 1
      then ok bs
      else if major == 7
      then ok bs
      else if major == 2
      then (if ltb (length bs) n then err string_exceeds_buffer else ok (drop n bs))
      else if major == 3
      then (if ltb (length bs) n then err string_exceeds_buffer else ok (drop n bs))
      else if major == 4
      then skip_items (skip_value levels) n bs
      else if major == 5
      then skip_items (λ b. skip_value levels b >>= skip_value levels) n bs
      else if major == 6
      then skip_value levels bs
      else err (cannot_skip major)
