-- ===== src/Cbor/Canonical.antt =====
-- src/verifier/bound.go: `readHead` accepts no encoding but the deterministic one.
use open_opticon.Common.{
  ℕ, ◌+◌, ◌*◌, ◌/◌, ◌%◌, ◌^◌, ◌<◌, ◌≡◌, sym, ap, ◌∙◌, [], ◌∷◌, ◌++◌, arith, All,
}
use open_opticon.Common.Bits.{bit_and-low_five}
use open_opticon.Common.Bytes.{Bytes, IsByte}
use open_opticon.Common.Results.{ok}
use open_opticon.Cbor.{read_n, read_wide, read_argument, read_head}
use open_opticon.Cbor.Head.{
  encode_head, be2, be4, be8, read_n-Taken, be2-value, be4-value, be8-value,
}

-- A read head is the deterministic head of what was read.
pub record IsHead (major n : ℕ) (bs rest : Bytes) : Type 0 where
  pub split : bs ≡ encode_head major n ++ rest
  pub major_lt : major < 8
  pub n_lt : n < 2 ^ 64
  pub tail : All IsByte rest

read_wide_inv :
    (major width most m n : ℕ) (bs rest : Bytes)
    → read_wide major width most bs ≡ ok (m, n, rest)
    → (m ≡ major) × (read_n width 0 bs ≡ ok (n, rest)) × (most < n)
unfolding read_wide
read_wide_inv major width most m n bs rest h = ground arith

wide2 :
    (n : ℕ) (bs rest : Bytes)
    → All IsByte bs
    → read_n 2 0 bs ≡ ok (n, rest)
    → (bs ≡ be2 n ++ rest) × (n < 2 ^ 16) × All IsByte rest
wide2 n bs rest h e =
    let t = read_n-Taken 2 0 n bs rest h (omega arith) e in
    let v = be2-value t.bytes t.count t.small in
    rw t.worth (t.split ∙ ap (λ (x : Bytes). x ++ rest) (sym v.0), v.1, t.tail)

wide4 :
    (n : ℕ) (bs rest : Bytes)
    → All IsByte bs
    → read_n 4 0 bs ≡ ok (n, rest)
    → (bs ≡ be4 n ++ rest) × (n < 2 ^ 32) × All IsByte rest
wide4 n bs rest h e =
    let t = read_n-Taken 4 0 n bs rest h (omega arith) e in
    let v = be4-value t.bytes t.count t.small in
    rw t.worth (t.split ∙ ap (λ (x : Bytes). x ++ rest) (sym v.0), v.1, t.tail)

wide8 :
    (n : ℕ) (bs rest : Bytes)
    → All IsByte bs
    → read_n 8 0 bs ≡ ok (n, rest)
    → (bs ≡ be8 n ++ rest) × (n < 2 ^ 64) × All IsByte rest
wide8 n bs rest h e =
    let t = read_n-Taken 8 0 n bs rest h (omega arith) e in
    let v = be8-value t.bytes t.count t.small in
    rw t.worth (t.split ∙ ap (λ (x : Bytes). x ++ rest) (sym v.0), v.1, t.tail)

argument_inv :
    (major info m n : ℕ) (bs rest : Bytes)
    → major < 8
    → info < 32
    → All IsByte bs
    → read_argument major info bs ≡ ok (m, n, rest)
    → (m ≡ major)
      × ((32 * major + info) ∷ bs ≡ encode_head major n ++ rest)
      × (n < 2 ^ 64)
      × All IsByte rest
unfolding read_argument encode_head
argument_inv major info m n [] rest hm hi h e = ground (
  arith,
  read_wide_inv major 2 0xff m n [] rest,
  read_wide_inv major 4 0xffff m n [] rest,
  read_wide_inv major 8 0xffff_ffff m n [] rest,
  wide2 n [] rest h,
  wide4 n [] rest h,
  wide8 n [] rest h,
)
argument_inv major info m n (b ∷ bs) rest hm hi h e = ground (
  arith,
  read_wide_inv major 2 0xff m n (b ∷ bs) rest,
  read_wide_inv major 4 0xffff m n (b ∷ bs) rest,
  read_wide_inv major 8 0xffff_ffff m n (b ∷ bs) rest,
  wide2 n (b ∷ bs) rest h,
  wide4 n (b ∷ bs) rest h,
  wide8 n (b ∷ bs) rest h,
)

-- Whatever `read_head` accepts is the shortest encoding of what it returns.
pub read_head-IsHead :
    (bs rest : Bytes) (major n : ℕ)
    → All IsByte bs
    → read_head bs ≡ ok (major, n, rest)
    → IsHead major n bs rest
unfolding read_head
read_head-IsHead [] rest major n h e = cc
read_head-IsHead (ib ∷ bs) rest major n (hb, h) e =
    let i : 32 * (ib / 32) + ib % 32 ≡ ib = omega arith in
    let e' = rw (bit_and-low_five ib hb) at e in
    let r = argument_inv (ib / 32) (ib % 32) major n bs rest (omega arith) (omega arith) h e' in
    record {
      split =
          ap (λ (x : ℕ). x ∷ bs) (sym i) ∙ r.1 ∙ ap (λ (x : ℕ). encode_head x n ++ rest) (sym r.0);
      major_lt = omega arith;
      n_lt = r.2;
      tail = r.3;
    }
