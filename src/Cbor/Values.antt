-- ===== src/Cbor/Values.antt =====
-- src/verifier/bound.go: the readers of single values against their deterministic encodings, both
-- ways.
use open_opticon.Common.{
  ℕ, ◌^◌, ◌≤◌, ◌<◌, ◌≡◌, refl, sym, ◌∙◌, [], ◌∷◌, ◌++◌, arith, length, All, Bool, true, false,
  if◌then◌else◌, take, drop, take-append, drop-append, take-append-drop, length-take, length-append,
  All-append_left, All-append_right,
}
use open_opticon.Common.Bytes.{Bytes, IsByte}
use open_opticon.Common.Results.{ok, >>=-eq-ok}
use open_opticon.Cbor.{read_head, read_uint, read_bstr, read_bool}
use open_opticon.Cbor.Head.{encode_head, read_head-encode_head}
use open_opticon.Cbor.Canonical.{read_head-IsHead}

pub read_uint-encode_head :
    (v : ℕ) (rest : Bytes) → v < 2 ^ 64 → read_uint (encode_head 0 v ++ rest) ≡ ok (v, rest)
unfolding read_uint
read_uint-encode_head v rest h = rw (read_head-encode_head 0 v rest (omega arith) h)

pub read_bstr-encode_head :
    (v rest : Bytes)
    → length v < 2 ^ 64
    → read_bstr (encode_head 2 (length v) ++ (v ++ rest)) ≡ ok (v, rest)
unfolding read_bstr
read_bstr-encode_head v rest h =
    rw (read_head-encode_head 2 (length v) (v ++ rest) (omega arith) h)
      (ground (arith, length-append v rest, take-append v rest, drop-append v rest))

pub read_bool-byte :
    (v : Bool) (rest : Bytes) → read_bool ((if v then 0xf5 else 0xf4) ∷ rest) ≡ ok (v, rest)
unfolding read_bool
read_bool-byte true rest = refl
read_bool-byte false rest = refl

pub record IsUint (v : ℕ) (bs rest : Bytes) : Type 0 where
  pub split : bs ≡ encode_head 0 v ++ rest
  pub lt : v < 2 ^ 64
  pub tail : All IsByte rest

pub read_uint-IsUint :
    (bs rest : Bytes) (v : ℕ) → All IsByte bs → read_uint bs ≡ ok (v, rest) → IsUint v bs rest
unfolding read_uint
read_uint-IsUint bs rest v h e =
    let ((major, n, r), e1, e2) = >>=-eq-ok (read_head bs) _ e in
    let i = read_head-IsHead bs r major n h e1 in ground (arith, i.split, i.n_lt, i.tail)

pub record IsBstr (v bs rest : Bytes) : Type 0 where
  pub split : bs ≡ encode_head 2 (length v) ++ (v ++ rest)
  pub lt : length v < 2 ^ 64
  pub small : All IsByte v
  pub tail : All IsByte rest

-- The `n` bytes that are cut off.
pub record IsCut (n : ℕ) (v bs rest : Bytes) : Type 0 where
  pub count : length v ≡ n
  pub split : bs ≡ v ++ rest
  pub small : All IsByte v
  pub tail : All IsByte rest

pub IsCut-take :
    (n : ℕ) (bs : Bytes) → All IsByte bs → n ≤ length bs → IsCut n (take n bs) bs (drop n bs)
IsCut-take n bs h le =
    let e = take-append-drop n bs in
    let h' = rw (← e) at h in
    record {
      count = omega (arith, length-take n bs);
      split = sym e;
      small = All-append_left IsByte (take n bs) (drop n bs) h';
      tail = All-append_right IsByte (take n bs) (drop n bs) h';
    }

pub read_bstr-IsBstr :
    (bs v rest : Bytes) → All IsByte bs → read_bstr bs ≡ ok (v, rest) → IsBstr v bs rest
unfolding read_bstr
read_bstr-IsBstr bs v rest h e =
    let ((major, n, r), e1, e2) = >>=-eq-ok (read_head bs) _ e in
    let i = read_head-IsHead bs r major n h e1 in
    let f : (major ≡ 2) × (n ≤ length r) × (take n r ≡ v) × (drop n r ≡ rest) = ground arith in
    let c = rw (f.2, f.3) at (IsCut-take n r i.tail f.1) in
    record {
      split = i.split ∙ ground (arith, c.count, c.split);
      lt = omega (arith, i.n_lt, c.count);
      small = c.small;
      tail = c.tail;
    }

pub record IsBool (v : Bool) (bs rest : Bytes) : Type 0 where
  pub split : bs ≡ (if v then 0xf5 else 0xf4) ∷ rest
  pub tail : All IsByte rest

pub read_bool-IsBool :
    (bs rest : Bytes) (v : Bool) → All IsByte bs → read_bool bs ≡ ok (v, rest) → IsBool v bs rest
unfolding read_bool
read_bool-IsBool [] rest v h e = cc
read_bool-IsBool (b ∷ bs) rest v h e = ground arith
