-- ===== src/Cbor/Head.antt =====
-- `read_head` is the exact inverse of the deterministic encoding of a CBOR head.
use open_opticon.Common.{
  ℕ, zero, suc, ◌+◌, ◌*◌, ◌/◌, ◌%◌, ◌^◌, ◌≤◌, ◌<◌, bit_or, ◌≡◌, refl, [], ◌∷◌, ◌++◌, arith, ap,
  length, ltb, if◌then◌else◌, All,
}
use open_opticon.Common.Bits.{bit_and-low_five, bit_or-shift_byte}
use open_opticon.Common.Bytes.{Bytes, IsByte}
use open_opticon.Common.Results.{ok}
use native.Mathlib.Nat.{pow-suc}
use open_opticon.Cbor.{read_n, read_wide, read_argument, read_head}

-- Big-endian numbers of 2, 4 and 8 bytes.
abbrev pub be2 : ℕ → Bytes
be2 n = (n / 256 % 256) ∷ (n % 256) ∷ []

abbrev pub be4 : ℕ → Bytes
be4 n = be2 (n / 2 ^ 16) ++ be2 n

abbrev pub be8 : ℕ → Bytes
be8 n = be4 (n / 2 ^ 32) ++ be4 n

-- The shortest head of major type `major` with argument `n`, as RFC 8949 section 4.2 asks.
unfoldable pub encode_head : ℕ → ℕ → Bytes
encode_head major n =
    if ltb n 24
    then (32 * major + n) ∷ []
    else if ltb n 256
    then (32 * major + 24) ∷ n ∷ []
    else if ltb n (2 ^ 16)
    then (32 * major + 25) ∷ be2 n
    else if ltb n (2 ^ 32)
    then (32 * major + 26) ∷ be4 n
    else (32 * major + 27) ∷ be8 n

-- One byte of `readN`.
join_byte : (v b : ℕ) → v < 2 ^ 56 → b < 256 → bit_or (256 * v % 2 ^ 64) b ≡ 256 * v + b
join_byte v b hv hb =
    let e : 256 * v % 2 ^ 64 ≡ 256 * v = omega arith in rw e (bit_or-shift_byte v b hb)

pow_pos : (k : ℕ) → 1 ≤ 256 ^ k
pow_pos zero = omega arith
pow_pos (suc k) = rw pow-suc (omega (arith, pow_pos k))

mul_mono : (a c p : ℕ) → a ≤ c → a * p ≤ c * p
mul_mono a c p h = grind arith

-- With `k` bytes left to read there is room for them.
abbrev pub HasRoom : ℕ → ℕ → Type 0
HasRoom k v = (v + 1) * 256 ^ k ≤ 2 ^ 64

HasRoom-lt : (k v : ℕ) → HasRoom (suc k) v → v < 2 ^ 56
HasRoom-lt k v h =
    omega (arith, pow-suc 256 k, pow_pos k, ap (λ (t : ℕ). (v + 1) * t) (pow-suc 256 k), grown)
  where
    grown : (v + 1) * 256 ≤ (v + 1) * 256 ^ suc k
    grown = rw pow-suc (grind (arith, pow_pos k))

HasRoom-step : (k v b : ℕ) → b < 256 → HasRoom (suc k) v → HasRoom k (256 * v + b)
HasRoom-step k v b hb h =
    let h' : (v + 1) * (256 ^ k * 256) ≤ 2 ^ 64 = rw (pow-suc 256 k) at h in
    omega (arith, mul_mono (256 * v + b + 1) (256 * v + 256) (256 ^ k) (omega arith))

abbrev pub value : ℕ → Bytes → ℕ
value v [] = v
value v (b ∷ bs) = value (256 * v + b) bs

-- `read_n` takes exactly its bytes, and gives their big-endian value.
read_n-append :
    (xs : Bytes) (v : ℕ) (rest : Bytes)
    → All IsByte xs
    → HasRoom (length xs) v
    → read_n (length xs) v (xs ++ rest) ≡ ok (value v xs, rest)
unfolding read_n
read_n-append [] v rest h room = refl
read_n-append (b ∷ xs) v rest (hb, h) room =
    rw (join_byte v b (HasRoom-lt (length xs) v room) hb)
      (read_n-append xs (256 * v + b) rest h (HasRoom-step (length xs) v b hb room))

-- The other way round: what `read_n` returned is the value of the bytes that it took.
pub record Taken (n v w : ℕ) (bs rest : Bytes) : Type 0 where
  pub bytes : Bytes
  pub count : length bytes ≡ n
  pub split : bs ≡ bytes ++ rest
  pub worth : w ≡ value v bytes
  pub small : All IsByte bytes
  pub tail : All IsByte rest

pub read_n-Taken :
    (n v w : ℕ) (bs rest : Bytes)
    → All IsByte bs
    → HasRoom n v
    → read_n n v bs ≡ ok (w, rest)
    → Taken n v w bs rest
unfolding read_n
read_n-Taken zero v w bs rest h room e = record {
  bytes = [];
  count = refl;
  split = ground arith;
  worth = ground arith;
  small = tt;
  tail = let e' : bs ≡ rest = ground arith in rw e' at h;
}
read_n-Taken (suc n) v w [] rest h room e = cc
read_n-Taken (suc n) v w (b ∷ bs) rest (hb, h) room e =
    let e' = rw (join_byte v b (HasRoom-lt n v room) hb) at e in
    let r = read_n-Taken n (256 * v + b) w bs rest h (HasRoom-step n v b hb room) e' in
    record {
      bytes = b ∷ r.bytes;
      count = ap suc r.count;
      split = ap (λ t. b ∷ t) r.split;
      worth = r.worth;
      small = (hb, r.small);
      tail = r.tail;
    }

read_be2 : (n : ℕ) (rest : Bytes) → n < 2 ^ 16 → read_n 2 0 (be2 n ++ rest) ≡ ok (n, rest)
read_be2 n rest h =
    let e : value 0 (be2 n) ≡ n = omega arith in
    rw e at (read_n-append (be2 n) 0 rest (omega arith) (omega arith))

read_be4 : (n : ℕ) (rest : Bytes) → n < 2 ^ 32 → read_n 4 0 (be4 n ++ rest) ≡ ok (n, rest)
read_be4 n rest h =
    let e : value 0 (be4 n) ≡ n = omega arith in
    rw e at (read_n-append (be4 n) 0 rest (omega arith) (omega arith))

read_be8 : (n : ℕ) (rest : Bytes) → n < 2 ^ 64 → read_n 8 0 (be8 n ++ rest) ≡ ok (n, rest)
read_be8 n rest h =
    let e : value 0 (be8 n) ≡ n = omega arith in
    rw e at (read_n-append (be8 n) 0 rest (omega arith) (omega arith))

pub read_head_step :
    (major info : ℕ) (rest : Bytes)
    → major < 8
    → info < 32
    → read_head ((32 * major + info) ∷ rest) ≡ read_argument major info rest
unfolding read_head
read_head_step major info rest hm hi =
    let e : (32 * major + info) / 32 ≡ major = omega arith in
    let f : (32 * major + info) % 32 ≡ info = omega arith in
    rw (bit_and-low_five (32 * major + info) (omega arith), e, f)

read_wide_fits :
    (major width most n : ℕ) (bs rest : Bytes)
    → read_n width 0 bs ≡ ok (n, rest)
    → most < n
    → read_wide major width most bs ≡ ok (major, n, rest)
unfolding read_wide
read_wide_fits major width most n bs rest e h = rw e (ground arith)

-- Reading an encoded head gives it back, with the bytes that follow.
pub read_head-encode_head :
    (major n : ℕ) (rest : Bytes)
    → major < 8
    → n < 2 ^ 64
    → read_head (encode_head major n ++ rest) ≡ ok (major, n, rest)
unfolding encode_head read_argument
read_head-encode_head major n rest hm hn = ground (
  arith,
  read_head_step major n rest hm,
  read_head_step major 24 (n ∷ rest) hm,
  read_head_step major 25 (be2 n ++ rest) hm,
  read_head_step major 26 (be4 n ++ rest) hm,
  read_head_step major 27 (be8 n ++ rest) hm,
  read_wide_fits major 2 0xff n (be2 n ++ rest) rest,
  read_wide_fits major 4 0xffff n (be4 n ++ rest) rest,
  read_wide_fits major 8 0xffff_ffff n (be8 n ++ rest) rest,
  read_be2 n rest,
  read_be4 n rest,
  read_be8 n rest,
)

-- What `read_n` read in 2, 4 and 8 bytes is their encoding.
pub be2-value :
    (xs : Bytes) → length xs ≡ 2 → All IsByte xs → (be2 (value 0 xs) ≡ xs) × (value 0 xs < 2 ^ 16)
be2-value (a ∷ b ∷ []) e h = (ground arith, ground arith)
be2-value _ e h = absurd (omega arith)

pub be4-value :
    (xs : Bytes) → length xs ≡ 4 → All IsByte xs → (be4 (value 0 xs) ≡ xs) × (value 0 xs < 2 ^ 32)
be4-value (a ∷ b ∷ c ∷ d ∷ []) e h = (ground arith, ground arith)
be4-value _ e h = absurd (omega arith)

pub be8-value :
    (xs : Bytes) → length xs ≡ 8 → All IsByte xs → (be8 (value 0 xs) ≡ xs) × (value 0 xs < 2 ^ 64)
be8-value (a ∷ b ∷ c ∷ d ∷ e ∷ f ∷ g ∷ h ∷ []) l s = (ground arith, ground arith)
be8-value _ l s = absurd (omega arith)
