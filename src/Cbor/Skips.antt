-- ===== src/Cbor/Skips.antt =====
-- src/verifier/cose.go: `skipValue` leaves bytes.
use open_opticon.Common.{ℕ, zero, suc, ◌≡◌, arith, All}
use open_opticon.Common.Bytes.{Bytes, IsByte}
use open_opticon.Common.Results.{Result, ok, ◌>>=◌, >>=-eq-ok}
use open_opticon.Cbor.{read_head, skip_items, skip_value}
use open_opticon.Cbor.Canonical.{read_head-IsHead}
use open_opticon.Cbor.Values.{IsCut-take}

abbrev KeepsBytes : (Bytes → Result Bytes) → Type 0
KeepsBytes skip = (bs rest : Bytes) → All IsByte bs → skip bs ≡ ok rest → All IsByte rest

skip_items-IsByte :
    (skip : Bytes → Result Bytes) → KeepsBytes skip → (n : ℕ) → KeepsBytes (skip_items skip n)
unfolding skip_items
skip_items-IsByte skip k zero bs rest a h = ground (arith, a)
skip_items-IsByte skip k (suc n) bs rest a h =
    let (mid, e, f) = >>=-eq-ok (skip bs) _ h in
    skip_items-IsByte skip k n mid rest (k bs mid a e) f

twice-IsByte : (skip : Bytes → Result Bytes) → KeepsBytes skip → KeepsBytes (λ b. skip b >>= skip)
twice-IsByte skip k bs rest a h =
    let (mid, e, f) = >>=-eq-ok (skip bs) _ h in k mid rest (k bs mid a e) f

pub skip_value-IsByte : (levels : ℕ) → KeepsBytes (skip_value levels)
unfolding skip_value
skip_value-IsByte zero bs rest a h = cc
skip_value-IsByte (suc levels) bs rest a h =
    let ((major, n, r), e, f) = >>=-eq-ok (read_head bs) _ h in
    let i = read_head-IsHead bs r major n a e in
    let ih = skip_value-IsByte levels in
    ground (
      arith,
      i.tail,
      IsCut-take n r i.tail,
      skip_items-IsByte (skip_value levels) ih n r rest i.tail,
      skip_items-IsByte (λ b. skip_value levels b >>= skip_value levels)
          (twice-IsByte (skip_value levels) ih) n r rest i.tail,
      ih r rest i.tail,
    )
