-- ===== src/Crypto.antt =====
-- src/verifier/bound.go: P-256 signatures. SHA-256, the curve and ECDSA belong to Go's library:
-- they are the fields of `Crypto`, which every definition that uses them takes.
use open_opticon.Common.{
  ℕ, zero, suc, ◌+◌, ◌-◌, ◌*◌, ◌/◌, ◌%◌, Bool, ◌&&◌, [], ◌∷◌, ◌++◌, ltb, leb, ◌==◌, if◌then◌else◌,
  length, take, drop,
}
use open_opticon.Common.Bytes.{Bytes}
use open_opticon.Common.Results.{Result, ◌>>◌, guard, short_sig, bad_pub_key, ecdsa_failed}

-- `big.Int.SetBytes`, from the value of the bytes read so far.
unfoldable pub set_bytes : ℕ → Bytes → ℕ
set_bytes v [] = v
set_bytes v (b ∷ bs) = set_bytes (256 * v + b) bs

-- `big.Int.FillBytes` on a buffer of `n` bytes.
unfoldable pub fill_bytes : ℕ → ℕ → Bytes
fill_bytes zero v = []
fill_bytes (suc n) v = fill_bytes n (v / 256) ++ (v % 256) ∷ []

-- `elliptic.P256().Params().N`.
abbrev pub order : ℕ
order = 0xffffffff00000000ffffffffffffffffbce6faada7179e84f3b9cac2fc632551

pub record Crypto : Type 0 where
  pub sha256 : Bytes → Bytes
  pub is_on_curve : ℕ → ℕ → Bool
  pub ecdsa_verify : ℕ → ℕ → Bytes → ℕ → ℕ → Bool

-- `verifySig`.
unfoldable pub verify_sig : Crypto → Bytes → Bytes → Bytes → Bytes → Result (Unit {0})
verify_sig c payload sig px py = do
  guard (length sig == 64) short_sig
  let x = set_bytes 0 px
  let y = set_bytes 0 py
  guard (c.is_on_curve x y) bad_pub_key
  let r = set_bytes 0 (take 32 sig)
  let s = set_bytes 0 (drop 32 sig)
  guard (c.ecdsa_verify x y (c.sha256 payload) r s) ecdsa_failed

-- `lowS`: a 64-byte signature whose `s` is at most N/2.
unfoldable pub low_s : Bytes → Bool
low_s sig = length sig == 64 && leb (set_bytes 0 (drop 32 sig)) (order / 2)

-- `NormalizeLowS`.
unfoldable pub normalize_low_s : ℕ → ℕ
normalize_low_s s = if ltb (order / 2) s then order - s else s
