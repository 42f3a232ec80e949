-- ===== src/Disclosure.antt =====
-- src/verifier/threshold.go: the disclosure of one window of a logged stream.
use open_opticon.Common.{
  ℕ, ◌≡◌, refl, arith, Bool, true, Option, none, some, List, length, get_elem?,
}
use open_opticon.Common.Bytes.{Bytes}
use open_opticon.Crypto.{Crypto}
use open_opticon.Merkle.{Digest, mth, path, inclusion_proof, verify_inclusion}
use open_opticon.Merkle.Paths.{verify_inclusion-path}

pub record WindowDisclosure : Type 0 where
  pub index : ℕ
  pub size : ℕ
  pub entry : Bytes
  pub proof : List Digest

unfoldable pub disclosed :
    List Bytes → ℕ → Option (List Digest) → Option Bytes → Option WindowDisclosure
disclosed leaves index none entry = none
disclosed leaves index (some proof) none = none
disclosed leaves index (some proof) (some entry) =
    some (record { index = index; size = length leaves; entry = entry; proof = proof })

-- `DiscloseWindow`; `none` is the error.
unfoldable pub disclose_window : Crypto → List Bytes → ℕ → Option WindowDisclosure
unfolding disclosed
disclose_window c leaves index =
    disclosed leaves index (inclusion_proof c leaves index) (get_elem? leaves index)

-- `VerifyWindowDisclosure`.
unfoldable pub verify_window_disclosure : Crypto → WindowDisclosure → Digest → Bool
verify_window_disclosure c d root = verify_inclusion c d.entry d.index d.size d.proof root

disclosed-verifies :
    (c : Crypto) (leaves : List Bytes) (index : ℕ) (o : Option (List Digest)) (e : Option Bytes)
    (d : WindowDisclosure)
    → inclusion_proof c leaves index ≡ o
    → get_elem? leaves index ≡ e
    → disclosed leaves index o e ≡ some d
    → (get_elem? leaves index ≡ some d.entry) × (verify_window_disclosure c d (mth c leaves) ≡ true)
unfolding verify_window_disclosure disclosed inclusion_proof
disclosed-verifies c leaves index none e d p at h = cc
disclosed-verifies c leaves index (some proof) none d p at h = cc
disclosed-verifies c leaves index (some proof) (some entry) d p at h =
    let same : path c index leaves ≡ proof = ground arith in
    let made : record { index = index; size = length leaves; entry = entry; proof = proof } ≡ d =
      cc in
    let v = verify_inclusion-path c leaves index entry at in rw (← made) (at, rw (← same) v)

-- A window that is disclosed from a stream is an entry of it and verifies against the stream's root.
pub verify_window_disclosure-disclose_window :
    (c : Crypto) (leaves : List Bytes) (index : ℕ) (d : WindowDisclosure)
    → disclose_window c leaves index ≡ some d
    → (get_elem? leaves index ≡ some d.entry) × (verify_window_disclosure c d (mth c leaves) ≡ true)
unfolding disclose_window
verify_window_disclosure-disclose_window c leaves index d h =
    disclosed-verifies c leaves index (inclusion_proof c leaves index) (get_elem? leaves index) d
      refl refl h
