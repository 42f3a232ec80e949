-- ===== src/Checkpoint/Evidence.antt =====
-- src/verifier/transparency.go: what a logged endorsement and an equivocation proof show.
use open_opticon.Common.{
  ℕ, ◌≡◌, ◌≢◌, ◌↔◌, ◌⊎◌, refl, arith, true, false, some, List, Bool-cases, inl, inr, length, ==_iff,
  get_elem?, All,
}
use open_opticon.Common.Bytes.{Bytes, bytes_eq, bytes_eq_iff}
use open_opticon.Common.Results.{
  Result, ok, err, wrap, >>=-eq-ok, wrap-eq-ok, guard-eq-ok, checkpoint_signature, not_included,
}
use open_opticon.Crypto.{Crypto, verify_sig}
use open_opticon.Merkle.{Digest, mth, verify_inclusion}
use open_opticon.Merkle.Sound.{IsDigest, Collision, verify_inclusion_sound}
use open_opticon.Checkpoint.{
  Text, Checkpoint, Signed, parse_checkpoint, check_logged_endorsement, verify_checkpoint_sig,
  compare_checkpoints, verify_equivocation,
}

module _ (c : Crypto) (sha256_length : (b : Bytes) → length (c.sha256 b) ≡ 32) (t : Text) where
  -- A logged endorsement that is accepted against the checkpoint of a log, whose size and root the
  -- checkpoint states, is signed by the log's key and stands at the index in the log, or shows a
  -- collision of SHA-256; SHA-256 gives 32 bytes and the proof is a list of digests.
  pub check_logged_endorsement_sound :
      (leaves : List Bytes) (cp : Checkpoint) (entry : Bytes) (index : ℕ) (proof : List Digest)
      (cp_body cp_sig log_x log_y : Bytes)
      → All IsDigest proof
      → parse_checkpoint t cp_body ≡ ok cp
      → cp.size ≡ length leaves
      → cp.root ≡ mth c leaves
      → check_logged_endorsement c t entry index proof cp_body cp_sig log_x log_y ≡ ok tt
      → (verify_sig c cp_body cp_sig log_x log_y ≡ ok tt)
        × ((get_elem? leaves index ≡ some entry) ⊎ Collision c)
  unfolding check_logged_endorsement
  check_logged_endorsement_sound leaves cp entry index proof cp_body cp_sig log_x log_y ds parsed
        size root h =
      let (u, s, h1) =
        >>=-eq-ok (wrap checkpoint_signature (verify_sig c cp_body cp_sig log_x log_y)) _ h in
      let (found, p, h2) = >>=-eq-ok (parse_checkpoint t cp_body) _ h1 in
      let same : found ≡ cp = ground (arith, p, parsed) in
      let is : verify_inclusion c entry index found.size proof found.root ≡ true =
        guard-eq-ok _ not_included h2 in
      let at : verify_inclusion c entry index (length leaves) proof (mth c leaves) ≡ true =
        rw (same, size, root) at is in
      (
        wrap-eq-ok checkpoint_signature _ s,
        verify_inclusion_sound c sha256_length leaves entry index proof ds at,
      )

-- Two checkpoints, each cosigned under its pinned key, of one log and one size, with different
-- roots.
pub record IsEquivocation (c : Crypto) (t : Text) (a b : Signed) : Type 0 where
  pub cp_a : Checkpoint
  pub cp_b : Checkpoint
  pub signed_a : verify_checkpoint_sig c a.body a.sig a.key_x a.key_y ≡ true
  pub signed_b : verify_checkpoint_sig c b.body b.sig b.key_x b.key_y ≡ true
  pub parsed_a : parse_checkpoint t a.body ≡ ok cp_a
  pub parsed_b : parse_checkpoint t b.body ≡ ok cp_b
  pub origin : cp_a.origin ≡ cp_b.origin
  pub size : cp_a.size ≡ cp_b.size
  pub roots_differ : cp_a.root ≢ cp_b.root

compare_checkpoints→ :
    (x y : Result Checkpoint)
    → (compare_checkpoints x y).0 ≡ true
    → (p : Checkpoint) × (q : Checkpoint) × (x ≡ ok p)
      × (y ≡ ok q)
      × (p.origin ≡ q.origin)
      × (p.size ≡ q.size)
      × (p.root ≢ q.root)
unfolding compare_checkpoints
compare_checkpoints→ (err e) y h = cc
compare_checkpoints→ (ok p) (err e) h = cc
compare_checkpoints→ (ok p) (ok q) h =
    let o : bytes_eq p.origin q.origin ≡ true = ground arith in
    let s : p.size ≡ q.size = ground arith in
    let r : bytes_eq p.root q.root ≡ false = ground arith in
    (
      p,
      q,
      refl,
      refl,
      (bytes_eq_iff p.origin q.origin).0 o,
      s,
      λ e. ground (arith, (bytes_eq_iff p.root q.root).1 e),
    )

module _ (c : Crypto) (t : Text) (a b : Signed) where
  equivocation→ : (verify_equivocation c t a b).0 ≡ true → IsEquivocation c t a b
  unfolding verify_equivocation
  equivocation→ h = elim (Bool-cases (verify_checkpoint_sig c a.body a.sig a.key_x a.key_y)) [
    | inr n ↦ let h' = rw n at h in cc
    | inl sa ↦ elim (Bool-cases (verify_checkpoint_sig c b.body b.sig b.key_x b.key_y)) [
      | inr n ↦ let h' = rw (sa, n) at h in cc
      | inl sb ↦
          let h' = rw (sa, sb) at h in
          let f = compare_checkpoints→ (parse_checkpoint t a.body) (parse_checkpoint t b.body) h' in
          record {
            cp_a = f.0;
            cp_b = f.1;
            signed_a = sa;
            signed_b = sb;
            parsed_a = f.2;
            parsed_b = f.3;
            origin = f.4;
            size = f.5;
            roots_differ = f.6;
          }
    ]
  ]

  →equivocation : IsEquivocation c t a b → (verify_equivocation c t a b).0 ≡ true
  unfolding verify_equivocation compare_checkpoints
  →equivocation e =
      let o = (bytes_eq_iff e.cp_a.origin e.cp_b.origin).1 e.origin in
      let r : bytes_eq e.cp_a.root e.cp_b.root ≡ false =
        elim (Bool-cases (bytes_eq e.cp_a.root e.cp_b.root)) [
          | inl y ↦ absurd (e.roots_differ ((bytes_eq_iff e.cp_a.root e.cp_b.root).0 y))
          | inr n ↦ n
        ] in
      let s = (==_iff e.cp_a.size e.cp_b.size).1 e.size in
      rw (e.signed_a, e.signed_b, e.parsed_a, e.parsed_b, o, s, r) refl

  -- `VerifyEquivocation` answers true exactly on two checkpoints that are cosigned under their pinned
  -- keys and state one origin, one size and different roots.
  pub verify_equivocation_iff : ((verify_equivocation c t a b).0 ≡ true) ↔ IsEquivocation c t a b
  verify_equivocation_iff = (equivocation→, →equivocation)
