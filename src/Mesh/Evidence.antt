-- ===== src/Mesh/Evidence.antt =====
-- src/verifier/cmd/he-witness/main.go: what `tryAdopt` takes for evidence.
use open_opticon.Common.{◌≡◌, refl, subst, true, Bool-cases, inl, inr, some, Option-cases}
use open_opticon.Common.Bytes.{Bytes, bytes_eq, bytes_eq_iff}
use open_opticon.Common.Results.{ok, Result-cases}
use open_opticon.Hex.{hex_decode}
use open_opticon.Crypto.{Crypto}
use open_opticon.Checkpoint.{Text, Signed, parse_checkpoint, verify_equivocation}
use open_opticon.Checkpoint.Evidence.{IsEquivocation, verify_equivocation_iff}
use open_opticon.Witness.{Config}
use open_opticon.Mesh.{EquivCkpt, EquivProof}
use open_opticon.Mesh.Daemon.{
  Daemon, pinned_key, pinned_side, is_about, judge_sides, judge_keys, judge_proof, try_adopt,
}

-- One side of a proof under the key that the daemon pins for its witness.
pub record IsPinned (d : Daemon) (side : EquivCkpt) (s : Signed) : Type 0 where
  pub body : s.body ≡ side.checkpoint_body
  pub key : pinned_key d side.witness ≡ some (s.key_x, s.key_y)
  pub sig : hex_decode side.cosignature ≡ ok s.sig

-- The two sides verify under pinned keys and show an equivocation of the watched log; their witnesses
-- may be one.
pub record IsEvidence (c : Crypto) (t : Text) (d : Daemon) (p : EquivProof) : Type 0 where
  pub signed_a : Signed
  pub signed_b : Signed
  pub pinned_a : IsPinned d p.a signed_a
  pub pinned_b : IsPinned d p.b signed_b
  pub equivocation : IsEquivocation c t signed_a signed_b
  pub watched : equivocation.cp_a.origin ≡ d.cfg.origin

module _ (c : Crypto) (t : Text) where
  judge_sides→ :
      (cfg : Config) (a b : Signed)
      → (judge_sides c t cfg (some a) (some b)).0 ≡ true
      → (e : IsEquivocation c t a b) × (e.cp_a.origin ≡ cfg.origin)
  unfolding judge_sides is_about
  judge_sides→ cfg a b h = elim (Bool-cases (verify_equivocation c t a b).0) [
    | inr n ↦ let h' = rw n at h in cc
    | inl y ↦
        let h' = rw y at h in
        let e = (verify_equivocation_iff c t a b).0 y in
        elim (Bool-cases (is_about cfg (parse_checkpoint t a.body))) [
          | inr n ↦ let h'' = rw n at h' in cc
          | inl o ↦
              let o' : bytes_eq e.cp_a.origin cfg.origin ≡ true = rw e.parsed_a at o in
              (e, (bytes_eq_iff e.cp_a.origin cfg.origin).0 o')
        ]
  ]

  →judge_sides :
      (cfg : Config) (a b : Signed) (e : IsEquivocation c t a b)
      → e.cp_a.origin ≡ cfg.origin
      → (judge_sides c t cfg (some a) (some b)).0 ≡ true
  unfolding judge_sides is_about
  →judge_sides cfg a b e w =
      let y = (verify_equivocation_iff c t a b).1 e in
      let o = (bytes_eq_iff e.cp_a.origin cfg.origin).1 w in rw (y, e.parsed_a, o) refl

  pub evidence→ :
      (d : Daemon) (p : EquivProof) → (try_adopt c t p d).0.0 ≡ true → IsEvidence c t d p
  unfolding try_adopt judge_proof judge_keys judge_sides pinned_side
  evidence→ d p h = elim (Option-cases (pinned_key d p.a.witness)) [
    | inl n ↦ let h' = rw n at h in cc
    | inr (ka, ea) ↦ elim (Option-cases (pinned_key d p.b.witness)) [
      | inl n ↦ let h' = rw (ea, n) at h in cc
      | inr (kb, eb) ↦ elim (Result-cases (hex_decode p.a.cosignature)) [
        | inr (x, n) ↦ let h' = rw (ea, eb, n) at h in cc
        | inl (sa, da) ↦ elim (Result-cases (hex_decode p.b.cosignature)) [
          | inr (x, n) ↦ let h' = rw (ea, eb, da, n) at h in cc
          | inl (sb, db) ↦
              let a : Signed = record {
                body = p.a.checkpoint_body;
                sig = sa;
                key_x = ka.0;
                key_y = ka.1;
              } in
              let b : Signed = record {
                body = p.b.checkpoint_body;
                sig = sb;
                key_x = kb.0;
                key_y = kb.1;
              } in
              let h' : (judge_sides c t d.cfg (some a) (some b)).0 ≡ true =
                rw (ea, eb, da, db) at h in
              let (e, w) = judge_sides→ d.cfg a b h' in
              record {
                signed_a = a;
                signed_b = b;
                pinned_a = record { body = refl; key = ea; sig = da };
                pinned_b = record { body = refl; key = eb; sig = db };
                equivocation = e;
                watched = w;
              }
        ]
      ]
    ]
  ]

  pub →evidence :
      (d : Daemon) (p : EquivProof) → IsEvidence c t d p → (try_adopt c t p d).0.0 ≡ true
  unfolding try_adopt judge_proof judge_keys pinned_side
  →evidence d p v =
      let a = v.signed_a in
      let b = v.signed_b in
      let with_a : Bytes → Signed = λ x. record a { body = x } in
      let with_b : Bytes → Signed = λ x. record b { body = x } in
      let j =
        subst (λ x. (judge_sides c t d.cfg (some (with_a x)) (some b)).0 ≡ true) v.pinned_a.body
          (→judge_sides d.cfg a b v.equivocation v.watched) in
      let k : (judge_sides c t d.cfg (some (with_a p.a.checkpoint_body))
            (some (with_b p.b.checkpoint_body))).0
          ≡ true =
        subst
          (λ x.
            (judge_sides c t d.cfg (some (with_a p.a.checkpoint_body)) (some (with_b x))).0 ≡ true)
          v.pinned_b.body j in
      rw (v.pinned_a.key, v.pinned_b.key, v.pinned_a.sig, v.pinned_b.sig) k
