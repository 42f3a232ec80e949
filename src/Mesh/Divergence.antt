-- ===== src/Mesh/Divergence.antt =====
-- src/verifier/cmd/he-witness/main.go: what the cross-check of the peers establishes.
use open_opticon.Common.{
  ℕ, suc, ◌≡◌, ◌≢◌, refl, ◌∙◌, arith, true, Bool-cases, inl, inr, Option, some, Option-cases, List,
  [], ◌∷◌, ◌==◌,
}
use open_opticon.Common.Bytes.{Bytes, bytes_eq, bytes_eq_iff}
use open_opticon.Common.Results.{Result, ok, err, Result-cases}
use open_opticon.Hex.{hex_decode}
use open_opticon.Crypto.{Crypto}
use open_opticon.Merkle.{Digest}
use open_opticon.Quorum.Votes.{In}
use open_opticon.Checkpoint.{Text, Checkpoint, parse_checkpoint, verify_checkpoint_sig}
use open_opticon.Witness.{Config}
use open_opticon.Mesh.{
  Peer, PeerCosigResp, EquivCkpt, Answers, View, PeerStatus, CrossVerdict, CrossReason, cross_agree,
  cross_equivocation, cross_inconclusive, cross_check, proof_of_peer, peer_side, judge,
  check_parsed, check_cosigned, check_answer, is_equivocation, first_of, survey,
}

-- The peer has published a checkpoint of the watched log under its pinned key that contradicts the
-- view, and `side` is its half of a proof.
pub record IsDivergent (c : Crypto) (t : Text) (cfg : Config) (net : Answers) (v : View) (p : Peer)
    (side : EquivCkpt) : Type 0 where
  pub response : PeerCosigResp
  pub sig : Bytes
  pub cp : Checkpoint
  pub answered : net.cosignature p ≡ ok response
  pub decoded : hex_decode response.cosignature ≡ ok sig
  pub signature : verify_checkpoint_sig c response.checkpoint_body sig p.pub_x p.pub_y ≡ true
  pub parsed : parse_checkpoint t response.checkpoint_body ≡ ok cp
  pub watched : cp.origin ≡ cfg.origin
  pub has_view : v.has_view ≡ true
  pub same_size : cp.size ≡ v.size
  pub other_root : cp.root ≢ v.root
  pub is_side : side ≡ peer_side p response

module _ (c : Crypto) (v : View) where
  -- At the same size the verdict is an equivocation only for another root.
  cross_check_differs :
      (size : ℕ) (root : Digest) (proof : Option (List Digest))
      → (cross_check c v size root proof).0 ≡ cross_equivocation
      → size ≡ v.size
      → (v.has_view ≡ true) × (root ≢ v.root)
  unfolding cross_check
  cross_check_differs size root proof h s = elim (Bool-cases v.has_view) [
    | inr n ↦ let h' = rw n at h in cc
    | inl y ↦
        let e : (size == v.size) ≡ true = ground arith in
        elim (Bool-cases (bytes_eq root v.root)) [
          | inl same ↦ let h' = rw (y, e, same) at h in cc
          | inr other ↦ (y, λ q. let z = (bytes_eq_iff root v.root).1 q in ground arith)
        ]
  ]

-- A side is given on the verdict of an equivocation at the same size.
judge_side :
    (p : Peer) (pr : PeerCosigResp) (v : View) (size : ℕ) (verdict : CrossVerdict × CrossReason)
    (side : EquivCkpt)
    → (judge p pr v size verdict).1 ≡ some side
    → (verdict.0 ≡ cross_equivocation)
      × (size ≡ v.size)
      × (side ≡ peer_side p pr)
      × (is_equivocation (judge p pr v size verdict).0 ≡ true)
unfolding judge is_equivocation
judge_side p pr v size (cross_agree, why) side h = cc
judge_side p pr v size (cross_inconclusive, why) side h = cc
judge_side p pr v size (cross_equivocation, why) side h = elim (Bool-cases (size == v.size)) [
  | inr n ↦ let h' = rw n at h in cc
  | inl y ↦
      let h' : some (peer_side p pr) ≡ some side = rw y at h in
      (refl, ground arith, ground arith, refl)
]

module _ (c : Crypto) (t : Text) (cfg : Config) (net : Answers) (v : View) where
  abbrev Reports : Peer → PeerStatus × Option EquivCkpt → EquivCkpt → Type 0
  Reports p found side = IsDivergent c t cfg net v p side × (is_equivocation found.0 ≡ true)

  check_cosigned_divergent :
      (p : Peer) (pr : PeerCosigResp) (decoded : Result Bytes) (side : EquivCkpt)
      → net.cosignature p ≡ ok pr
      → hex_decode pr.cosignature ≡ decoded
      → (check_cosigned c t cfg net v p pr decoded).1 ≡ some side
      → Reports p (check_cosigned c t cfg net v p pr decoded) side
  unfolding check_cosigned check_parsed
  check_cosigned_divergent p pr (err e) side ha hd h = cc
  check_cosigned_divergent p pr (ok sig) side ha hd h =
      elim (Bool-cases (verify_checkpoint_sig c pr.checkpoint_body sig p.pub_x p.pub_y)) [
        | inr n ↦ let h' = rw n at h in cc
        | inl s ↦ elim (Result-cases (parse_checkpoint t pr.checkpoint_body)) [
          | inr (e, n) ↦ let h' = rw (s, n) at h in cc
          | inl (cp, g) ↦ elim (Bool-cases (bytes_eq cp.origin cfg.origin)) [
            | inr n ↦ let h' = rw (s, g, n) at h in cc
            | inl o ↦
                let h' = rw (s, g, o) at h in
                let (verdict, size, is, raised) =
                  judge_side p pr v cp.size
                    (cross_check c v cp.size cp.root (proof_of_peer net v cp.size)) side h' in
                let (y, other) =
                  cross_check_differs c v cp.size cp.root (proof_of_peer net v cp.size) verdict
                    size in
                rw (s, g, o)
                  (
                    record {
                      response = pr;
                      sig = sig;
                      cp = cp;
                      answered = ha;
                      decoded = hd;
                      signature = s;
                      parsed = g;
                      watched = (bytes_eq_iff cp.origin cfg.origin).0 o;
                      has_view = y;
                      same_size = size;
                      other_root = other;
                      is_side = is;
                    },
                    raised,
                  )
          ]
        ]
      ]

  check_answer_divergent :
      (p : Peer) (answer : Result PeerCosigResp) (side : EquivCkpt)
      → net.cosignature p ≡ answer
      → (check_answer c t cfg net v p answer).1 ≡ some side
      → Reports p (check_answer c t cfg net v p answer) side
  unfolding check_answer
  check_answer_divergent p (err e) side ha h = cc
  check_answer_divergent p (ok pr) side ha h =
      check_cosigned_divergent p pr (hex_decode pr.cosignature) side ha refl h

  -- What `checkPeers` reports as the other side of a split view is a checkpoint of the watched log, at
  -- the size of our view with another root, under the pinned key of one of the peers; and then the
  -- alarm is raised.
  pub survey-IsDivergent :
      (peers : List Peer) (side : EquivCkpt)
      → (survey c t cfg net v peers).proof_peer ≡ some side
      → ((p : Peer) × In p peers × IsDivergent c t cfg net v p side)
        × ((survey c t cfg net v peers).any_equiv ≡ true)
  unfolding survey first_of
  survey-IsDivergent [] side h = cc
  survey-IsDivergent (p ∷ peers) side h =
      elim (Option-cases (check_answer c t cfg net v p (net.cosignature p)).1) [
        | inr (mine, e) ↦
            let h' : some mine ≡ some side = rw e at h in
            let got : (check_answer c t cfg net v p (net.cosignature p)).1 ≡ some side = e ∙ h' in
            let (d, raised) = check_answer_divergent p (net.cosignature p) side refl got in
            ((p, (0, refl), d), rw raised refl)
        | inl n ↦
            let h' : (survey c t cfg net v peers).proof_peer ≡ some side = rw n at h in
            let ((q, (i, at), d), raised) = survey-IsDivergent peers side h' in
            ((q, (suc i, at), d), ground (arith, raised))
      ]
