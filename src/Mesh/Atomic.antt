-- ===== src/Mesh/Atomic.antt =====
-- src/verifier/cmd/he-witness/main.go: a proof that is posted while `checkPeers` asks the peers.
use open_opticon.Common.{
  ◌≡◌, ◌≢◌, refl, arith, false, Bool-cases, inl, inr, Option, none, some, length, ◌==◌,
}
use open_opticon.Crypto.{Crypto}
use open_opticon.Checkpoint.{Text}
use open_opticon.Mesh.{EquivProof, Answers, survey, view_of}
use open_opticon.Mesh.Daemon.{
  Daemon, holding, alarmed, judge_proof, latch, settle, check_peers, try_adopt,
}
use open_opticon.Mesh.Frame.{Keeps-try_adopt, record_proof_frame}

module _ (c : Crypto) (t : Text) where
  st-latch : (p : EquivProof) (had : Option EquivProof) (d : Daemon) → (latch c p had d).0.st ≡ d.st
  unfolding latch
  st-latch p none d = (record_proof_frame c p (holding p (alarmed d))).view.st
  st-latch p (some q) d = (record_proof_frame c p (alarmed d)).view.st

  st-try_adopt : (p : EquivProof) (d : Daemon) → (try_adopt c t p d).1.0.st ≡ d.st
  unfolding try_adopt
  st-try_adopt p d = elim (Bool-cases (judge_proof c t d p).0) [
    | inl y ↦ rw y (st-latch p d.proof d)
    | inr n ↦ rw n refl
  ]

  -- When a proof is posted between the reading of `checkPeers` and its locked part, the two together
  -- do what `checkPeers` does behind the post.
  pub settle_after_post :
      (net : Answers) (p : EquivProof) (d : Daemon)
      → length d.peers ≢ 0
      → settle c (survey c t d.cfg net (view_of d.st) d.peers) (try_adopt c t p d).1.0
        ≡ check_peers c t net (try_adopt c t p d).1.0
  unfolding check_peers
  settle_after_post net p d full =
      let e : Daemon = (try_adopt c t p d).1.0 in
      let k = Keeps-try_adopt c t p d in
      let same : survey c t e.cfg net (view_of e.st) e.peers
          ≡ survey c t d.cfg net (view_of d.st) d.peers =
        rw (k.cfg, k.peers, st-try_adopt p d) refl in
      let test : (length e.peers == 0) ≡ false = rw k.peers (ground arith) in rw (test, same) refl
