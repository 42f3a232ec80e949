-- ===== src/Mesh/Adopt.antt =====
-- src/verifier/cmd/he-witness/main.go: which proofs a daemon adopts, and that a proof that one daemon
-- assembles is adopted by the others.
use open_opticon.Common.{
  ◌≡◌, ◌↔◌, refl, sym, ap, ◌∙◌, arith, Bool, true, false, Bool-cases, inl, inr, Option, none, some,
  [], All,
}
use open_opticon.Common.Bytes.{IsByte}
use open_opticon.Common.Results.{ok}
use open_opticon.Hex.{hex_decode-hex_encode}
use open_opticon.Quorum.Votes.{In}
use open_opticon.Crypto.{Crypto}
use open_opticon.Checkpoint.{Text, Checkpoint, Signed, parse_checkpoint, verify_checkpoint_sig}
use open_opticon.Witness.{hex_root}
use open_opticon.Mesh.{Peer, EquivProof, Answers, Survey, survey, view_of, view_root, peer_side}
use open_opticon.Mesh.Daemon.{
  Daemon, Latest, Pushes, push_all, holding, alarmed, latch, own_side, fresh_proof, pinned_key,
  judge_proof, try_adopt,
}
use open_opticon.Mesh.Divergence.{IsDivergent, survey-IsDivergent}
use open_opticon.Mesh.Frame.{record_proof_frame, fresh_proof-eq-some}
use open_opticon.Mesh.Evidence.{IsEvidence, evidence→, →evidence}

-- What the daemon is after a proof was judged, and what it has pushed, by what it held before.
abbrev pub Effect : EquivProof → Bool → Option EquivProof → Daemon → Daemon × Pushes → Type 0
Effect p false had d r = r ≡ (d, [])
Effect p true none d r =
    (r.0.equivocation ≡ true) × (r.0.proof ≡ some p) × (r.1 ≡ push_all d.peers p)
Effect p true (some q) d r = (r.0.equivocation ≡ true) × (r.0.proof ≡ some q) × (r.1 ≡ [])

module _ (c : Crypto) where
  pub alarm-latch :
      (p : EquivProof) (had : Option EquivProof) (d : Daemon)
      → (latch c p had d).0.equivocation ≡ true
  unfolding latch
  alarm-latch p none d = (record_proof_frame c p (holding p (alarmed d))).alarm
  alarm-latch p (some q) d = (record_proof_frame c p (alarmed d)).alarm

  Effect-latch :
      (p : EquivProof) (had : Option EquivProof) (d : Daemon)
      → d.proof ≡ had
      → Effect p true had d (latch c p had d)
  unfolding latch
  Effect-latch p none d h =
      let f = record_proof_frame c p (holding p (alarmed d)) in (f.alarm, f.proof, refl)
  Effect-latch p (some q) d h =
      let f = record_proof_frame c p (alarmed d) in (f.alarm, f.proof ∙ h, refl)

module _ (c : Crypto) (t : Text) where
  -- A posted proof is adopted exactly when both of its sides verify under keys that the daemon has
  -- pinned for their witnesses, who may be one and the same, and show an equivocation of the watched
  -- log. Adopting it raises the alarm; a first proof is then held and pushed to each peer, and with a
  -- proof at hand that one stays and nothing is pushed. A proof that is not adopted changes nothing
  -- and is not pushed.
  pub try_adopt_lem :
      (d : Daemon) (p : EquivProof)
      → (((try_adopt c t p d).0.0 ≡ true) ↔ IsEvidence c t d p)
        × Effect p (try_adopt c t p d).0.0 d.proof d (try_adopt c t p d).1
  unfolding try_adopt
  try_adopt_lem d p = (
    (evidence→ c t d p, →evidence c t d p),
    elim (Bool-cases (judge_proof c t d p).0) [
      | inl y ↦ rw y (Effect-latch c p d.proof d refl)
      | inr n ↦ rw n refl
    ],
  )

-- The last cosignature is over the view and verifies under the daemon's own key.
pub record IsCosigned (c : Crypto) (t : Text) (d : Daemon) (l : Latest) : Type 0 where
  pub cp : Checkpoint
  pub parsed : parse_checkpoint t l.body ≡ ok cp
  pub watched : cp.origin ≡ d.cfg.origin
  pub size : cp.size ≡ d.st.size
  pub root : hex_root d.st.root ≡ ok cp.root
  pub named : l.cosignature.witness ≡ d.cfg.name
  pub signature : verify_checkpoint_sig c l.body l.cosignature.sig d.cfg.pub_x d.cfg.pub_y ≡ true
  pub sig_bytes : All IsByte l.cosignature.sig

-- The daemon `e` watches the log of `d` and pins the keys of `d` and of its peers.
pub record Trusts (e d : Daemon) : Type 0 where
  pub origin : d.cfg.origin ≡ e.cfg.origin
  pub own_key : pinned_key e d.cfg.name ≡ some (d.cfg.pub_x, d.cfg.pub_y)
  pub peer_keys : (q : Peer) → In q d.peers → pinned_key e q.name ≡ some (q.pub_x, q.pub_y)

module _ (c : Crypto) (t : Text) (net : Answers) (d : Daemon) where
  abbrev Found : Survey
  Found = survey c t d.cfg net (view_of d.st) d.peers

  assembled-IsEvidence :
      (e : Daemon) (p : EquivProof) (l : Latest) (q : Peer)
      → Trusts e d
      → IsCosigned c t d l
      → p.a ≡ own_side l
      → In q d.peers
      → IsDivergent c t d.cfg net (view_of d.st) q p.b
      → IsEvidence c t e p
  unfolding own_side peer_side view_of view_root
  assembled-IsEvidence e p l q tr own is_a at div =
      let a : Signed = record {
        body = l.body;
        sig = l.cosignature.sig;
        key_x = d.cfg.pub_x;
        key_y = d.cfg.pub_y;
      } in
      let b : Signed = record {
        body = div.response.checkpoint_body;
        sig = div.sig;
        key_x = q.pub_x;
        key_y = q.pub_y;
      } in
      let same_root : view_root (hex_root d.st.root) ≡ own.cp.root = rw own.root refl in
      let differ = div.other_root in
      record {
        signed_a = a;
        signed_b = b;
        pinned_a = rw is_a (record {
          body = refl;
          key = rw own.named tr.own_key;
          sig = hex_decode-hex_encode l.cosignature.sig own.sig_bytes;
        });
        pinned_b =
            rw div.is_side (record { body = refl; key = tr.peer_keys q at; sig = div.decoded });
        equivocation = record {
          cp_a = own.cp;
          cp_b = div.cp;
          signed_a = own.signature;
          signed_b = div.signature;
          parsed_a = own.parsed;
          parsed_b = div.parsed;
          origin = own.watched ∙ sym div.watched;
          size = own.size ∙ sym div.same_size;
          roots_differ = λ r. differ (sym r ∙ sym same_root);
        };
        watched = own.watched ∙ tr.origin;
      }

  -- A proof that `checkPeers` assembles is adopted by every daemon that watches the same log and pins
  -- the keys of this daemon and of its peers, when the last cosignature is over the present view and
  -- verifies.
  pub assembled_proof_is_adopted :
      (e : Daemon) (p : EquivProof) (l : Latest)
      → Trusts e d
      → d.latest ≡ some l
      → IsCosigned c t d l
      → fresh_proof Found.proof_peer d.proof d.latest ≡ some p
      → (try_adopt c t p e).0.0 ≡ true
  assembled_proof_is_adopted e p l tr has own h =
      let (n, side, m, l', is_a) = fresh_proof-eq-some Found.proof_peer d.proof d.latest p h in
      let same : m ≡ l = ground (arith, has, l') in
      let ((q, at, div), raised) =
        survey-IsDivergent c t d.cfg net (view_of d.st) d.peers p.b side in
      →evidence c t e p (assembled-IsEvidence e p l q tr own (is_a ∙ ap own_side same) at div)
