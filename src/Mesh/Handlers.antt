-- ===== src/Mesh/Handlers.antt =====
-- src/verifier/cmd/he-witness/main.go: the HTTP handlers of the daemon, as the status and the body of
-- the answer. The method of the request and the decoded proof are arguments.
use open_opticon.Common.{
  ℕ, Bool, true, false, not, ◌&&◌, Option, none, some, List, [], length, ◌==◌, if◌then◌else◌,
}
use open_opticon.Common.Bytes.{Bytes}
use open_opticon.Common.Results.{Error, Result, ok, err}
use open_opticon.Hex.{hex_encode}
use open_opticon.Crypto.{Crypto}
use open_opticon.Checkpoint.{Text}
use open_opticon.Mesh.{PeerCosigResp, EquivProof, PeerStatus}
use open_opticon.Mesh.Daemon.{Daemon, Latest, LastError, Pushes, Adoption, try_adopt}

-- The body of `/health`; `mesh` holds `peers` and `equivocation_detected`.
pub record Health : Type 0 where
  pub witness : Bytes
  pub ok : Bool
  pub size : ℕ
  pub root : Bytes
  pub last_error : LastError
  pub mesh : Option (List (Bytes × PeerStatus) × Bool)

-- `handleHealth`.
unfoldable pub handle_health : Daemon → ℕ × Health
handle_health d =
    let healthy = d.health_ok && not d.equivocation in
    (
      if healthy then 200 else 503,
      record {
        witness = d.cfg.name;
        ok = healthy;
        size = d.st.size;
        root = d.st.root;
        last_error = d.last_err;
        mesh = if length d.peers == 0 then none else some (d.peer_status, d.equivocation);
      },
    )

unfoldable pub published : Latest → PeerCosigResp
published l = record {
  witness = l.cosignature.witness;
  witness_pub_x = hex_encode l.cosignature.pub_x;
  witness_pub_y = hex_encode l.cosignature.pub_y;
  cosignature = hex_encode l.cosignature.sig;
  checkpoint_body = l.body;
}

unfoldable pub publish : Option Latest → ℕ × Option PeerCosigResp
unfolding published
publish none = (503, none)
publish (some l) = (200, some (published l))

-- `handleCosignature`.
unfoldable pub handle_cosignature : Daemon → ℕ × Option PeerCosigResp
unfolding publish
handle_cosignature d = publish d.latest

-- `handleEquivocationProof`.
unfoldable pub handle_equivocation_proof : Daemon → ℕ × Option EquivProof
handle_equivocation_proof d = elim d.proof [ none ↦ (404, none) | some p ↦ (200, some p) ]

-- `handleEquivocationProofs`: the status, the count and the proofs.
unfoldable pub handle_equivocation_proofs : Daemon → ℕ × ℕ × List EquivProof
handle_equivocation_proofs d = (200, length d.proofs, d.proofs)

-- What the intake answers.
pub data Intake : Type 0 where
  not_a_post : Intake
  bad_proof : Error → Intake
  answered : Adoption → Intake

-- `handleEquivocationIntake`.
unfoldable pub handle_equivocation_intake :
    Crypto → Text → Bool → Result EquivProof → Daemon → (ℕ × Intake) × (Daemon × Pushes)
handle_equivocation_intake c t false decoded d = ((405, not_a_post), (d, []))
handle_equivocation_intake c t true (err e) d = ((400, bad_proof e), (d, []))
handle_equivocation_intake c t true (ok p) d =
    let got = try_adopt c t p d in ((if got.0.0 then 200 else 400, answered got.0.1), got.1)
