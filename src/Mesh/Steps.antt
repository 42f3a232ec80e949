-- ===== src/Mesh/Steps.antt =====
-- src/verifier/cmd/he-witness/main.go: a daemon in any interleaving of its ticks and of the proofs
-- that are posted to it, whatever the log, the peers and the senders of proofs answer.
use open_opticon.Common.{◌≡◌, refl, arith, Bool, true, false, not, ◌&&◌, [], ◌++◌}
use open_opticon.Crypto.{Crypto}
use open_opticon.Checkpoint.{Text}
use open_opticon.Witness.{LogWorld}
use open_opticon.Mesh.{EquivProof, Answers}
use open_opticon.Mesh.Daemon.{Daemon, Pushes, check_peers, once, try_adopt, pull_peer_proofs}
use open_opticon.Mesh.Handlers.{handle_health}
use open_opticon.Mesh.Frame.{
  Keeps, Keeps-refl, Keeps-trans, Keeps-once, Keeps-check_peers, Keeps-try_adopt,
  Keeps-pull_peer_proofs,
}

-- An action of the daemon, with the proofs that it pushes.
pub data Action (c : Crypto) (t : Text) (d : Daemon) : Daemon → Pushes → Type 0 where
  tick_once : (w : LogWorld) (saved : Bool) → Action c t d (once c t w saved d) []
  tick_check : (net : Answers) → Action c t d (check_peers c t net d).0 (check_peers c t net d).1
  tick_pull :
      (net : Answers) → Action c t d (pull_peer_proofs c t net d).0 (pull_peer_proofs c t net d).1
  posted : (p : EquivProof) → Action c t d (try_adopt c t p d).1.0 (try_adopt c t p d).1.1

-- The daemons that are reached, with all the proofs that were pushed.
pub data Reach (c : Crypto) (t : Text) (d : Daemon) : Daemon → Pushes → Type 0 where
  here : Reach c t d d []
  next :
      {e f : Daemon} {sent now : Pushes}
      → Reach c t d e sent
      → Action c t e f now
      → Reach c t d f (sent ++ now)

module _ (c : Crypto) (t : Text) where
  Action-Keeps : {d e : Daemon} {now : Pushes} → Action c t d e now → Keeps d e
  Action-Keeps {d} (tick_once w saved) = Keeps-once c t w saved d
  Action-Keeps {d} (tick_check net) = Keeps-check_peers c t net d
  Action-Keeps {d} (tick_pull net) = Keeps-pull_peer_proofs c t net d
  Action-Keeps {d} (posted p) = Keeps-try_adopt c t p d

  Reach-Keeps : {d e : Daemon} {sent : Pushes} → Reach c t d e sent → Keeps d e
  Reach-Keeps {d} here = Keeps-refl d
  Reach-Keeps (next r s) = Keeps-trans (Reach-Keeps r) (Action-Keeps s)

  -- Once a daemon has seen an equivocation, `/health` answers 503 and not ok for good, whatever it
  -- polls, checks, pulls and is sent.
  pub alarm_is_permanent :
      {d e : Daemon} {sent : Pushes}
      → d.equivocation ≡ true
      → Reach c t d e sent
      → ((handle_health e).0 ≡ 503) × ((handle_health e).1.ok ≡ false)
  unfolding handle_health
  alarm_is_permanent {d} {e} h r =
      let a = (Reach-Keeps r).alarm h in
      let n : (e.health_ok && not e.equivocation) ≡ false = ground (arith, a) in rw n (refl, refl)
