-- ===== src/Mesh/Invariant.antt =====
-- src/verifier/cmd/he-witness/main.go: the proofs that a daemon holds and pushes, in any interleaving.
use open_opticon.Common.{
  ◌≡◌, refl, sym, ap, arith, Bool, true, ◌||◌, Bool-cases, inl, inr, Option, none, some, List, [],
  ◌∷◌, ◌++◌, append-nil, length, ◌==◌,
}
use open_opticon.Common.Results.{Result, ok, err}
use open_opticon.Crypto.{Crypto}
use open_opticon.Checkpoint.{Text}
use open_opticon.Witness.{WitnessState, PollResult, refused, accepted, poll}
use open_opticon.Mesh.{Peer, EquivProof, Answers, Survey, survey, view_of}
use open_opticon.Mesh.Daemon.{
  Daemon, holding, alarmed, told, has_proof, Pushes, fresh_proof, install, settle, check_peers,
  once_polled, once, judge_proof, latch, try_adopt, pull_loop, pull_peer_proofs,
}
use open_opticon.Mesh.Frame.{fresh_proof-eq-some, pull_one_elim}
use open_opticon.Mesh.Divergence.{survey-IsDivergent}
use open_opticon.Mesh.Steps.{Action, tick_once, tick_check, tick_pull, posted, Reach, here, next}
use open_opticon.Mesh.Held.{IsFresh, IsSound, IsSound-same, IsSound-first, IsSound-more, flood}

module _ (c : Crypto) where
  IsSound-latch :
      {sent : Pushes} (p : EquivProof) (had : Option EquivProof) (d : Daemon)
      → d.proof ≡ had
      → IsSound c d sent
      → IsSound c (latch c p had d).0 (sent ++ (latch c p had d).1)
  unfolding latch
  IsSound-latch p none d h s =
      IsSound-first c (holding p (alarmed d)) p h refl refl refl refl refl s
  IsSound-latch p (some q) d h s =
      IsSound-more c (alarmed d) p q h
        (IsSound-same c (alarmed d) refl refl refl refl (λ x. refl) s)

  IsSound-none : {d : Daemon} {sent : Pushes} → IsSound c d sent → IsSound c d (sent ++ [])
  IsSound-none {d} {sent} s = rw (append-nil sent) s

  IsSound-try_adopt :
      (t : Text) {sent : Pushes} (p : EquivProof) (d : Daemon)
      → IsSound c d sent
      → IsSound c (try_adopt c t p d).1.0 (sent ++ (try_adopt c t p d).1.1)
  unfolding try_adopt
  IsSound-try_adopt t p d s = elim (Bool-cases (judge_proof c t d p).0) [
    | inl y ↦ rw y (IsSound-latch p d.proof d refl s)
    | inr n ↦ rw n (IsSound-none s)
  ]

  IsSound-pull_loop :
      (t : Text) (net : Answers) {sent : Pushes} (peers : List Peer) (d : Daemon)
      → IsSound c d sent
      → IsSound c (pull_loop c t net peers d).0 (sent ++ (pull_loop c t net peers d).1)
  unfolding pull_loop
  IsSound-pull_loop t net [] d s = IsSound-none s
  IsSound-pull_loop t net {sent} (q ∷ peers) d s =
      pull_one_elim c t d (λ r. IsSound c r.0 (sent ++ r.1)) (λ p. IsSound-try_adopt t p d s)
        (net.proof q) (pull_loop c t net peers d) (IsSound-pull_loop t net peers d s)

  IsSound-pull_peer_proofs :
      (t : Text) (net : Answers) {sent : Pushes} (d : Daemon)
      → IsSound c d sent
      → IsSound c (pull_peer_proofs c t net d).0 (sent ++ (pull_peer_proofs c t net d).1)
  unfolding pull_peer_proofs
  IsSound-pull_peer_proofs t net d s =
      elim (Bool-cases (has_proof d.proof || length d.peers == 0)) [
        | inl y ↦ rw y (IsSound-none s)
        | inr n ↦ rw n (IsSound-pull_loop t net d.peers d s)
      ]

  IsSound-once_polled :
      {sent : Pushes} (saved : Bool) (r : Result PollResult × WitnessState) (d : Daemon)
      → IsSound c d sent
      → IsSound c (once_polled saved r d) sent
  unfolding once_polled
  IsSound-once_polled saved (err e, st) d s = IsSound-same c _ refl refl refl refl (λ h. h) s
  IsSound-once_polled saved (ok (refused why), st) d s =
      IsSound-same c _ refl refl refl refl (λ h. h) s
  IsSound-once_polled saved (ok (accepted reason body cosig), st) d s =
      IsSound-same c _ refl refl refl refl (λ h. h) s

  IsSound-told :
      {sent : Pushes} (v : Survey) (d : Daemon) → IsSound c d sent → IsSound c (told v d) sent
  IsSound-told v d s = elim (Bool-cases v.any_equiv) [
    | inl y ↦ rw y (IsSound-same c _ refl refl refl refl (λ h. refl) s)
    | inr n ↦ rw n (IsSound-same c _ refl refl refl refl (λ h. h) s)
  ]

  -- What is assembled is the first proof, on an alarm.
  IsSound-install :
      {sent : Pushes} (fresh : Option EquivProof) (d : Daemon)
      → ((p : EquivProof) → fresh ≡ some p → (d.proof ≡ none) × (d.equivocation ≡ true))
      → IsSound c d sent
      → IsSound c (install c fresh d).0 (sent ++ (install c fresh d).1)
  unfolding install
  IsSound-install none d f s = IsSound-none s
  IsSound-install (some p) d f s =
      let (n, a) = f p refl in IsSound-first c (holding p d) p n refl refl refl refl a s

  IsSound-settle :
      (t : Text) (net : Answers) {sent : Pushes} (d : Daemon)
      → IsSound c d sent
      → IsSound c
          (settle c (survey c t d.cfg net (view_of d.st) d.peers) d).0
          (sent ++ (settle c (survey c t d.cfg net (view_of d.st) d.peers) d).1)
  unfolding settle
  IsSound-settle t net d s =
      let v = survey c t d.cfg net (view_of d.st) d.peers in
      IsSound-install (fresh_proof v.proof_peer d.proof d.latest) (told v d)
        (λ p h.
          (let (n, side, m, l, own) = fresh_proof-eq-some v.proof_peer d.proof d.latest p h in
            let raised = (survey-IsDivergent c t d.cfg net (view_of d.st) d.peers p.b side).1 in
            rw raised (n, refl)))
        (IsSound-told v d s)

  IsSound-check_peers :
      (t : Text) (net : Answers) {sent : Pushes} (d : Daemon)
      → IsSound c d sent
      → IsSound c (check_peers c t net d).0 (sent ++ (check_peers c t net d).1)
  unfolding check_peers
  IsSound-check_peers t net d s = elim (Bool-cases (length d.peers == 0)) [
    | inl y ↦ rw y (IsSound-none s)
    | inr n ↦ rw n (IsSound-settle t net d s)
  ]

  IsSound-step :
      (t : Text) {d e : Daemon} {sent now : Pushes}
      → Action c t d e now
      → IsSound c d sent
      → IsSound c e (sent ++ now)
  unfolding once
  IsSound-step t {d} (tick_once w saved) s =
      IsSound-none (IsSound-once_polled saved (poll c t d.cfg w d.st) d s)
  IsSound-step t {d} (tick_check net) s = IsSound-check_peers t net d s
  IsSound-step t {d} (tick_pull net) s = IsSound-pull_peer_proofs t net d s
  IsSound-step t {d} (posted p) s = IsSound-try_adopt t p d s

  IsSound-fresh : {d : Daemon} → IsFresh d → IsSound c d []
  IsSound-fresh {d} f = record {
    alarm = λ p h. absurd (let n = f.proof in ground (arith, n, h));
    flooded = sym (ap (flood d.peers) f.proof);
    first_held = rw f.proofs (sym f.proof);
    keys = rw f.proofs f.seen_proof;
    distinct = rw f.seen_proof tt;
    forks = rw f.proofs tt;
    bounded = rw f.proofs (omega arith);
  }

  -- In every interleaving of ticks and posted proofs from the start of a daemon: a daemon that holds a
  -- proof has raised the alarm, has pushed that proof exactly once to each peer and nothing else, and
  -- one without a proof has pushed nothing; its forensic set starts with that proof, has at most 64
  -- proofs, and no two of them pair the same two checkpoints, on whichever side each stands.
  pub daemon-IsSound :
      (t : Text) {d e : Daemon} {sent : Pushes} → IsFresh d → Reach c t d e sent → IsSound c e sent
  daemon-IsSound t f here = IsSound-fresh f
  daemon-IsSound t f (next r s) = IsSound-step t s (daemon-IsSound t f r)
