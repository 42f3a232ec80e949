-- ===== src/Mesh/Frame.antt =====
-- src/verifier/cmd/he-witness/main.go: what the actions of the daemon leave alone, and that an alarm
-- and a proof stay.
use open_opticon.Common.{
  ◌≡◌, refl, sym, ap, ◌∙◌, arith, Bool, true, false, not, ◌||◌, Bool-cases, inl, inr, Option, none,
  some, List, [], ◌∷◌, length, ltb, ◌==◌, if◌then◌else◌,
}
use open_opticon.Common.Results.{Result, ok, err}
use open_opticon.Crypto.{Crypto}
use open_opticon.Checkpoint.{Text}
use open_opticon.Witness.{LogWorld, WitnessState, PollResult, refused, accepted, poll}
use open_opticon.Mesh.{Peer, EquivCkpt, EquivProof, Answers, Survey, survey, view_of}
use open_opticon.Mesh.Daemon.{
  Daemon, Latest, own_side, holding, alarmed, told, has_proof, Pushes, max_retained_proofs, has_key,
  proof_key, record_proof, fresh_proof, install, settle, check_peers, once_polled, once,
  judge_proof, latch, try_adopt, pull_one, pull_loop, pull_peer_proofs,
}

if-elim {ℓ κ} :
    {A : Type ℓ} (P : A → Type κ) (b : Bool) {x y : A} → P x → P y → P (if b then x else y)
if-elim P true p q = p
if-elim P false p q = q

-- The configuration stays, an alarm stays, and a proof stays.
pub record Keeps (d e : Daemon) : Type 0 where
  pub cfg : e.cfg ≡ d.cfg
  pub peers : e.peers ≡ d.peers
  pub alarm : d.equivocation ≡ true → e.equivocation ≡ true
  pub proof : (p : EquivProof) → d.proof ≡ some p → e.proof ≡ some p

-- The view and the cosignature stay as well.
pub record SameView (d e : Daemon) : Type 0 where
  pub st : e.st ≡ d.st
  pub latest : e.latest ≡ d.latest

pub Keeps-refl : (d : Daemon) → Keeps d d
Keeps-refl d = record { cfg = refl; peers = refl; alarm = λ h. h; proof = λ p h. h }

pub Keeps-trans : {d e f : Daemon} → Keeps d e → Keeps e f → Keeps d f
Keeps-trans k l = record {
  cfg = l.cfg ∙ k.cfg;
  peers = l.peers ∙ k.peers;
  alarm = λ h. l.alarm (k.alarm h);
  proof = λ p h. l.proof p (k.proof p h);
}

Keeps-once_polled :
    (saved : Bool) (r : Result PollResult × WitnessState) (d : Daemon)
    → Keeps d (once_polled saved r d)
unfolding once_polled
Keeps-once_polled saved (err e, st) d = record {
  cfg = refl;
  peers = refl;
  alarm = λ h. h;
  proof = λ p h. h;
}
Keeps-once_polled saved (ok (refused why), st) d = record {
  cfg = refl;
  peers = refl;
  alarm = λ h. h;
  proof = λ p h. h;
}
Keeps-once_polled saved (ok (accepted reason body cosig), st) d = record {
  cfg = refl;
  peers = refl;
  alarm = λ h. h;
  proof = λ p h. h;
}

-- `recordProofLocked` touches the forensic set only.
pub record SameButProofs (d e : Daemon) : Type 0 where
  pub keeps : Keeps d e
  pub view : SameView d e
  pub alarm : e.equivocation ≡ d.equivocation
  pub proof : e.proof ≡ d.proof

-- A proof is assembled when there is none, from a divergent peer and the cosigned view.
pub fresh_proof-eq-some :
    (b : Option EquivCkpt) (had : Option EquivProof) (l : Option Latest) (p : EquivProof)
    → fresh_proof b had l ≡ some p
    → (had ≡ none) × (b ≡ some p.b) × (m : Latest) × (l ≡ some m) × (p.a ≡ own_side m)
unfolding fresh_proof
fresh_proof-eq-some none had l p h = cc
fresh_proof-eq-some (some b) (some q) l p h = cc
fresh_proof-eq-some (some b) none none p h = cc
fresh_proof-eq-some (some b) none (some m) p h =
    let e : record { a = own_side m; b = b } ≡ p = ground arith in
    (refl, ap (λ q. some q.b) e, m, refl, ap (λ q. q.a) (sym e))

Keeps-told : (s : Survey) (d : Daemon) → Keeps d (told s d)
Keeps-told s d = elim (Bool-cases s.any_equiv) [
  | inl y ↦ rw y (record { cfg = refl; peers = refl; alarm = λ h. refl; proof = λ p h. h })
  | inr n ↦ rw n (record { cfg = refl; peers = refl; alarm = λ h. h; proof = λ p h. h })
]

module _ (c : Crypto) where
  pub record_proof_frame : (p : EquivProof) (d : Daemon) → SameButProofs d (record_proof c p d)
  unfolding record_proof
  record_proof_frame p d =
      elim (Bool-cases
        (has_key (proof_key c p) d.seen_proof || not (ltb (length d.proofs) max_retained_proofs))) [
          | inl y ↦ rw y (record {
            keeps = Keeps-refl d;
            view = record { st = refl; latest = refl };
            alarm = refl;
            proof = refl;
          })
          | inr n ↦ rw n (record {
            keeps = record { cfg = refl; peers = refl; alarm = λ h. h; proof = λ q h. h };
            view = record { st = refl; latest = refl };
            alarm = refl;
            proof = refl;
          })
        ]

  -- A daemon that differs in what `Keeps` allows, and then records a proof.
  Keeps-record_proof :
      {d : Daemon} (p : EquivProof) (e : Daemon) → Keeps d e → Keeps d (record_proof c p e)
  Keeps-record_proof p e k = Keeps-trans k (record_proof_frame p e).keeps

  Keeps-latch :
      (p : EquivProof) (had : Option EquivProof) (d : Daemon)
      → d.proof ≡ had
      → Keeps d (latch c p had d).0
  unfolding latch
  Keeps-latch p none d h = Keeps-record_proof p (holding p (alarmed d)) (record {
    cfg = refl;
    peers = refl;
    alarm = λ x. refl;
    proof = λ q s. absurd (ground (arith, h, s));
  })
  Keeps-latch p (some q) d h =
      Keeps-record_proof p (alarmed d)
        (record { cfg = refl; peers = refl; alarm = λ x. refl; proof = λ r s. s })

  pub Keeps-try_adopt : (t : Text) (p : EquivProof) (d : Daemon) → Keeps d (try_adopt c t p d).1.0
  unfolding try_adopt
  Keeps-try_adopt t p d = elim (Bool-cases (judge_proof c t d p).0) [
    | inl y ↦ rw y (Keeps-latch p d.proof d refl)
    | inr n ↦ rw n (Keeps-refl d)
  ]

  -- One round of `pullPeerProofs` gives what an adoption gives, or what the later rounds give.
  pub pull_one_elim {ℓ} :
      (t : Text) (d : Daemon) (P : Daemon × Pushes → Type ℓ)
      → ((p : EquivProof) → P (try_adopt c t p d).1)
      → (answer : Result EquivProof) (others : Daemon × Pushes) → P others
      → P (pull_one c t answer d others)
  unfolding pull_one
  pull_one_elim t d P f (err e) others o = o
  pull_one_elim t d P f (ok p) others o = if-elim P (try_adopt c t p d).0.0 (f p) o

  Keeps-pull_loop :
      (t : Text) (net : Answers) (peers : List Peer) (d : Daemon)
      → Keeps d (pull_loop c t net peers d).0
  unfolding pull_loop
  Keeps-pull_loop t net [] d = Keeps-refl d
  Keeps-pull_loop t net (q ∷ peers) d =
      pull_one_elim t d (λ r. Keeps d r.0) (λ p. Keeps-try_adopt t p d) (net.proof q)
        (pull_loop c t net peers d) (Keeps-pull_loop t net peers d)

  pub Keeps-pull_peer_proofs :
      (t : Text) (net : Answers) (d : Daemon) → Keeps d (pull_peer_proofs c t net d).0
  unfolding pull_peer_proofs
  Keeps-pull_peer_proofs t net d = elim (Bool-cases (has_proof d.proof || length d.peers == 0)) [
    | inl y ↦ rw y (Keeps-refl d)
    | inr n ↦ rw n (Keeps-pull_loop t net d.peers d)
  ]

  pub Keeps-once :
      (t : Text) (w : LogWorld) (saved : Bool) (d : Daemon) → Keeps d (once c t w saved d)
  unfolding once
  Keeps-once t w saved d = Keeps-once_polled saved (poll c t d.cfg w d.st) d

  Keeps-install :
      {d : Daemon} (fresh : Option EquivProof) (e : Daemon)
      → Keeps d e
      → ((p : EquivProof) → fresh ≡ some p → d.proof ≡ none)
      → Keeps d (install c fresh e).0
  unfolding install
  Keeps-install none e k f = k
  Keeps-install {d} (some p) e k f =
      let n = f p refl in
      Keeps-record_proof p (holding p e) (record {
        cfg = k.cfg;
        peers = k.peers;
        alarm = k.alarm;
        proof = λ q h. absurd (ground (arith, n, h));
      })

  Keeps-settle : (s : Survey) (d : Daemon) → Keeps d (settle c s d).0
  unfolding settle
  Keeps-settle s d =
      Keeps-install (fresh_proof s.proof_peer d.proof d.latest) (told s d) (Keeps-told s d)
        (λ p h. (fresh_proof-eq-some s.proof_peer d.proof d.latest p h).0)

  pub Keeps-check_peers :
      (t : Text) (net : Answers) (d : Daemon) → Keeps d (check_peers c t net d).0
  unfolding check_peers
  Keeps-check_peers t net d = elim (Bool-cases (length d.peers == 0)) [
    | inl y ↦ rw y (Keeps-refl d)
    | inr n ↦ rw n (Keeps-settle (survey c t d.cfg net (view_of d.st) d.peers) d)
  ]
