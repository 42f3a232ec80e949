-- ===== src/Mesh/Flood.antt =====
-- src/verifier/cmd/he-witness/main.go: the flood of proofs in a network of daemons. A push is a
-- message that is delivered at any time, in any order, or to nobody; `address` is the place of a
-- peer's URL among the daemons.
use open_opticon.Common.{
  ℕ, zero, suc, ◌+◌, ◌≡◌, refl, ap, arith, Bool-cases, inl, inr, Option, none, some, List, [], ◌∷◌,
  ◌++◌, map, length, length-append,
}
use open_opticon.Crypto.{Crypto}
use open_opticon.Checkpoint.{Text}
use open_opticon.Mesh.{Peer, EquivProof}
use open_opticon.Mesh.Daemon.{
  Daemon, Pushes, push_all, holding, alarmed, judge_proof, latch, try_adopt,
}
use open_opticon.Mesh.Frame.{record_proof_frame}

pub record Network : Type 0 where
  pub nodes : List Daemon
  pub wire : List (ℕ × EquivProof)

-- The daemon at a place adopts or rejects a proof; there may be none.
unfoldable pub receive : Crypto → Text → ℕ → EquivProof → List Daemon → List Daemon × Pushes
receive c t j p [] = ([], [])
receive c t zero p (d ∷ nodes) = let got = (try_adopt c t p d).1 in (got.0 ∷ nodes, got.1)
receive c t (suc j) p (d ∷ nodes) = let got = receive c t j p nodes in (d ∷ got.0, got.1)

abbrev pub posts : (Peer → ℕ) → Pushes → List (ℕ × EquivProof)
posts address sent = map (λ m. (address m.0, m.1)) sent

-- A message is taken from anywhere on the wire, and what its receiver pushes is put there.
unfoldable pub deliver :
    Crypto → Text → (Peer → ℕ) → List Daemon → ℕ × EquivProof → List (ℕ × EquivProof) → Network
unfolding receive
deliver c t address nodes m others =
    let got = receive c t m.0 m.1 nodes in
    record { nodes = got.0; wire = others ++ posts address got.1 }

-- A run of deliveries, with their number.
pub data Deliveries (c : Crypto) (t : Text) (address : Peer → ℕ) (n : Network)
    : ℕ → Network → Type 0 where
  quiet : Deliveries c t address n 0 n
  delivery :
      {k : ℕ} (nodes : List Daemon) (before after : List (ℕ × EquivProof)) (m : ℕ × EquivProof)
      → Deliveries c t address n k (record { nodes = nodes; wire = before ++ m ∷ after })
      → Deliveries c t address n (suc k) (deliver c t address nodes m (before ++ after))

-- What a daemon may still push: to each peer, until it holds a proof.
unfoldable pub credit : Option EquivProof → List Peer → ℕ
credit none peers = length peers
credit (some p) peers = 0

unfoldable pub credits : List Daemon → ℕ
unfolding credit
credits [] = 0
credits (d ∷ nodes) = credit d.proof d.peers + credits nodes

-- The messages that can still be delivered.
unfoldable pub pending : Network → ℕ
unfolding credits
pending n = length n.wire + credits n.nodes

length-map {ℓ κ} :
    {A : Type ℓ} {B : Type κ} (f : A → B) (xs : List A) → length (map f xs) ≡ length xs
length-map f [] = refl
length-map f (x ∷ xs) = ap suc (length-map f xs)

module _ (c : Crypto) (t : Text) where
  credit-latch :
      (p : EquivProof) (had : Option EquivProof) (d : Daemon)
      → d.proof ≡ had
      → length (latch c p had d).1 + credit (latch c p had d).0.proof (latch c p had d).0.peers
        ≡ credit had d.peers
  unfolding latch credit
  credit-latch p none d h =
      let f = record_proof_frame c p (holding p (alarmed d)) in
      let l : length (push_all d.peers p) ≡ length d.peers = length-map (λ q. (q, p)) d.peers in
      rw f.proof (omega arith)
  credit-latch p (some q) d h =
      let f = record_proof_frame c p (alarmed d) in rw (f.proof, h) (omega arith)

  -- An adoption spends what it pushes.
  credit-try_adopt :
      (p : EquivProof) (d : Daemon)
      → length (try_adopt c t p d).1.1
          + credit (try_adopt c t p d).1.0.proof (try_adopt c t p d).1.0.peers
        ≡ credit d.proof d.peers
  unfolding try_adopt
  credit-try_adopt p d = elim (Bool-cases (judge_proof c t d p).0) [
    | inl y ↦ rw y (credit-latch p d.proof d refl)
    | inr n ↦ rw n (omega arith)
  ]

  credits-receive :
      (j : ℕ) (p : EquivProof) (nodes : List Daemon)
      → length (receive c t j p nodes).1 + credits (receive c t j p nodes).0 ≡ credits nodes
  unfolding receive credits
  credits-receive j p [] = omega arith
  credits-receive zero p (d ∷ nodes) = omega (arith, credit-try_adopt p d)
  credits-receive (suc j) p (d ∷ nodes) = omega (arith, credits-receive j p nodes)

  -- Every run of deliveries ends: their number is at most the number of messages on the wire and of
  -- the peers of the daemons that hold no proof at its start, and each one leaves one fewer.
  pub flood_terminates :
      (address : Peer → ℕ) {n e : Network} {k : ℕ}
      → Deliveries c t address n k e
      → k + pending e ≡ pending n
  unfolding deliver pending
  flood_terminates address quiet = omega arith
  flood_terminates address (delivery {k} nodes before after m r) =
      let ih = flood_terminates address r in
      let sent = (receive c t m.0 m.1 nodes).1 in
      let a = length-append before (m ∷ after) in
      let b = length-append before after in
      let d = length-append (before ++ after) (posts address sent) in
      let e : length (posts address sent) ≡ length sent =
        length-map (λ x. (address x.0, x.1)) sent in
      omega (arith, credits-receive m.0 m.1 nodes)
