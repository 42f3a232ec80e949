-- ===== src/Mesh/Held.antt =====
-- src/verifier/cmd/he-witness/main.go: the proofs that a daemon holds, and how recording one changes
-- them.
use open_opticon.Common.{
  ◌≡◌, ◌≢◌, ◌⊎◌, ◌≤◌, ◌<◌, refl, sym, ap, subst, ◌∙◌, arith, true, false, not, ◌||◌, Bool-cases,
  inl, inr, Option, none, some, List, [], ◌∷◌, ◌++◌, append-nil, map, get_elem?, length,
  length-append, ltb, All,
}
use open_opticon.Common.Bytes.{Bytes, bytes_eq, bytes_eq_iff}
use open_opticon.Hex.{hex_encode}
use open_opticon.Crypto.{Crypto}
use open_opticon.Checkpoint.Witnesses.{DistinctNames, DistinctNames-append}
use open_opticon.Mesh.{Peer, EquivProof}
use open_opticon.Mesh.Daemon.{
  Daemon, Pushes, max_retained_proofs, bars, string_gt, has_key, proof_key, record_proof, push_all,
}

-- What a daemon that holds this proof has pushed: it, once, to each of its peers.
abbrev pub flood : List Peer → Option EquivProof → Pushes
flood peers none = []
flood peers (some p) = push_all peers p

-- Two proofs pair the same two checkpoints, on whichever side each stands.
abbrev pub SameFork : EquivProof → EquivProof → Type 0
SameFork p q =
    ((p.a.checkpoint_body ≡ q.a.checkpoint_body) × (p.b.checkpoint_body ≡ q.b.checkpoint_body))
    ⊎ ((p.a.checkpoint_body ≡ q.b.checkpoint_body) × (p.b.checkpoint_body ≡ q.a.checkpoint_body))

-- No two of the proofs are of the same fork.
abbrev pub AreForks : List EquivProof → Type 0
AreForks [] = Unit {0}
AreForks (p ∷ proofs) = All (λ q. ¬ SameFork q p) proofs × AreForks proofs

-- The daemon, with the proofs that it has pushed so far.
pub record IsSound (c : Crypto) (d : Daemon) (sent : Pushes) : Type 0 where
  pub alarm : (p : EquivProof) → d.proof ≡ some p → d.equivocation ≡ true
  pub flooded : sent ≡ flood d.peers d.proof
  pub first_held : get_elem? d.proofs 0 ≡ d.proof
  pub keys : d.seen_proof ≡ map (proof_key c) d.proofs
  pub distinct : DistinctNames d.seen_proof
  pub forks : AreForks d.proofs
  pub bounded : length d.proofs ≤ max_retained_proofs

-- A daemon that has just been started.
pub record IsFresh (d : Daemon) : Type 0 where
  pub proof : d.proof ≡ none
  pub proofs : d.proofs ≡ []
  pub seen_proof : d.seen_proof ≡ []

gt_asym : (a b : Bytes) → string_gt a b ≡ true → string_gt b a ≡ false
unfolding string_gt
gt_asym [] b h = cc
gt_asym (x ∷ a) [] h = refl
gt_asym (x ∷ a) (y ∷ b) h = ground (arith, gt_asym a b)

gt_total : (a b : Bytes) → string_gt a b ≡ false → string_gt b a ≡ false → a ≡ b
unfolding string_gt
gt_total [] [] h k = refl
gt_total [] (y ∷ b) h k = cc
gt_total (x ∷ a) [] h k = cc
gt_total (x ∷ a) (y ∷ b) h k =
    let first : x ≡ y = ground arith in let e = gt_total a b (ground arith) (ground arith) in cc

sides : {a b : Bytes} → a ≡ b → b ++ bars ++ a ≡ a ++ bars ++ b
sides e = cc e

has_key-All : (k : Bytes) (seen : List Bytes) → has_key k seen ≡ false → All (λ x. k ≢ x) seen
unfolding has_key
has_key-All k [] h = tt
has_key-All k (x ∷ seen) h =
    let n : bytes_eq x k ≡ false = ground arith in
    let r : has_key k seen ≡ false = ground arith in
    (λ e. let y = (bytes_eq_iff x k).1 (sym e) in ground arith, has_key-All k seen r)

pub map-append {ℓ κ} :
    {A : Type ℓ} {B : Type κ} (f : A → B) (xs ys : List A) → map f (xs ++ ys) ≡ map f xs ++ map f ys
map-append f [] ys = refl
map-append f (x ∷ xs) ys = ap (λ r. f x ∷ r) (map-append f xs ys)

first-append {ℓ} :
    {A : Type ℓ} (xs : List A) (a b : A)
    → get_elem? xs 0 ≡ some a
    → get_elem? (xs ++ b ∷ []) 0 ≡ some a
first-append [] a b h = cc
first-append (x ∷ xs) a b h = h

first-none {ℓ} : {A : Type ℓ} (xs : List A) → get_elem? xs 0 ≡ none → xs ≡ []
first-none [] h = refl
first-none (x ∷ xs) h = cc

module _ (c : Crypto) where
  key_swapped : (p : EquivProof) → proof_key c (record { a = p.b; b = p.a }) ≡ proof_key c p
  unfolding proof_key
  key_swapped p = elim (Bool-cases (string_gt p.a.checkpoint_body p.b.checkpoint_body)) [
    | inl y ↦ rw (y, gt_asym p.a.checkpoint_body p.b.checkpoint_body y) refl
    | inr n ↦ elim (Bool-cases (string_gt p.b.checkpoint_body p.a.checkpoint_body)) [
      | inl y ↦ rw (n, y) refl
      | inr m ↦
          let e = gt_total p.a.checkpoint_body p.b.checkpoint_body n m in
          rw (n, m) (ap (λ x. hex_encode (c.sha256 x)) (sides e))
    ]
  ]

  key_bodies :
      (p q : EquivProof)
      → p.a.checkpoint_body ≡ q.a.checkpoint_body
      → p.b.checkpoint_body ≡ q.b.checkpoint_body
      → proof_key c p ≡ proof_key c q
  unfolding proof_key
  key_bodies p q e f = rw (e, f) refl

  -- Proofs of one fork have one key.
  key-SameFork : (p q : EquivProof) → SameFork p q → proof_key c p ≡ proof_key c q
  key-SameFork p q (inl (e, f)) = key_bodies p q e f
  key-SameFork p q (inr (e, f)) = key_bodies p (record { a = q.b; b = q.a }) e f ∙ key_swapped q

  other_forks :
      (p : EquivProof) (proofs : List EquivProof)
      → All (λ k. k ≢ proof_key c p) (map (proof_key c) proofs)
      → All (λ q. ¬ SameFork q p) proofs
  other_forks p [] a = tt
  other_forks p (q ∷ proofs) (n, a) = (λ s. n (key-SameFork q p s), other_forks p proofs a)

  AreForks-keys :
      (proofs : List EquivProof) → DistinctNames (map (proof_key c) proofs) → AreForks proofs
  AreForks-keys [] d = tt
  AreForks-keys (p ∷ proofs) (a, d) = (other_forks p proofs a, AreForks-keys proofs d)

  -- An action that leaves the proofs alone.
  pub IsSound-same :
      {d : Daemon} {sent : Pushes} (e : Daemon)
      → e.peers ≡ d.peers
      → e.proof ≡ d.proof
      → e.proofs ≡ d.proofs
      → e.seen_proof ≡ d.seen_proof
      → (d.equivocation ≡ true → e.equivocation ≡ true)
      → IsSound c d sent
      → IsSound c e sent
  IsSound-same e hp hf hs hk ha s = record {
    alarm = λ p h. ha (s.alarm p (sym hf ∙ h));
    flooded = rw (hp, hf) s.flooded;
    first_held = rw (hs, hf) s.first_held;
    keys = rw (hk, hs) s.keys;
    distinct = rw hk s.distinct;
    forks = rw hs s.forks;
    bounded = rw hs s.bounded;
  }

  -- The first proof is recorded.
  pub IsSound-first :
      {d : Daemon} {sent : Pushes} (e : Daemon) (p : EquivProof)
      → d.proof ≡ none
      → e.peers ≡ d.peers
      → e.proof ≡ some p
      → e.proofs ≡ d.proofs
      → e.seen_proof ≡ d.seen_proof
      → e.equivocation ≡ true
      → IsSound c d sent
      → IsSound c (record_proof c p e) (sent ++ push_all d.peers p)
  unfolding record_proof has_key
  IsSound-first {d} {sent} e p n hp hf hs hk ha s =
      let none_held : e.proofs ≡ [] = hs ∙ first-none d.proofs (s.first_held ∙ n) in
      let none_seen : e.seen_proof ≡ [] =
        hk ∙ s.keys ∙ ap (map (proof_key c)) (first-none d.proofs (s.first_held ∙ n)) in
      let none_sent : sent ≡ [] = s.flooded ∙ ap (flood d.peers) n in
      rw (none_held, none_seen, none_sent)
        (record {
          alarm = λ q h. ha;
          flooded = rw (hp, hf) refl;
          first_held = sym hf;
          keys = refl;
          distinct = (tt, tt);
          forks = (tt, tt);
          bounded = omega arith;
        })

  -- A further proof is recorded, if it is new and there is room.
  pub IsSound-more :
      {sent : Pushes} (e : Daemon) (p q : EquivProof)
      → e.proof ≡ some q
      → IsSound c e sent
      → IsSound c (record_proof c p e) (sent ++ [])
  unfolding record_proof
  IsSound-more {sent} e p q hq s =
      elim (Bool-cases
        (has_key (proof_key c p) e.seen_proof || not (ltb (length e.proofs) max_retained_proofs))) [
          | inl y ↦ rw (y, append-nil sent) s
          | inr n ↦
              let new : has_key (proof_key c p) e.seen_proof ≡ false = ground arith in
              let room : length e.proofs < 64 = ground arith in
              let b = s.bounded in
              let l = length-append e.proofs (p ∷ []) in
              let held : get_elem? e.proofs 0 ≡ some q = s.first_held ∙ hq in
              let keys : e.seen_proof ++ proof_key c p ∷ []
                  ≡ map (proof_key c) (e.proofs ++ p ∷ []) =
                ap (λ r. r ++ proof_key c p ∷ []) s.keys
                ∙ sym (map-append (proof_key c) e.proofs (p ∷ [])) in
              let distinct =
                DistinctNames-append e.seen_proof (proof_key c p)
                  (has_key-All (proof_key c p) e.seen_proof new) s.distinct in
              rw (n, append-nil sent)
                (record {
                  alarm = s.alarm;
                  flooded = s.flooded;
                  first_held = first-append e.proofs q p held ∙ sym hq;
                  keys = keys;
                  distinct = distinct;
                  forks = AreForks-keys (e.proofs ++ p ∷ []) (subst DistinctNames keys distinct);
                  bounded = omega arith;
                })
        ]
