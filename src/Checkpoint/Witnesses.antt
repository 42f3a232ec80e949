-- ===== src/Checkpoint/Witnesses.antt =====
-- src/verifier/transparency.go: the witnesses that `VerifyCheckpointWitnesses` counts.
use open_opticon.Common.{
  ℕ, suc, ◌≡◌, ◌≢◌, refl, sym, arith, true, false, ◌&&◌, ◌||◌, some, List, [], ◌∷◌, ◌++◌,
  Bool-cases, inl, inr, length, ◌==◌, get_elem?, All, All-append,
}
use open_opticon.Common.Bytes.{Bytes, bytes_eq, bytes_eq_iff}
use open_opticon.Common.Results.{Result, ok, err}
use open_opticon.Crypto.{Crypto, verify_sig}
use open_opticon.Quorum.{Prover}
use open_opticon.Quorum.Votes.{In}
use open_opticon.Checkpoint.{
  Cosignature, match_witness, has_witness, add_witness, collect_witnesses,
  verify_checkpoint_witnesses, succeeds,
}

pub succeeds-eq_ok : (r : Result (Unit {0})) → succeeds r ≡ true → r ≡ ok tt
succeeds-eq_ok (ok u) h = refl
succeeds-eq_ok (err e) h = cc

-- A name of the result: an enrolled witness, and one of the cosignatures is valid under its key.
pub record IsWitness (c : Crypto) (cp_body : Bytes) (cosigs : List Cosignature)
    (enrolled : List Prover) (name : Bytes) : Type 0 where
  pub witness : Prover
  pub cosig : Cosignature
  pub is_enrolled : In witness enrolled
  pub given : In cosig cosigs
  pub named : name ≡ witness.name
  pub not_empty : length name ≢ 0
  pub key_x : cosig.pub_x ≡ witness.pub_x
  pub key_y : cosig.pub_y ≡ witness.pub_y
  pub signature : verify_sig c cp_body cosig.sig cosig.pub_x cosig.pub_y ≡ ok tt

abbrev pub DistinctNames : List Bytes → Type 0
DistinctNames [] = Unit {0}
DistinctNames (n ∷ names) = All (λ m. m ≢ n) names × DistinctNames names

abbrev Matched : Cosignature → List Prover → Bytes → Type 0
Matched s enrolled name =
    (w : Prover) × In w enrolled × (name ≡ w.name) × (s.pub_x ≡ w.pub_x) × (s.pub_y ≡ w.pub_y)

pub DistinctNames-append :
    (seen : List Bytes) (k : Bytes)
    → All (λ x. k ≢ x) seen
    → DistinctNames seen
    → DistinctNames (seen ++ k ∷ [])
DistinctNames-append [] k a d = (tt, tt)
DistinctNames-append (x ∷ seen) k (n, a) (f, d) =
    (All-append (λ m. m ≢ x) seen (k ∷ []) f (n, tt), DistinctNames-append seen k a d)

pub not_taken :
    (name : Bytes) (taken : List Bytes) → All (λ m. m ≢ name) taken → All (λ m. name ≢ m) taken
not_taken name [] a = tt
not_taken name (m ∷ taken) (n, a) = (λ e. n (sym e), not_taken name taken a)

match_witness_found :
    (s : Cosignature) (enrolled : List Prover)
    → length (match_witness s enrolled) ≢ 0
    → Matched s enrolled (match_witness s enrolled)
unfolding match_witness
match_witness_found s [] h = absurd (h refl)
match_witness_found s (w ∷ enrolled) h =
    elim (Bool-cases
      (bytes_eq w.name s.witness && bytes_eq s.pub_x w.pub_x && bytes_eq s.pub_y w.pub_y)) [
        | inl e ↦
            let x : bytes_eq s.pub_x w.pub_x ≡ true = ground arith in
            let y : bytes_eq s.pub_y w.pub_y ≡ true = ground arith in
            rw e (
              w,
              (0, refl),
              refl,
              (bytes_eq_iff s.pub_x w.pub_x).0 x,
              (bytes_eq_iff s.pub_y w.pub_y).0 y,
            )
        | inr e ↦
            let h' = rw e at h in
            let f = match_witness_found s enrolled h' in
            rw e (f.0, (suc f.1.0, f.1.1), f.2, f.3, f.4)
      ]

has_witness-false :
    (name : Bytes) (names : List Bytes) → has_witness name names ≡ false → All (λ m. m ≢ name) names
unfolding has_witness
has_witness-false name [] h = tt
has_witness-false name (n ∷ names) h =
    (λ e. ground (arith, (bytes_eq_iff n name).1 e), has_witness-false name names (ground arith))

module _ (c : Crypto) (cp_body : Bytes) (cosigs : List Cosignature) (enrolled : List Prover) where
  abbrev Counted : List Bytes → Type 0
  Counted names = All (IsWitness c cp_body cosigs enrolled) names × DistinctNames names

  add_witness_lem :
      (s : Cosignature) (names : List Bytes)
      → In s cosigs
      → Counted names
      → Counted (add_witness c cp_body s (match_witness s enrolled) names)
  unfolding add_witness
  add_witness_lem s names i k =
      let name : Bytes = match_witness s enrolled in
      elim (Bool-cases (length name == 0 || has_witness name names)) [
        | inl e ↦ rw e k
        | inr e ↦ elim (Bool-cases (succeeds (verify_sig c cp_body s.sig s.pub_x s.pub_y))) [
          | inr n ↦ rw (e, n) k
          | inl y ↦
              let ne : length name ≢ 0 = ground arith in
              let new : has_witness name names ≡ false = ground arith in
              let f = match_witness_found s enrolled ne in
              let w : IsWitness c cp_body cosigs enrolled name = record {
                witness = f.0;
                cosig = s;
                is_enrolled = f.1;
                given = i;
                named = f.2;
                not_empty = ne;
                key_x = f.3;
                key_y = f.4;
                signature = succeeds-eq_ok (verify_sig c cp_body s.sig s.pub_x s.pub_y) y;
              } in
              let apart = not_taken name names (has_witness-false name names new) in
              rw (e, y)
                (
                  All-append (IsWitness c cp_body cosigs enrolled) names (name ∷ []) k.0 (w, tt),
                  DistinctNames-append names name apart k.1,
                )
        ]
      ]

  collect_witnesses_lem :
      (rest : List Cosignature) (names : List Bytes)
      → ((i : ℕ) (s : Cosignature) → get_elem? rest i ≡ some s → In s cosigs)
      → Counted names
      → Counted (collect_witnesses c cp_body enrolled rest names)
  unfolding collect_witnesses
  collect_witnesses_lem [] names i k = k
  collect_witnesses_lem (s ∷ rest) names i k =
      collect_witnesses_lem rest _ (λ j. i (suc j)) (add_witness_lem s names (i 0 s refl) k)

  -- The names that count for a checkpoint are pairwise distinct, and each is that of an enrolled
  -- witness under whose key one of the cosignatures verifies over the body.
  pub verify_checkpoint_witnesses_lem :
      All
        (IsWitness c cp_body cosigs enrolled)
        (verify_checkpoint_witnesses c cp_body cosigs enrolled)
      × DistinctNames (verify_checkpoint_witnesses c cp_body cosigs enrolled)
  unfolding verify_checkpoint_witnesses
  verify_checkpoint_witnesses_lem = collect_witnesses_lem cosigs [] (λ i s at. (i, at)) (tt, tt)
