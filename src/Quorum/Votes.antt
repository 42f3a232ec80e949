-- ===== src/Quorum/Votes.antt =====
-- src/verifier/quorum.go: what a quorum means: votes of distinct enrolled roots that agree.
use open_opticon.Common.{
  ℕ, suc, ◌≤◌, ◌≡◌, ◌≢◌, refl, sym, ap, ◌∙◌, subst, arith, true, false, ◌&&◌, ◌||◌, Option, none,
  some, List, [], ◌∷◌, Bool-cases, Option-cases, inl, inr, length, ltb, ◌==◌, get_elem?, All,
  &&-eq-true,
}
use open_opticon.Common.Bytes.{Bytes, bytes_eq, bytes_eq_iff}
use open_opticon.Common.Results.{Result, ok, err}
use open_opticon.Hex.{hex_decode}
use open_opticon.Payload.{Predicate, EventName, event_name, alarm_tone, voice, quiet}
use open_opticon.Bundle.{VerifyResult}
use open_opticon.Quorum.{
  Prover, QuorumOptions, QuorumResult, ProverInput, match_key, match_decoded, match_key_hex,
  has_name, root_options, add_vote, vote, collect_votes, same_event, all_agree, agreement,
  quorum_core,
}

-- An element of a list.
abbrev pub In {ℓ} : {A : Type ℓ} → A → List A → Type ℓ
In x l = (i : ℕ) × (get_elem? l i ≡ some x)

-- The vote of an enrolled root: the key of one of the inputs decodes to the key of the root, and
-- the input verifies when it is pinned to this key.
pub record IsVote (q : QuorumOptions) (provers : List ProverInput) (v : Bytes × Predicate)
    : Type 0 where
  pub root : Prover
  pub input : ProverInput
  pub enrolled : In root q.roots
  pub given : In input provers
  pub named : v.0 ≡ root.name
  pub key_x : hex_decode input.pub_x_hex ≡ ok root.pub_x
  pub key_y : hex_decode input.pub_y_hex ≡ ok root.pub_y
  pub verified : (input.verify (root_options q root)).is_ok ≡ true
  pub predicate : (input.verify (root_options q root)).predicate ≡ some v.1

-- No two votes have one name.
abbrev pub Distinct : List (Bytes × Predicate) → Type 0
Distinct [] = Unit {0}
Distinct (v ∷ votes) = All (λ (w : Bytes × Predicate). w.0 ≢ v.0) votes × Distinct votes

match_key_found :
    (px py : Bytes) (roots : List Prover) (r : Prover)
    → match_key px py roots ≡ some r
    → In r roots × (px ≡ r.pub_x) × (py ≡ r.pub_y)
unfolding match_key
match_key_found px py [] r h = cc
match_key_found px py (s ∷ roots) r h =
    elim (Bool-cases (bytes_eq px s.pub_x && bytes_eq py s.pub_y)) [
      | inl e ↦
          let h' = rw e at h in
          let same : s ≡ r = cc in
          let b = &&-eq-true (bytes_eq px s.pub_x) (bytes_eq py s.pub_y) e in
          (
            (0, h'),
            (bytes_eq_iff px s.pub_x).0 b.0 ∙ ap (λ (x : Prover). x.pub_x) same,
            (bytes_eq_iff py s.pub_y).0 b.1 ∙ ap (λ (x : Prover). x.pub_y) same,
          )
      | inr e ↦
          let h' = rw e at h in
          let f = match_key_found px py roots r h' in ((suc f.0.0, f.0.1), f.1, f.2)
    ]

match_key_hex_found :
    (x y : Result Bytes) (roots : List Prover) (r : Prover)
    → match_decoded x y roots ≡ some r
    → In r roots × (x ≡ ok r.pub_x) × (y ≡ ok r.pub_y)
unfolding match_decoded
match_key_hex_found (ok px) (ok py) roots r h =
    let f = match_key_found px py roots r h in (f.0, ap ok f.1, ap ok f.2)
match_key_hex_found (ok px) (err e) roots r h = cc
match_key_hex_found (err e) y roots r h = cc

has_name-false :
    (name : Bytes) (votes : List (Bytes × Predicate))
    → has_name name votes ≡ false
    → All (λ (w : Bytes × Predicate). w.0 ≢ name) votes
unfolding has_name
has_name-false name [] h = tt
has_name-false name (v ∷ votes) h =
    (λ e. ground (arith, (bytes_eq_iff v.0 name).1 e), has_name-false name votes (ground arith))

module _ (q : QuorumOptions) (provers : List ProverInput) where
  abbrev Counted : List (Bytes × Predicate) → Type 0
  Counted votes = All (IsVote q provers) votes × Distinct votes

  add_vote_lem :
      (root : Prover) (pi : ProverInput) (r : VerifyResult) (votes : List (Bytes × Predicate))
      → In root q.roots
      → In pi provers
      → hex_decode pi.pub_x_hex ≡ ok root.pub_x
      → hex_decode pi.pub_y_hex ≡ ok root.pub_y
      → pi.verify (root_options q root) ≡ r
      → has_name root.name votes ≡ false
      → Counted votes
      → Counted (add_vote root.name r votes)
  unfolding add_vote
  add_vote_lem root pi r votes a b kx ky e new c = elim (Bool-cases r.is_ok) [
    | inl y ↦ elim (Option-cases r.predicate) [
      | inl n ↦ rw (y, n) c
      | inr (p, is) ↦
          let v : IsVote q provers (root.name, p) = record {
            root = root;
            input = pi;
            enrolled = a;
            given = b;
            named = refl;
            key_x = kx;
            key_y = ky;
            verified = ap (λ (x : VerifyResult). x.is_ok) e ∙ y;
            predicate = ap (λ (x : VerifyResult). x.predicate) e ∙ is;
          } in
          rw (y, is) ((v, c.0), (has_name-false root.name votes new, c.1))
    ]
    | inr n ↦ rw n c
  ]

  vote_lem :
      (pi : ProverInput) (o : Option Prover) (votes : List (Bytes × Predicate))
      → In pi provers
      → match_key_hex pi.pub_x_hex pi.pub_y_hex q.roots ≡ o
      → Counted votes
      → Counted (vote q pi o votes)
  unfolding vote match_key_hex
  vote_lem pi none votes i e c = c
  vote_lem pi (some root) votes i e c =
      let f =
        match_key_hex_found (hex_decode pi.pub_x_hex) (hex_decode pi.pub_y_hex) q.roots root e in
      elim (Bool-cases (has_name root.name votes)) [
        | inl old ↦ rw old c
        | inr new ↦ rw new (add_vote_lem root pi _ votes f.0 i f.1 f.2 refl new c)
      ]

  collect_votes_lem :
      (rest : List ProverInput) (votes : List (Bytes × Predicate))
      → ((i : ℕ) (pi : ProverInput) → get_elem? rest i ≡ some pi → In pi provers)
      → Counted votes
      → Counted (collect_votes q rest votes)
  unfolding collect_votes
  collect_votes_lem [] votes i c = c
  collect_votes_lem (pi ∷ rest) votes i c =
      collect_votes_lem rest _ (λ j. i (suc j)) (vote_lem pi _ votes (i 0 pi refl) refl c)

same_event_eq : (a b : EventName) → same_event a b ≡ true → a ≡ b
unfolding same_event
same_event_eq alarm_tone alarm_tone h = refl
same_event_eq voice voice h = refl
same_event_eq quiet quiet h = refl
same_event_eq alarm_tone voice h = cc
same_event_eq alarm_tone quiet h = cc
same_event_eq voice alarm_tone h = cc
same_event_eq voice quiet h = cc
same_event_eq quiet alarm_tone h = cc
same_event_eq quiet voice h = cc

all_agree_lem :
    (e : EventName) (votes : List (Bytes × Predicate))
    → all_agree e votes ≡ true
    → All (λ (v : Bytes × Predicate). some (event_name v.1) ≡ some e) votes
unfolding all_agree
all_agree_lem e [] h = tt
all_agree_lem e (v ∷ votes) h =
    let b = &&-eq-true (same_event (event_name v.1) e) (all_agree e votes) h in
    (ap some (same_event_eq _ _ b.0), all_agree_lem e votes b.1)

agreement_lem :
    (votes : List (Bytes × Predicate))
    → (agreement votes).is_ok ≡ true
    → All (λ (v : Bytes × Predicate). some (event_name v.1) ≡ (agreement votes).event) votes
unfolding agreement
agreement_lem [] h = cc
agreement_lem (v ∷ votes) h = elim (Bool-cases (all_agree (event_name v.1) (v ∷ votes))) [
  | inl e ↦
      let event : (agreement (v ∷ votes)).event ≡ some (event_name v.1) = rw e refl in
      subst (λ o. All (λ (w : Bytes × Predicate). some (event_name w.1) ≡ o) (v ∷ votes))
        (sym event) (all_agree_lem (event_name v.1) (v ∷ votes) e)
  | inr e ↦ let h' = rw e at h in cc
]

-- What the result `r` says of the inputs if it is a quorum.
pub record IsQuorum (q : QuorumOptions) (provers : List ProverInput) (r : QuorumResult)
    : Type 0 where
  pub votes : List (Bytes × Predicate)
  pub some_needed : 1 ≤ q.threshold
  pub enough : q.threshold ≤ length votes
  pub counted : All (IsVote q provers) votes
  pub distinct : Distinct votes
  pub agreed : All (λ (v : Bytes × Predicate). some (event_name v.1) ≡ r.event) votes

module _ (sort : List (Bytes × Predicate) → List (Bytes × Predicate))
    (sort_keeps : (P : Bytes × Predicate → Type 0) (l : List (Bytes × Predicate))
      → All P (sort l)
      → All P l) where
  -- A quorum is reached only with `threshold` votes or more of enrolled roots with distinct names,
  -- each by an input that verifies pinned to the root's key, and all for the event returned; sorting
  -- loses no vote.
  pub quorum_core-IsQuorum :
      (q : QuorumOptions) (provers : List ProverInput)
      → (quorum_core sort provers q).is_ok ≡ true
      → IsQuorum q provers (quorum_core sort provers q)
  unfolding quorum_core
  quorum_core-IsQuorum q provers h =
      let votes = collect_votes q provers [] in
      elim (Bool-cases (q.threshold == 0 || ltb (length q.roots) q.threshold)) [
        | inl e ↦ let h' = rw e at h in cc
        | inr e ↦ elim (Bool-cases (ltb (length votes) q.threshold)) [
          | inl f ↦ let h' = rw (e, f) at h in cc
          | inr f ↦
              let h' = rw (e, f) at h in
              let c = collect_votes_lem q provers provers [] (λ i pi at. (i, at)) (tt, tt) in
              rw (e, f)
                (record {
                  votes = votes;
                  some_needed = ground arith;
                  enough = ground arith;
                  counted = c.0;
                  distinct = c.1;
                  agreed = sort_keeps _ votes (agreement_lem (sort votes) h');
                })
        ]
      ]
