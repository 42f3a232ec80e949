-- ===== src/Quorum/Modalities.antt =====
-- src/verifier/quorum.go: what a co-attestation means: verified outputs of distinct inputs.
use open_opticon.Common.{
  ℕ, suc, ◌≤◌, ◌≡◌, ◌≢◌, refl, ap, ◌∙◌, arith, true, false, some, List, [], ◌∷◌, Bool-cases,
  Option-cases, inl, inr, length, ltb, ◌==◌, get_elem?, All, map,
}
use open_opticon.Common.Bytes.{Bytes, bytes_eq_iff}
use open_opticon.Hex.{hex_encode}
use open_opticon.Payload.{Predicate, EventName, event_name}
use open_opticon.Bundle.{VerifyResult, Options}
use open_opticon.Quorum.{
  ProverInput, CoAttestation, seen_input, add_modality, collect_modalities, co_attest_core,
}
use open_opticon.Quorum.Votes.{In}

-- A modality accepted: an input that verifies, with the hash of its sensor input and its event.
pub record IsModality (opt : Options) (provers : List ProverInput) (m : Bytes × EventName)
    : Type 0 where
  pub input : ProverInput
  pub predicate : Predicate
  pub given : In input provers
  pub verified : (input.verify opt).is_ok ≡ true
  pub found : (input.verify opt).predicate ≡ some predicate
  pub hash : m.0 ≡ hex_encode predicate.input_hash
  pub event : m.1 ≡ event_name predicate

-- No two modalities come from one sensor input.
abbrev pub DistinctInputs : List (Bytes × EventName) → Type 0
DistinctInputs [] = Unit {0}
DistinctInputs (m ∷ seen) = All (λ (w : Bytes × EventName). w.0 ≢ m.0) seen × DistinctInputs seen

seen_input-false :
    (ih : Bytes) (seen : List (Bytes × EventName))
    → seen_input ih seen ≡ false
    → All (λ (w : Bytes × EventName). w.0 ≢ ih) seen
unfolding seen_input
seen_input-false ih [] h = tt
seen_input-false ih (m ∷ seen) h =
    (λ e. ground (arith, (bytes_eq_iff m.0 ih).1 e), seen_input-false ih seen (ground arith))

module _ (opt : Options) (provers : List ProverInput) where
  abbrev Accepted : List (Bytes × EventName) → Type 0
  Accepted seen = All (IsModality opt provers) seen × DistinctInputs seen

  add_modality_lem :
      (pi : ProverInput) (r : VerifyResult) (seen : List (Bytes × EventName))
      → In pi provers
      → pi.verify opt ≡ r
      → Accepted seen
      → Accepted (add_modality r seen)
  unfolding add_modality
  add_modality_lem pi r seen i e c = elim (Bool-cases r.is_ok) [
    | inl y ↦ elim (Option-cases r.predicate) [
      | inl n ↦ rw (y, n) c
      | inr (p, is) ↦ elim (Bool-cases (seen_input (hex_encode p.input_hash) seen)) [
        | inl old ↦ rw (y, is, old) c
        | inr new ↦
            let m : IsModality opt provers (hex_encode p.input_hash, event_name p) = record {
              input = pi;
              predicate = p;
              given = i;
              verified = ap (λ (x : VerifyResult). x.is_ok) e ∙ y;
              found = ap (λ (x : VerifyResult). x.predicate) e ∙ is;
              hash = refl;
              event = refl;
            } in
            rw (y, is, new) ((m, c.0), (seen_input-false (hex_encode p.input_hash) seen new, c.1))
      ]
    ]
    | inr n ↦ rw n c
  ]

  collect_modalities_lem :
      (rest : List ProverInput) (seen : List (Bytes × EventName))
      → ((i : ℕ) (pi : ProverInput) → get_elem? rest i ≡ some pi → In pi provers)
      → Accepted seen
      → Accepted (collect_modalities opt rest seen)
  unfolding collect_modalities
  collect_modalities_lem [] seen i c = c
  collect_modalities_lem (pi ∷ rest) seen i c =
      collect_modalities_lem rest _ (λ j. i (suc j))
        (add_modality_lem pi _ seen (i 0 pi refl) refl c)

-- What the result `r` says of the inputs if it is a co-attestation.
pub record IsCoAttested (sort : List EventName → List EventName) (opt : Options)
    (provers : List ProverInput) (threshold : ℕ) (r : CoAttestation) : Type 0 where
  pub seen : List (Bytes × EventName)
  pub some_needed : 1 ≤ threshold
  pub enough : threshold ≤ length seen
  pub accepted : All (IsModality opt provers) seen
  pub distinct : DistinctInputs seen
  pub events : r.modalities ≡ sort (map (λ (m : Bytes × EventName). m.1) seen)

-- A co-attestation is reached only with `threshold` modalities or more, at least one, each by an
-- input that verifies under the options given, with pairwise distinct hashes of the sensor input;
-- the modalities returned are their events, sorted.
pub co_attest_core-IsCoAttested :
    (sort : List EventName → List EventName) (provers : List ProverInput) (opt : Options)
    (threshold : ℕ)
    → (co_attest_core sort provers opt threshold).is_ok ≡ true
    → IsCoAttested sort opt provers threshold (co_attest_core sort provers opt threshold)
unfolding co_attest_core
co_attest_core-IsCoAttested sort provers opt threshold h =
    let seen = collect_modalities opt provers [] in
    elim (Bool-cases (threshold == 0)) [
      | inl e ↦ let h' = rw e at h in cc
      | inr e ↦ elim (Bool-cases (ltb (length seen) threshold)) [
        | inl f ↦ let h' = rw (e, f) at h in cc
        | inr f ↦
            let c = collect_modalities_lem opt provers provers [] (λ i pi at. (i, at)) (tt, tt) in
            rw (e, f)
              (record {
                seen = seen;
                some_needed = ground arith;
                enough = ground arith;
                accepted = c.0;
                distinct = c.1;
                events = refl;
              })
      ]
    ]
