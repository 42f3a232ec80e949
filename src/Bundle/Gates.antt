-- ===== src/Bundle/Gates.antt =====
-- src/verifier/bound.go: a bundle is accepted exactly when every gate holds.
use open_opticon.Common.{◌<◌, ◌≡◌, ◌≢◌, refl, true, Option, none, some, length, arith}
use open_opticon.Common.Bytes.{Bytes, bytes_eq_iff}
use open_opticon.Common.Results.{Result, ok, err}
use open_opticon.Payload.{Predicate, payload_version, decode_payload}
use open_opticon.Crypto.{Crypto}
use open_opticon.Bundle.{
  VerifyResult, Options, chains_onto, predicate_gates, gates_of, gates_after_sig, verified,
}

-- Gate 4: no digest is expected, or the payload carries it.
abbrev pub ChainsOnto : Bytes → Option Bytes → Type 0
ChainsOnto prev none = Unit {0}
ChainsOnto prev (some expected) = prev ≡ expected

-- What the gates behind the signature ask of a payload that decodes to `p`.
pub record Admits (opt : Options) (payload : Bytes) (p : Predicate) : Type 0 where
  pub decoded : decode_payload payload ≡ ok p
  pub version : p.version ≡ payload_version
  pub nonce_given : length p.nonce ≢ 0
  pub fresh : p.nonce ≡ opt.expected_nonce
  pub advances : opt.last_counter < p.counter
  pub chained : ChainsOnto p.prev_digest opt.expected_prev_digest

abbrev pub accepted : Crypto → Bytes → Predicate → VerifyResult
accepted c payload p = record {
  predicate = some p;
  is_ok = true;
  reason = verified;
  next_digest = some (c.sha256 payload);
}

pub chains_onto→ : (prev : Bytes) (o : Option Bytes) → chains_onto prev o ≡ true → ChainsOnto prev o
unfolding chains_onto
chains_onto→ prev none h = tt
chains_onto→ prev (some e) h = (bytes_eq_iff prev e).0 h

→chains_onto : (prev : Bytes) (o : Option Bytes) → ChainsOnto prev o → chains_onto prev o ≡ true
unfolding chains_onto
→chains_onto prev none h = refl
→chains_onto prev (some e) h = (bytes_eq_iff prev e).1 h

module _ (c : Crypto) (opt : Options) (payload : Bytes) where
  predicate_gates→ :
      (p : Predicate)
      → decode_payload payload ≡ ok p
      → (predicate_gates c payload opt p).is_ok ≡ true
      → Admits opt payload p × (predicate_gates c payload opt p ≡ accepted c payload p)
  unfolding predicate_gates
  predicate_gates→ p e h = ground (
    arith,
    bytes_eq_iff p.nonce opt.expected_nonce,
    chains_onto→ p.prev_digest opt.expected_prev_digest,
  )

  →predicate_gates :
      (p : Predicate)
      → Admits opt payload p
      → predicate_gates c payload opt p ≡ accepted c payload p
  unfolding predicate_gates
  →predicate_gates p a = ground (
    arith,
    bytes_eq_iff p.nonce opt.expected_nonce,
    →chains_onto p.prev_digest opt.expected_prev_digest a.chained,
  )

  gates_of→ :
      (r : Result Predicate)
      → decode_payload payload ≡ r
      → (gates_of c payload opt r).is_ok ≡ true
      → (p : Predicate) × Admits opt payload p × (gates_of c payload opt r ≡ accepted c payload p)
  unfolding gates_of
  gates_of→ (err e) d h = cc
  gates_of→ (ok p) d h = let (a, e) = predicate_gates→ p d h in (p, a, e)

  -- A payload that passes the gates behind the signature decodes to an admitted predicate, and the
  -- result carries that predicate and the digest of the payload.
  pub gates_after_sig→ :
      (gates_after_sig c payload opt).is_ok ≡ true
      → (p : Predicate) × Admits opt payload p
        × (gates_after_sig c payload opt ≡ accepted c payload p)
  unfolding gates_after_sig
  gates_after_sig→ h = gates_of→ (decode_payload payload) refl h

  -- The other way round.
  pub →gates_after_sig :
      (p : Predicate) → Admits opt payload p → gates_after_sig c payload opt ≡ accepted c payload p
  unfolding gates_after_sig gates_of
  →gates_after_sig p a = rw a.decoded (→predicate_gates p a)
