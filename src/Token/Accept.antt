-- ===== src/Token/Accept.antt =====
-- src/verifier/eat.go: the tokens that `VerifyPSAToken` accepts.
use open_opticon.Common.{
  suc, ◌≡◌, ◌≢◌, ◌⊎◌, refl, sym, ap, ◌∙◌, arith, true, none, some, List, [], ◌∷◌, Bool-cases, inl,
  inr, length, ◌==◌, ==_iff, All,
}
use open_opticon.Common.Bytes.{Bytes, bytes_eq, bytes_eq_iff}
use open_opticon.Common.Results.{Result, ok, err}
use open_opticon.Crypto.{Crypto, verify_sig}
use open_opticon.Cose.{Sign1, parse_cose_sign1, cose_sig_struct}
use open_opticon.Token.{
  SwComponent, PsaClaims, PsaOptions, TokenResult, parse_psa_claims, measurement_in_set,
  appraise_all, appraise, wanted_profile, check_claims, claims_result, signed_claims, parsed_token,
  verify_psa_token,
}
use open_opticon.Quorum.Votes.{In}

-- What an accepted token says: the claims are signed under the key, have the profile wanted and the
-- expected nonce, which is not empty, and if references are given, there are components and each
-- measurement is one of the references.
pub record IsToken (c : Crypto) (token px py : Bytes) (opt : PsaOptions) (claims : PsaClaims)
    : Type 0 where
  pub sign1 : Sign1
  pub parsed : parse_cose_sign1 token ≡ ok sign1
  pub signature :
      verify_sig c (cose_sig_struct sign1.prot_bstr sign1.payload_bstr) sign1.sig px py ≡ ok tt
  pub decoded : parse_psa_claims sign1.payload ≡ ok claims
  pub profile : claims.profile ≡ wanted_profile opt
  pub nonce_given : length opt.expected_nonce ≢ 0
  pub fresh : claims.nonce ≡ opt.expected_nonce
  pub measured :
      (length opt.references ≡ 0)
      ⊎ ((length claims.components ≢ 0)
          × All (λ (s : SwComponent). In s.measurement_value opt.references) claims.components)

in_set : (m : Bytes) (set : List Bytes) → measurement_in_set m set ≡ true → In m set
unfolding measurement_in_set
in_set m [] h = cc
in_set m (r ∷ set) h = elim (Bool-cases (bytes_eq m r)) [
  | inl e ↦ (0, ap some (sym ((bytes_eq_iff m r).0 e)))
  | inr e ↦ let f = in_set m set (ground arith) in (suc f.0, f.1)
]

appraise_all-none :
    (refs : List Bytes) (components : List SwComponent)
    → appraise_all refs components ≡ none
    → All (λ (s : SwComponent). In s.measurement_value refs) components
unfolding appraise_all
appraise_all-none refs [] h = tt
appraise_all-none refs (s ∷ rest) h =
    elim (Bool-cases (measurement_in_set s.measurement_value refs)) [
      | inl e ↦
          let h' = rw e at h in (in_set s.measurement_value refs e, appraise_all-none refs rest h')
      | inr e ↦ let h' = rw e at h in cc
    ]

appraise-none :
    (refs : List Bytes) (components : List SwComponent)
    → appraise refs components ≡ none
    → (length refs ≡ 0)
      ⊎ ((length components ≢ 0)
          × All (λ (s : SwComponent). In s.measurement_value refs) components)
unfolding appraise
appraise-none refs components h = elim (Bool-cases (length refs == 0)) [
  | inl e ↦ inl ((==_iff _ _).0 e)
  | inr e ↦ elim (Bool-cases (length components == 0)) [
    | inl f ↦ let h' = rw (e, f) at h in cc
    | inr f ↦ let h' = rw (e, f) at h in inr (ground arith, appraise_all-none refs components h')
  ]
]

pub record Checked (opt : PsaOptions) (c : PsaClaims) : Type 0 where
  pub profile : c.profile ≡ wanted_profile opt
  pub nonce_given : length opt.expected_nonce ≢ 0
  pub fresh : c.nonce ≡ opt.expected_nonce
  pub measured : appraise opt.references c.components ≡ none

check_claims-none : (opt : PsaOptions) (c : PsaClaims) → check_claims opt c ≡ none → Checked opt c
unfolding check_claims
check_claims-none opt c h = elim (Bool-cases (bytes_eq c.profile (wanted_profile opt))) [
  | inr p ↦ let h' = rw p at h in cc
  | inl p ↦ elim (Bool-cases (length opt.expected_nonce == 0)) [
    | inl n ↦ let h' = rw (p, n) at h in cc
    | inr n ↦ elim (Bool-cases (bytes_eq c.nonce opt.expected_nonce)) [
      | inr f ↦ let h' = rw (p, n, f) at h in cc
      | inl f ↦
          let h' = rw (p, n, f) at h in
          record {
            profile = (bytes_eq_iff c.profile (wanted_profile opt)).0 p;
            nonce_given = ground arith;
            fresh = (bytes_eq_iff c.nonce opt.expected_nonce).0 f;
            measured = h';
          }
    ]
  ]
]

module _ (c : Crypto) (opt : PsaOptions) (px py : Bytes) where
  claims_result-none :
      (r : Result PsaClaims)
      → (claims_result opt r).error ≡ none
      → (claims : PsaClaims) × (r ≡ ok claims)
        × (check_claims opt claims ≡ none)
        × ((claims_result opt r).claims ≡ some claims)
  unfolding claims_result
  claims_result-none (err e) h = cc
  claims_result-none (ok claims) h = (claims, refl, h, refl)

  signed_claims-none :
      (payload : Bytes) (r : Result (Unit {0}))
      → (signed_claims opt payload r).error ≡ none
      → (r ≡ ok tt) × (signed_claims opt payload r ≡ claims_result opt (parse_psa_claims payload))
  unfolding signed_claims
  signed_claims-none payload (err e) h = cc
  signed_claims-none payload (ok u) h = (refl, refl)

  parsed_token-none :
      (token : Bytes) (r : Result Sign1)
      → parse_cose_sign1 token ≡ r
      → (parsed_token c opt px py r).error ≡ none
      → (claims : PsaClaims) × ((parsed_token c opt px py r).claims ≡ some claims)
        × IsToken c token px py opt claims
  unfolding parsed_token
  parsed_token-none token (err e) p h = cc
  parsed_token-none token (ok s) p h =
      let (v, same) =
        signed_claims-none s.payload
          (verify_sig c (cose_sig_struct s.prot_bstr s.payload_bstr) s.sig px py) h in
      let (claims, d, k, is) = claims_result-none (parse_psa_claims s.payload) (rw same at h) in
      let checked = check_claims-none opt claims k in
      (
        claims,
        ap (λ (r : TokenResult). r.claims) same ∙ is,
        record {
          sign1 = s;
          parsed = p;
          signature = v;
          decoded = d;
          profile = checked.profile;
          nonce_given = checked.nonce_given;
          fresh = checked.fresh;
          measured = appraise-none opt.references claims.components checked.measured;
        },
      )

-- A token that `VerifyPSAToken` accepts is signed under the key given, its claims have the profile
-- wanted and the expected nonce, which is not empty, and if there are reference values, the token
-- has components and each of their measurements is a reference value; the claims are returned.
pub verify_psa_token-IsToken :
    (c : Crypto) (token px py : Bytes) (opt : PsaOptions)
    → (verify_psa_token c token px py opt).error ≡ none
    → (claims : PsaClaims) × ((verify_psa_token c token px py opt).claims ≡ some claims)
      × IsToken c token px py opt claims
unfolding verify_psa_token
verify_psa_token-IsToken c token px py opt h =
    parsed_token-none c opt px py token (parse_cose_sign1 token) refl h
