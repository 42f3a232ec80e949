-- ===== src/Token.antt =====
-- src/verifier/eat.go: the offline verification of a PSA attestation token.
pub mod Accept
use open_opticon.Common.{
  ℕ, zero, suc, Bool, true, false, not, ◌&&◌, ◌||◌, Option, none, some, List, [], ◌∷◌, ◌++◌, length,
  ltb, ◌==◌, if◌then◌else◌,
}
use open_opticon.Common.Bytes.{Bytes, bytes_eq}
use open_opticon.Common.Results.{
  Error, Result, ok, err, ◌>>=◌, ◌>>◌, guard, wrap, claims_not_a_map, components_not_an_array,
  component_not_a_map, claim_key, claim, component_count, trailing_bytes,
}
use open_opticon.Cbor.{Read, read_head, read_uint, read_bstr, read_tstr, skip_value, max_cbor_depth}
use open_opticon.Crypto.{Crypto, verify_sig}
use open_opticon.Cose.{Sign1, parse_cose_sign1, cose_sig_struct}

pub record SwComponent : Type 0 where
  pub measurement_type : Bytes
  pub measurement_value : Bytes
  pub signer_id : Bytes

pub record PsaClaims : Type 0 where
  pub profile : Bytes
  pub nonce : Bytes
  pub instance_id : Bytes
  pub implementation_id : Bytes
  pub components : List SwComponent

pub record PsaOptions : Type 0 where
  pub expected_nonce : Bytes
  pub expected_profile : Bytes
  pub references : List Bytes

-- "http://arm.com/psa/2.0.0".
abbrev pub psa_profile : Bytes
psa_profile =
    0x68 ∷ 0x74 ∷ 0x74 ∷ 0x70 ∷ 0x3a ∷ 0x2f ∷ 0x2f ∷ 0x61 ∷ 0x72 ∷ 0x6d ∷ 0x2e ∷ 0x63 ∷ 0x6f ∷ 0x6d
    ∷ 0x2f ∷ 0x70 ∷ 0x73 ∷ 0x61 ∷ 0x2f ∷ 0x32 ∷ 0x2e ∷ 0x30 ∷ 0x2e ∷ 0x30 ∷ []

-- `switch sk`.
unfoldable pub component_field : ℕ → SwComponent → Bytes → Read SwComponent
component_field key comp bs =
    if key == 1
    then (do (v, bs) ← read_tstr bs; ok (record comp { measurement_type = v }, bs))
    else if key == 2
    then (do (v, bs) ← read_bstr bs; ok (record comp { measurement_value = v }, bs))
    else if key == 5
    then (do (v, bs) ← read_bstr bs; ok (record comp { signer_id = v }, bs))
    else (do bs ← skip_value max_cbor_depth bs; ok (comp, bs))

unfoldable pub component_fields : ℕ → SwComponent → Bytes → Read SwComponent
unfolding component_field
component_fields zero comp bs = ok (comp, bs)
component_fields (suc n) comp bs = do
  (key, bs) ← read_uint bs
  (comp, bs) ← component_field key comp bs
  component_fields n comp bs

abbrev pub no_component : SwComponent
no_component = record { measurement_type = []; measurement_value = []; signer_id = [] }

unfoldable pub read_components : ℕ → Bytes → Read (List SwComponent)
unfolding component_fields
read_components zero bs = ok ([], bs)
read_components (suc n) bs = do
  (major, fields, bs) ← read_head bs
  guard (major == 5) (component_not_a_map major)
  (comp, bs) ← component_fields fields no_component bs
  (rest, bs) ← read_components n bs
  ok (comp ∷ rest, bs)

-- `readSoftwareComponents`.
unfoldable pub read_software_components : Bytes → Read (List SwComponent)
unfolding read_components
read_software_components bs = do
  (major, n, bs) ← read_head bs
  guard (major == 4) (components_not_an_array major)
  guard (not (ltb (length bs) n)) component_count
  read_components n bs

-- `switch key`.
unfoldable pub claim_field : ℕ → PsaClaims → Bytes → Read PsaClaims
claim_field key c bs =
    if key == 265
    then (do (v, bs) ← read_tstr bs; ok (record c { profile = v }, bs))
    else if key == 10
    then (do (v, bs) ← read_bstr bs; ok (record c { nonce = v }, bs))
    else if key == 256
    then (do (v, bs) ← read_bstr bs; ok (record c { instance_id = v }, bs))
    else if key == 2396
    then (do (v, bs) ← read_bstr bs; ok (record c { implementation_id = v }, bs))
    else if key == 2399
    then (do (v, bs) ← read_software_components bs; ok (record c { components = v }, bs))
    else (do bs ← skip_value max_cbor_depth bs; ok (c, bs))

unfoldable pub read_claims : ℕ → PsaClaims → Bytes → Read PsaClaims
unfolding claim_field
read_claims zero c bs = ok (c, bs)
read_claims (suc n) c bs = do
  (key, bs) ← wrap claim_key (read_uint bs)
  (c, bs) ← wrap (claim key) (claim_field key c bs)
  read_claims n c bs

abbrev pub no_claims : PsaClaims
no_claims = record {
  profile = [];
  nonce = [];
  instance_id = [];
  implementation_id = [];
  components = [];
}

-- `parsePSAClaims`.
unfoldable pub parse_psa_claims : Bytes → Result PsaClaims
unfolding read_claims
parse_psa_claims b = do
  (major, n, bs) ← read_head b
  guard (major == 5) (claims_not_a_map major)
  (c, rest) ← read_claims n no_claims bs
  guard (length rest == 0) trailing_bytes
  ok c

-- `measurementInSet`.
unfoldable pub measurement_in_set : Bytes → List Bytes → Bool
measurement_in_set m [] = false
measurement_in_set m (r ∷ set) = bytes_eq m r || measurement_in_set m set

-- The errors of `VerifyPSAToken`.
pub data TokenError : Type 0 where
  bad_cose bad_signature bad_claims : Error → TokenError
  wrong_profile no_expected_nonce nonce_mismatch no_components : TokenError
  unknown_measurement : Bytes → TokenError

-- The claims and the error that `VerifyPSAToken` returns; `none` is `nil`.
pub record TokenResult : Type 0 where
  pub claims : Option PsaClaims
  pub error : Option TokenError

-- The loop over the components.
unfoldable pub appraise_all : List Bytes → List SwComponent → Option TokenError
unfolding measurement_in_set
appraise_all refs [] = none
appraise_all refs (c ∷ rest) =
    let after = appraise_all refs rest in
    if measurement_in_set c.measurement_value refs
    then after
    else some (unknown_measurement c.measurement_value)

unfoldable pub appraise : List Bytes → List SwComponent → Option TokenError
unfolding appraise_all
appraise refs components =
    if length refs == 0
    then none
    else if length components == 0
    then some no_components
    else appraise_all refs components

abbrev pub wanted_profile : PsaOptions → Bytes
wanted_profile opt = if length opt.expected_profile == 0 then psa_profile else opt.expected_profile

-- `VerifyPSAToken` behind the decoding of the claims.
unfoldable pub check_claims : PsaOptions → PsaClaims → Option TokenError
unfolding appraise
check_claims opt c =
    if not (bytes_eq c.profile (wanted_profile opt))
    then some wrong_profile
    else if length opt.expected_nonce == 0
    then some no_expected_nonce
    else if not (bytes_eq c.nonce opt.expected_nonce)
    then some nonce_mismatch
    else appraise opt.references c.components

unfoldable pub claims_result : PsaOptions → Result PsaClaims → TokenResult
unfolding check_claims
claims_result opt (err e) = record { claims = none; error = some (bad_claims e) }
claims_result opt (ok c) = record { claims = some c; error = check_claims opt c }

unfoldable pub signed_claims : PsaOptions → Bytes → Result (Unit {0}) → TokenResult
unfolding claims_result
signed_claims opt payload (err e) = record { claims = none; error = some (bad_signature e) }
signed_claims opt payload (ok u) = claims_result opt (parse_psa_claims payload)

unfoldable pub parsed_token : Crypto → PsaOptions → Bytes → Bytes → Result Sign1 → TokenResult
unfolding signed_claims
parsed_token c opt px py (err e) = record { claims = none; error = some (bad_cose e) }
parsed_token c opt px py (ok s) =
    signed_claims opt s.payload
      (verify_sig c (cose_sig_struct s.prot_bstr s.payload_bstr) s.sig px py)

-- `VerifyPSAToken`.
unfoldable pub verify_psa_token : Crypto → Bytes → Bytes → Bytes → PsaOptions → TokenResult
unfolding parsed_token
verify_psa_token c token px py opt = parsed_token c opt px py (parse_cose_sign1 token)
