-- ===== src/Common/Results.antt =====
-- Go's (value, error) pairs. `Error` has one constructor for each message of the package.
use Prim.Native.Nat.{ℕ}
use mathlib.Core.Path.{◌≡◌, refl}
use mathlib.Core.Logic.{◌⊎◌, inl, inr}
use mathlib.Core.Bool.{Bool, true, false}

pub data Error : Type 0 where
  -- encoding/hex, encoding/base64 and strconv
  odd_length_hex invalid_base64 invalid_number : Error
  invalid_hex_byte : ℕ → Error
  -- the CBOR reader
  unexpected_end : Error
  non_minimal : ℕ → Error
  unsupported_info : ℕ → Error
  expected_uint expected_bstr expected_tstr expected_bool : ℕ → Error
  bstr_exceeds_buffer string_exceeds_buffer nesting_too_deep : Error
  cannot_skip : ℕ → Error
  -- the payload
  not_a_map : ℕ → Error
  map_key : Error → Error
  key_not_after : ℕ → ℕ → Error
  duplicate_key : ℕ → Error
  nonce_too_long : ℕ → Error
  config_hash_length input_hash_length prev_digest_length : ℕ → Error
  unknown_key : ℕ → Error
  value_for_key : ℕ → Error → Error
  missing_keys : ℕ → Error
  trailing_bytes : Error
  -- signatures and keys
  short_sig bad_pub_key ecdsa_failed private_key_length : Error
  -- COSE_Sign1
  not_four_elements : Error
  protected_error unprotected_error payload_error signature_error : Error → Error
  protected_header protected_label alg_value : Error → Error
  header_not_a_map alg_not_es256 alg_missing : Error
  -- checkpoints
  not_three_lines bad_checkpoint_size bad_checkpoint_root not_included : Error
  checkpoint_signature : Error → Error
  -- PSA tokens
  claims_not_a_map components_not_an_array component_not_a_map : ℕ → Error
  claim_key : Error → Error
  claim : ℕ → Error → Error
  component_count : Error
  -- restraint receipts
  not_seven_lines bad_batch bad_retained : Error
  bad_origin : Error
  wrong_length : ℕ → ℕ → Error
  input_hash_error output_hash_error prev_digest_error : Error → Error
  -- the witness
  signing_failed root_not_32_bytes bad_status : Error
  fetch_checkpoint bad_sig_hex unparsed_checkpoint bad_persisted_root : Error → Error
  fetch_consistency bad_consistency_proof corrupt_state invalid_root : Error → Error
  -- the commands of the witness
  unexpected_argument flag_without_value bad_peer_spec empty_peer_name duplicate_peer : Error
  bad_pub_x bad_pub_y fetch_peer bad_peer_cosignature unparsed_peer : Error → Error
  peer_name_mismatch peer_not_verified peer_origin_mismatch : Error
  bad_cosignature_a bad_cosignature_b fetch_proof_failed : Error → Error
  not_a_proof proof_of_other_log : Error

pub data Result {ℓ} (A : Type ℓ) : Type ℓ where
  ok : A → Result A
  err : Error → Result A

-- `fmt.Errorf("…: %w", cause)`
abbrev pub wrap {ℓ} : {A : Type ℓ} → (Error → Error) → Result A → Result A
wrap f (ok a) = ok a
wrap f (err cause) = err (f cause)

-- `if !test { return why }`
abbrev pub guard : Bool → Error → Result (Unit {0})
guard true why = ok tt
guard false why = err why

-- `if err != nil { return err }`
infixl 5 ◌>>=◌ ◌>>◌
abbrev pub ◌>>=◌ {ℓ κ} : {A : Type ℓ} {B : Type κ} → Result A → (A → Result B) → Result B
ok value >>= next = next value
err why >>= next = err why

abbrev pub ◌>>◌ {ℓ} : {B : Type ℓ} → Result (Unit {0}) → Result B → Result B
check >> rest = check >>= λ _. rest

pub >>=-eq-ok {ℓ κ} :
    {A : Type ℓ} {B : Type κ} (first : Result A) (next : A → Result B) {b : B}
    → (first >>= next) ≡ ok b
    → (a : A) × (first ≡ ok a) × (next a ≡ ok b)
>>=-eq-ok (ok value) next h = (value, refl, h)
>>=-eq-ok (err why) next h = cc

pub wrap-eq-ok {ℓ} :
    {A : Type ℓ} (f : Error → Error) (m : Result A) {a : A} → wrap f m ≡ ok a → m ≡ ok a
wrap-eq-ok f (ok a) h = h
wrap-eq-ok f (err e) h = cc

pub guard-eq-ok : (b : Bool) (e : Error) → guard b e ≡ ok tt → b ≡ true
guard-eq-ok true e h = refl
guard-eq-ok false e h = cc

pub Result-cases {ℓ} :
    {A : Type ℓ} (r : Result A) → ((a : A) × (r ≡ ok a)) ⊎ ((e : Error) × (r ≡ err e))
Result-cases (ok a) = inl (a, refl)
Result-cases (err e) = inr (e, refl)
