-- ===== src/Payload.antt =====
-- src/verifier/bound.go: the signed predicate and `DecodePayload`.
pub mod Encode
pub mod Complete
pub mod Canonical
pub mod Unique
pub mod Entries
pub mod Accepted
use open_opticon.Common.{
  ℕ, zero, suc, ◌-◌, ◌^◌, bit_and, bit_or, Bool, true, false, not, ◌&&◌, Option, none, some, List,
  [], ltb, leb, ◌==◌, if◌then◌else◌, length,
}
use open_opticon.Common.Bytes.{Bytes}
use open_opticon.Common.Results.{
  Error, Result, ok, err, ◌>>=◌, ◌>>◌, guard, wrap, not_a_map, map_key, key_not_after,
  duplicate_key, nonce_too_long, config_hash_length, input_hash_length, prev_digest_length,
  unknown_key, value_for_key, missing_keys, trailing_bytes,
}
use open_opticon.Cbor.{Read, read_head, read_uint, read_bstr, read_bool}

abbrev pub payload_version : ℕ
payload_version = 1

abbrev pub nonce_max : ℕ
nonce_max = 64

abbrev pub hash_len : ℕ
hash_len = 32

pub record Predicate : Type 0 where
  pub version : ℕ
  pub nonce : Bytes
  pub event_id : ℕ
  pub voice_active : Bool
  pub presence : ℕ
  pub frames : ℕ
  pub window_ms : ℕ
  pub counter : ℕ
  pub config_hash : Bytes
  pub input_hash : Bytes
  pub prev_digest : Bytes

-- The event classes, and the label of `EventName`.
pub data EventName : Type 0 where
  alarm_tone voice quiet : EventName

unfoldable pub event_name : Predicate → EventName
event_name p = if p.event_id == 2 then alarm_tone else if p.event_id == 1 then voice else quiet

-- `&Predicate{}`.
abbrev pub blank : Predicate
blank = record {
  version = 0;
  nonce = [];
  event_id = 0;
  voice_active = false;
  presence = 0;
  frames = 0;
  window_ms = 0;
  counter = 0;
  config_hash = [];
  input_hash = [];
  prev_digest = [];
}

-- `p.X, err = r.readUint()`, with the error wrapped behind the switch; so for a Boolean.
unfoldable pub uint_field : ℕ → (ℕ → Predicate) → Bytes → Read Predicate
uint_field key set bs = do (v, bs) ← wrap (value_for_key key) (read_uint bs); ok (set v, bs)

unfoldable pub bool_field : ℕ → (Bool → Predicate) → Bytes → Read Predicate
bool_field key set bs = do (v, bs) ← wrap (value_for_key key) (read_bool bs); ok (set v, bs)

-- A byte string whose length is checked as soon as it is read.
unfoldable pub bstr_field :
    ℕ → (ℕ → Bool) → (ℕ → Error) → (Bytes → Predicate) → Bytes → Read Predicate
bstr_field key fits bad_length set bs = do
  (v, bs) ← wrap (value_for_key key) (read_bstr bs)
  guard (fits (length v)) (bad_length (length v))
  ok (set v, bs)

-- `switch key`.
unfoldable pub read_field : ℕ → Predicate → Bytes → Read Predicate
read_field key p bs =
    if key == 0
    then uint_field key (λ v. record p { version = v }) bs
    else if key == 1
    then bstr_field key (λ n. leb n nonce_max) nonce_too_long (λ v. record p { nonce = v }) bs
    else if key == 2
    then uint_field key (λ v. record p { event_id = v }) bs
    else if key == 3
    then bool_field key (λ v. record p { voice_active = v }) bs
    else if key == 4
    then uint_field key (λ v. record p { presence = v }) bs
    else if key == 5
    then uint_field key (λ v. record p { frames = v }) bs
    else if key == 6
    then uint_field key (λ v. record p { window_ms = v }) bs
    else if key == 7
    then uint_field key (λ v. record p { counter = v }) bs
    else if key == 8
    then bstr_field key (λ n. n == hash_len) config_hash_length (λ v. record p { config_hash = v })
        bs
    else if key == 9
    then bstr_field key (λ n. n == hash_len) input_hash_length (λ v. record p { input_hash = v }) bs
    else if key == 10
    then bstr_field key (λ n. n == hash_len) prev_digest_length (λ v. record p { prev_digest = v })
        bs
    else err (unknown_key key)

-- The variables of the loop; `last_key` is `none` while `haveLast` is false.
pub record Decoding : Type 0 where
  pub predicate : Predicate
  pub seen : ℕ
  pub last_key : Option ℕ

abbrev pub start : Decoding
start = record { predicate = blank; seen = 0; last_key = none }

-- Deterministic maps have strictly ascending keys.
unfoldable pub check_order : Option ℕ → ℕ → Result (Unit {0})
check_order none key = ok tt
check_order (some last) key = guard (ltb last key) (key_not_after key last)

-- `seen & (1<<key) != 0` and `seen |= 1 << key`, for the keys below 11.
unfoldable pub check_unseen : ℕ → ℕ → Result (Unit {0})
check_unseen seen key =
    guard (not (ltb key 11 && not (bit_and seen (2 ^ key) == 0))) (duplicate_key key)

unfoldable pub mark_seen : ℕ → ℕ → ℕ
mark_seen seen key = if ltb key 11 then bit_or seen (2 ^ key) else seen

-- One round of the loop.
unfoldable pub decode_entry : Decoding → Bytes → Read Decoding
decode_entry d bs = do
  (key, bs) ← wrap map_key (read_uint bs)
  check_order d.last_key key
  check_unseen d.seen key
  (p, bs) ← read_field key d.predicate bs
  ok (record { predicate = p; seen = mark_seen d.seen key; last_key = some key }, bs)

unfoldable pub decode_entries : ℕ → Decoding → Bytes → Read Decoding
decode_entries zero d bs = ok (d, bs)
decode_entries (suc n) d bs = do (d, bs) ← decode_entry d bs; decode_entries n d bs

abbrev pub all_keys : ℕ
all_keys = 2 ^ 11 - 1

unfoldable pub decode_payload : Bytes → Result Predicate
decode_payload bs = do
  (major, n, bs) ← read_head bs
  guard (major == 5) (not_a_map major)
  (d, rest) ← decode_entries n start bs
  guard (d.seen == all_keys) (missing_keys d.seen)
  guard (length rest == 0) trailing_bytes
  ok d.predicate
