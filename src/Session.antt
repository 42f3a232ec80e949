-- ===== src/Session.antt =====
-- src/verifier/cmd/he-challenge/main.go: the challenge sessions of the live verifier.
-- `server.sessions` maps session ids to pointers, here indices into `heap`: a handler keeps its
-- pointer when the entry is deleted. Times are nanoseconds. HTTP, JSON and pages are left out.
pub mod Steps
pub mod Replay
pub mod Bounds
use open_opticon.Common.{
  ℕ, zero, suc, ◌+◌, ◌-◌, Bool, true, false, not, ◌&&◌, Option, none, some, List, [], ◌∷◌, ◌++◌,
  length, ltb, leb, get_elem?, if◌then◌else◌,
}
use open_opticon.Common.Bytes.{Bytes, bytes_eq}
use open_opticon.Payload.{Predicate, EventName, event_name}
use open_opticon.Crypto.{Crypto}
use open_opticon.Bundle.{Reason, VerifyResult, Options, Bundle, verify_bundle}

-- The `reason` of an answer: that of the gates, or the re-check under the lock.
pub data Note : Type 0 where
  from_gates : Reason → Note
  concurrent_replay : ℕ → ℕ → Note

-- `verdict`, `event` and `reason` of a session; `none` for the event stands for "".
pub record Verdict : Type 0 where
  pub passed : Bool
  pub event : Option EventName
  pub note : Note

-- `proofView`: the predicate and the bundle that its fields are copied from, and `Pinned`.
pub record ProofView : Type 0 where
  pub predicate : Predicate
  pub bundle : Bundle
  pub pinned : Bool

pub record Session : Type 0 where
  pub nonce : Bytes
  pub created_at : ℕ
  pub last_counter : ℕ
  pub verdict : Option Verdict
  pub proof : Option ProofView

pub record Server : Type 0 where
  pub heap : List Session
  pub sessions : List (Bytes × ℕ)
  pub ttl : ℕ
  pub pin_x : Option Bytes
  pub pin_y : Option Bytes

abbrev pub max_sessions : ℕ
max_sessions = 10000

-- `s.sessions[sid]`.
unfoldable pub lookup : Bytes → List (Bytes × ℕ) → Option ℕ
lookup sid [] = none
lookup sid (e ∷ rest) = let found = lookup sid rest in if bytes_eq e.0 sid then some e.1 else found

-- `s.sessions[sid] = …`.
unfoldable pub store : Bytes → ℕ → List (Bytes × ℕ) → List (Bytes × ℕ)
store sid ref [] = (sid, ref) ∷ []
store sid ref (e ∷ rest) =
    let after = store sid ref rest in if bytes_eq e.0 sid then (sid, ref) ∷ rest else e ∷ after

-- `now.Sub(v.createdAt) > s.ttl`.
unfoldable pub is_expired : ℕ → Server → Option Session → Bool
is_expired now sv none = false
is_expired now sv (some s) = ltb sv.ttl (now - s.created_at)

-- The loop of `gcLocked`, over the entries that are left.
unfoldable pub collect : ℕ → Server → List (Bytes × ℕ) → List (Bytes × ℕ)
collect now sv [] = []
collect now sv (e ∷ rest) =
    let kept = collect now sv rest in
    if is_expired now sv (get_elem? sv.heap e.1) then kept else e ∷ kept

-- `gcLocked`.
unfoldable pub gc_locked : ℕ → Server → Server
gc_locked now sv = record sv { sessions = collect now sv sv.sessions }

-- `&session{nonce: nonce, createdAt: now}`.
abbrev pub new_session : Bytes → ℕ → Session
new_session nonce now = record {
  nonce = nonce;
  created_at = now;
  last_counter = 0;
  verdict = none;
  proof = none;
}

unfoldable pub add_session : Bytes → Bytes → ℕ → Server → Server × Bool
add_session sid nonce now sv = if leb max_sessions (length sv.sessions) then (sv, false) else (
  record sv {
    heap = sv.heap ++ new_session nonce now ∷ [];
    sessions = store sid (length sv.heap) sv.sessions;
  },
  true,
)

-- The locked part of `handleChallenge`, for the session id and the nonce drawn; the flag is `false`
-- where the answer is 503.
unfoldable pub handle_challenge : Bytes → Bytes → ℕ → Server → Server × Bool
handle_challenge sid nonce now sv = add_session sid nonce now (gc_locked now sv)

-- `verifier.Options` of `verifyAndRecord`.
abbrev pub options_of : Server → Session → Options
options_of sv s = record {
  expected_nonce = s.nonce;
  pin_pub_x = sv.pin_x;
  pin_pub_y = sv.pin_y;
  last_counter = s.last_counter;
  expected_prev_digest = none;
}

-- `res.Predicate.Counter`, which is read only if `res.OK`.
abbrev pub counter_of : VerifyResult → ℕ
counter_of r = elim r.predicate [ none ↦ 0 | some p ↦ p.counter ]

-- What the second locked section decides: `ok`, `reason` and the counter of the session.
pub record Decision : Type 0 where
  pub passed : Bool
  pub note : Note
  pub counter : ℕ

-- The `switch` of `verifyAndRecord`.
unfoldable pub decide : Bool → VerifyResult → ℕ → Decision
decide live res last =
    if not live
    then record { passed = res.is_ok; note = from_gates res.reason; counter = last }
    else if res.is_ok && leb (counter_of res) last
    then record { passed = false; note = concurrent_replay (counter_of res) last; counter = last }
    else if res.is_ok
    then record { passed = true; note = from_gates res.reason; counter = counter_of res }
    else record { passed = false; note = from_gates res.reason; counter = last }

abbrev pub event_of : VerifyResult → Option EventName
event_of r = elim r.predicate [ none ↦ none | some p ↦ some (event_name p) ]

-- `len(s.pinX) > 0 && len(s.pinY) > 0`.
abbrev pub is_given : Option Bytes → Bool
is_given none = false
is_given (some xs) = ltb 0 (length xs)

abbrev pub proof_of : Server → Bundle → VerifyResult → Option ProofView
proof_of sv b r = elim r.predicate [
  | none ↦ none
  | some p ↦
      some (record { predicate = p; bundle = b; pinned = is_given sv.pin_x && is_given sv.pin_y })
]

-- `if live { … }`, after the counter of the `switch`.
unfoldable pub recorded : Server → Bundle → VerifyResult → Bool → Decision → Session → Session
recorded sv b res live d s =
    if live
    then record s {
      last_counter = d.counter;
      verdict = some (record {
        passed = d.passed;
        event = if d.passed then event_of res else none;
        note = d.note;
      });
      proof = if d.passed then proof_of sv b res else none;
    }
    else s

-- `*sess = s`.
unfoldable pub write : ℕ → Session → List Session → List Session
write ref s [] = []
write zero s (t ∷ rest) = s ∷ rest
write (suc ref) s (t ∷ rest) = t ∷ write ref s rest

abbrev pub is_some {ℓ} : {A : Type ℓ} → Option A → Bool
is_some none = false
is_some (some a) = true

-- The second locked section of `verifyAndRecord`, on the session that the handler's pointer leads
-- to. A pointer leads to a session always.
unfoldable pub commit_session :
    Server → Bytes → ℕ → Bundle → VerifyResult → Option Session → Server × Option Decision
commit_session sv sid ref b res none = (sv, none)
commit_session sv sid ref b res (some s) =
    let live = is_some (lookup sid sv.sessions) in
    let d = decide live res s.last_counter in
    (record sv { heap = write ref (recorded sv b res live d s) sv.heap }, some d)

unfoldable pub commit : Server → Bytes → ℕ → Bundle → VerifyResult → Server × Option Decision
commit sv sid ref b res = commit_session sv sid ref b res (get_elem? sv.heap ref)

-- What `handleStatus` answers.
pub data Status : Type 0 where
  unknown pending : Status
  done : Verdict → Option ProofView → Status

abbrev pub status_of : Option Session → Status
status_of none = unknown
status_of (some s) = elim s.verdict [ none ↦ pending | some v ↦ done v s.proof ]

-- `handleStatus`.
unfoldable pub handle_status : Bytes → Server → Status
handle_status sid sv = elim (lookup sid sv.sessions) [
  | none ↦ unknown
  | some ref ↦ status_of (get_elem? sv.heap ref)
]
