-- ===== src/Session/Steps.antt =====
-- src/verifier/cmd/he-challenge/main.go: the handlers as they interleave. Each locked section is
-- one step, and any step may come between two of one request.
use open_opticon.Common.{
  ℕ, ◌≡◌, Bool, Option, none, some, List, [], ◌∷◌, ◌++◌, get_elem?, if◌then◌else◌,
}
use open_opticon.Common.Bytes.{Bytes}
use open_opticon.Crypto.{Crypto}
use open_opticon.Bundle.{VerifyResult, Bundle, verify_bundle}
use open_opticon.Session.{
  Session, Server, Decision, lookup, handle_challenge, options_of, commit, is_some,
}

-- A request of `handleAttest` or `handleSimulate` in progress: with its pointer to the session, and
-- then with the result of `VerifyBundle` on the counter that its snapshot read.
pub data Request : Type 0 where
  found : Bytes → ℕ → Bundle → Request
  checked : Bytes → ℕ → Bundle → VerifyResult → Request

-- A PASS answered while its session was live: the session and the counter of the predicate.
pub record Pass : Type 0 where
  pub ref : ℕ
  pub counter : ℕ

pub record World : Type 0 where
  pub server : Server
  pub requests : List Request
  pub passes : List Pass

-- `case ok` of the `switch`: the pass of a commit, if its session is live.
unfoldable pub passes_of : Bool → ℕ → Option Decision → List Pass → List Pass
passes_of live ref none ps = ps
passes_of live ref (some d) ps =
    if live then (if d.passed then record { ref = ref; counter = d.counter } ∷ ps else ps) else ps

unfoldable pub committed : World → List Request → Bytes → ℕ → Bundle → VerifyResult → World
committed w others sid ref b res =
    let r = commit w.server sid ref b res in
    record {
      server = r.0;
      requests = others;
      passes = passes_of (is_some (lookup sid w.server.sessions)) ref r.1 w.passes;
    }

pub data Step (c : Crypto) : World → World → Type 0 where
  -- `handleChallenge`.
  challenge :
      (sid nonce : Bytes) (now : ℕ) {w : World}
      → Step c w (record w { server = (handle_challenge sid nonce now w.server).0 })
  -- `sess := s.sessions[sid]` finds a session.
  find :
      (sid : Bytes) (ref : ℕ) (b : Bundle) {w : World}
      → lookup sid w.server.sessions ≡ some ref
      → Step c w (record w { requests = found sid ref b ∷ w.requests })
  -- The first locked section of `verifyAndRecord`, and `VerifyBundle` on what it read.
  check :
      (sid : Bytes) (ref : ℕ) (b : Bundle) (before after : List Request) (s : Session) {w : World}
      → w.requests ≡ before ++ found sid ref b ∷ after
      → get_elem? w.server.heap ref ≡ some s
      → Step c w (record w {
        requests = before ++ checked sid ref b (verify_bundle c b (options_of w.server s)) ∷ after;
      })
  -- The second locked section.
  finish :
      (sid : Bytes) (ref : ℕ) (b : Bundle) (res : VerifyResult) (before after : List Request)
      {w : World}
      → w.requests ≡ before ++ checked sid ref b res ∷ after
      → Step c w (committed w (before ++ after) sid ref b res)

-- A server that has just started.
abbrev pub initial : ℕ → Option Bytes → Option Bytes → World
initial ttl pin_x pin_y = record {
  server = record { heap = []; sessions = []; ttl = ttl; pin_x = pin_x; pin_y = pin_y };
  requests = [];
  passes = [];
}

pub data Reachable (c : Crypto) (ttl : ℕ) (pin_x pin_y : Option Bytes) : World → Type 0 where
  start : Reachable c ttl pin_x pin_y (initial ttl pin_x pin_y)
  next : {w v : World} → Reachable c ttl pin_x pin_y w → Step c w v → Reachable c ttl pin_x pin_y v
