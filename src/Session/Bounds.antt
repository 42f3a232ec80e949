-- ===== src/Session/Bounds.antt =====
-- src/verifier/cmd/he-challenge/main.go: the size of the session map and what the status page shows,
-- in any interleaving.
use open_opticon.Common.{
  ℕ, zero, suc, ◌≡◌, ◌≤◌, ◌<◌, refl, ap, subst, arith, Bool, true, false, Bool-cases, inl, inr,
  Option, none, some, Option-cases, List, [], ◌∷◌, ◌++◌, length, length-append, leb, get_elem?, All,
  All-append, All-append_left, All-append_right,
}
use open_opticon.Common.Bytes.{Bytes, bytes_eq}
use open_opticon.Crypto.{Crypto}
use open_opticon.Bundle.{VerifyResult, Options, Bundle, verify_bundle}
use open_opticon.Bundle.Accept.{verify_bundle_iff, verify_bundle-genuine}
use open_opticon.Session.{
  Session, Server, Verdict, max_sessions, lookup, store, is_expired, collect, gc_locked,
  new_session, add_session, handle_challenge, options_of, decide, proof_of, recorded, write,
  is_some, commit_session, commit,
}
use open_opticon.Session.Steps.{
  Request, found, checked, World, Step, challenge, find, check, finish, committed, Reachable, start,
  next,
}

abbrev pub has_passed : Option Verdict → Bool
has_passed none = false
has_passed (some v) = v.passed

-- A session shows a proof exactly if its verdict is a pass.
abbrev pub IsHonest : Session → Type 0
IsHonest s = is_some s.proof ≡ has_passed s.verdict

-- The session map holds at most 10000 sessions, and each entry leads to a session.
pub record IsBounded (sv : Server) : Type 0 where
  pub bounded : length sv.sessions ≤ max_sessions
  pub points : All (λ (e : Bytes × ℕ). e.1 < length sv.heap) sv.sessions
  pub honest : All IsHonest sv.heap

-- A result of `VerifyBundle` that is OK has a predicate.
abbrev HasPredicate : VerifyResult → Type 0
HasPredicate r = r.is_ok ≡ true → is_some r.predicate ≡ true

abbrev IsResult : Request → Type 0
IsResult (found sid ref b) = Unit {0}
IsResult (checked sid ref b res) = HasPredicate res

HasPredicate-verify_bundle :
    (c : Crypto) (b : Bundle) (opt : Options) → HasPredicate (verify_bundle c b opt)
HasPredicate-verify_bundle c b opt h =
    let g = (verify_bundle_iff c b opt).0 h in rw (verify_bundle-genuine c b opt g) refl

length-collect :
    (now : ℕ) (sv : Server) (l : List (Bytes × ℕ)) → length (collect now sv l) ≤ length l
unfolding collect
length-collect now sv [] = omega arith
length-collect now sv (e ∷ l) = let ih = length-collect now sv l in ground (arith, ih)

All-collect :
    (P : Bytes × ℕ → Type 0) (now : ℕ) (sv : Server) (l : List (Bytes × ℕ))
    → All P l
    → All P (collect now sv l)
unfolding collect
All-collect P now sv [] a = tt
All-collect P now sv (e ∷ l) (p, a) =
    elim (Bool-cases (is_expired now sv (get_elem? sv.heap e.1))) [
      | inl y ↦ rw y (All-collect P now sv l a)
      | inr n ↦ rw n (p, All-collect P now sv l a)
    ]

length-store :
    (sid : Bytes) (ref : ℕ) (l : List (Bytes × ℕ)) → length (store sid ref l) ≤ suc (length l)
unfolding store
length-store sid ref [] = omega arith
length-store sid ref (e ∷ l) = let ih = length-store sid ref l in ground (arith, ih)

All-store :
    (P : Bytes × ℕ → Type 0) (sid : Bytes) (ref : ℕ) (l : List (Bytes × ℕ))
    → P (sid, ref)
    → All P l
    → All P (store sid ref l)
unfolding store
All-store P sid ref [] p a = (p, tt)
All-store P sid ref (e ∷ l) p (q, a) = elim (Bool-cases (bytes_eq e.0 sid)) [
  | inl y ↦ rw y (p, a)
  | inr n ↦ rw n (q, All-store P sid ref l p a)
]

points_grow :
    (m n : ℕ) (l : List (Bytes × ℕ))
    → m ≤ n
    → All (λ (e : Bytes × ℕ). e.1 < m) l
    → All (λ (e : Bytes × ℕ). e.1 < n) l
points_grow m n [] le a = tt
points_grow m n (e ∷ l) le (p, a) = (omega arith, points_grow m n l le a)

length-write :
    (ref : ℕ) (s : Session) (heap : List Session) → length (write ref s heap) ≡ length heap
unfolding write
length-write ref s [] = refl
length-write zero s (t ∷ heap) = refl
length-write (suc ref) s (t ∷ heap) = ap suc (length-write ref s heap)

All-write :
    (P : Session → Type 0) (ref : ℕ) (s : Session) (heap : List Session)
    → P s
    → All P heap
    → All P (write ref s heap)
unfolding write
All-write P ref s [] p a = tt
All-write P zero s (t ∷ heap) p (q, a) = (p, a)
All-write P (suc ref) s (t ∷ heap) p (q, a) = (q, All-write P ref s heap p a)

All-get_elem? :
    (P : Session → Type 0) (heap : List Session) (i : ℕ) (s : Session)
    → All P heap
    → get_elem? heap i ≡ some s
    → P s
All-get_elem? P [] i s a h = cc
All-get_elem? P (t ∷ heap) zero s (p, a) h = let e : t ≡ s = ground arith in rw (← e) p
All-get_elem? P (t ∷ heap) (suc i) s (p, a) h = All-get_elem? P heap i s a h

IsBounded-gc_locked : (now : ℕ) (sv : Server) → IsBounded sv → IsBounded (gc_locked now sv)
unfolding gc_locked
IsBounded-gc_locked now sv k =
    let b = k.bounded in
    record {
      bounded = omega (arith, length-collect now sv sv.sessions);
      points = All-collect (λ (e : Bytes × ℕ). e.1 < length sv.heap) now sv sv.sessions k.points;
      honest = k.honest;
    }

IsBounded-add_session :
    (sid nonce : Bytes) (now : ℕ) (sv : Server)
    → IsBounded sv
    → IsBounded (add_session sid nonce now sv).0
unfolding add_session
IsBounded-add_session sid nonce now sv k =
    elim (Bool-cases (leb max_sessions (length sv.sessions))) [
      | inl y ↦ rw y k
      | inr n ↦
          let small : length sv.sessions < 10000 = ground arith in
          let more = length-append sv.heap (new_session nonce now ∷ []) in
          rw n (record {
            bounded = omega (arith, length-store sid (length sv.heap) sv.sessions);
            points =
                All-store (λ (e : Bytes × ℕ). e.1 < length (sv.heap ++ new_session nonce now ∷ []))
                  sid (length sv.heap) sv.sessions (omega arith)
                  (points_grow (length sv.heap) (length (sv.heap ++ new_session nonce now ∷ []))
                    sv.sessions (omega arith) k.points);
            honest = All-append IsHonest sv.heap (new_session nonce now ∷ []) k.honest (refl, tt);
          })
    ]

decide_ok :
    (res : VerifyResult) (last : ℕ) → (decide true res last).passed ≡ true → res.is_ok ≡ true
unfolding decide
decide_ok res last h = ground arith

proof_of-some :
    (sv : Server) (b : Bundle) (res : VerifyResult)
    → is_some res.predicate ≡ true
    → is_some (proof_of sv b res) ≡ true
proof_of-some sv b res h = elim (Option-cases res.predicate) [
  | inl n ↦ let h' = rw n at h in cc
  | inr (p, e) ↦ rw e refl
]

-- What is recorded of a result that `VerifyBundle` gave is honest.
IsHonest-recorded :
    (sv : Server) (b : Bundle) (res : VerifyResult) (live : Bool) (s : Session)
    → HasPredicate res
    → IsHonest s
    → IsHonest (recorded sv b res live (decide live res s.last_counter) s)
unfolding recorded
IsHonest-recorded sv b res false s p h = h
IsHonest-recorded sv b res true s p h = elim (Bool-cases (decide true res s.last_counter).passed) [
  | inl y ↦ rw y (proof_of-some sv b res (p (decide_ok res s.last_counter y)))
  | inr n ↦ rw n refl
]

IsBounded-commit :
    (sv : Server) (sid : Bytes) (ref : ℕ) (b : Bundle) (res : VerifyResult)
    → HasPredicate res
    → IsBounded sv
    → IsBounded (commit sv sid ref b res).0
unfolding commit commit_session
IsBounded-commit sv sid ref b res p k = elim (Option-cases (get_elem? sv.heap ref)) [
  | inl n ↦ rw n k
  | inr (s, at) ↦
      let live = is_some (lookup sid sv.sessions) in
      let d = decide live res s.last_counter in
      let after = recorded sv b res live d s in
      let same = length-write ref after sv.heap in
      let honest =
        IsHonest-recorded sv b res live s p (All-get_elem? IsHonest sv.heap ref s k.honest at) in
      rw at (record {
        bounded = k.bounded;
        points =
            points_grow (length sv.heap) (length (write ref after sv.heap)) sv.sessions
              (omega arith) k.points;
        honest = All-write IsHonest ref after sv.heap honest k.honest;
      })
]

-- The server is bounded, and each result under way was given by `VerifyBundle`.
record IsKept (w : World) : Type 0 where
  server : IsBounded w.server
  results : All IsResult w.requests

IsKept-next : {c : Crypto} {w v : World} → Step c w v → IsKept w → IsKept v
unfolding handle_challenge committed
IsKept-next (challenge sid nonce now {w}) k = record {
  server =
      IsBounded-add_session sid nonce now (gc_locked now w.server)
        (IsBounded-gc_locked now w.server k.server);
  results = k.results;
}
IsKept-next (find sid ref b {w} at) k = record { server = k.server; results = (tt, k.results) }
IsKept-next {c} (check sid ref b before after s {w} rq at) k =
    let all = subst (All IsResult) rq k.results in
    let left = All-append_left IsResult before (found sid ref b ∷ after) all in
    let (u, right) = All-append_right IsResult before (found sid ref b ∷ after) all in
    record {
      server = k.server;
      results =
          All-append IsResult before
            (checked sid ref b (verify_bundle c b (options_of w.server s)) ∷ after) left
            (HasPredicate-verify_bundle c b (options_of w.server s), right);
    }
IsKept-next (finish sid ref b res before after {w} rq) k =
    let all = subst (All IsResult) rq k.results in
    let left = All-append_left IsResult before (checked sid ref b res ∷ after) all in
    let (p, right) = All-append_right IsResult before (checked sid ref b res ∷ after) all in
    record {
      server = IsBounded-commit w.server sid ref b res p k.server;
      results = All-append IsResult before after left right;
    }

Reachable-IsKept :
    {c : Crypto} {ttl : ℕ} {pin_x pin_y : Option Bytes} {w : World}
    → Reachable c ttl pin_x pin_y w
    → IsKept w
Reachable-IsKept start = record {
  server = record { bounded = omega arith; points = tt; honest = tt };
  results = tt;
}
Reachable-IsKept (next r s) = IsKept-next s (Reachable-IsKept r)

-- In every interleaving of challenge and attest requests the session map holds at most 10000
-- sessions, each entry leads to a session, and every session holds a proof to show exactly if its
-- verdict is a pass.
pub Reachable-IsBounded :
    {c : Crypto} {ttl : ℕ} {pin_x pin_y : Option Bytes} {w : World}
    → Reachable c ttl pin_x pin_y w
    → IsBounded w.server
Reachable-IsBounded r = (Reachable-IsKept r).server
