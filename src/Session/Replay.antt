-- ===== src/Session/Replay.antt =====
-- src/verifier/cmd/he-challenge/main.go: the counters of a session's passes, in any interleaving.
use open_opticon.Common.{
  ℕ, zero, suc, ◌≤◌, ◌<◌, ◌≡◌, refl, sym, ap, ◌∙◌, arith, Bool, true, false, Option, none, some,
  List, [], ◌∷◌, ◌++◌, Bool-cases, inl, inr, length, leb, get_elem?, All, ℕ_discrete,
}
use open_opticon.Common.Bytes.{Bytes}
use open_opticon.Crypto.{Crypto}
use open_opticon.Bundle.{VerifyResult, Bundle}
use open_opticon.Session.{
  Session, Server, lookup, handle_challenge, add_session, gc_locked, commit, commit_session,
  is_some, decide, recorded, write, new_session,
}
use open_opticon.Session.Steps.{
  World, Pass, Step, challenge, find, check, finish, committed, passes_of, Reachable, start, next,
}

pub get_elem?-append :
    (xs ys : List Session) (i : ℕ) (s : Session)
    → get_elem? xs i ≡ some s
    → get_elem? (xs ++ ys) i ≡ some s
get_elem?-append [] ys i s h = cc
get_elem?-append (x ∷ xs) ys zero s h = h
get_elem?-append (x ∷ xs) ys (suc i) s h = get_elem?-append xs ys i s h

pub write_same :
    (l : List Session) (i : ℕ) (s t : Session)
    → get_elem? l i ≡ some s
    → get_elem? (write i t l) i ≡ some t
unfolding write
write_same [] i s t h = cc
write_same (x ∷ l) zero s t h = refl
write_same (x ∷ l) (suc i) s t h = write_same l i s t h

pub write_other :
    (l : List Session) (i j : ℕ) (t : Session)
    → (i ≡ j → ⊥)
    → get_elem? (write i t l) j ≡ get_elem? l j
unfolding write
write_other [] i j t h = refl
write_other (x ∷ l) zero zero t h = absurd (h refl)
write_other (x ∷ l) zero (suc j) t h = refl
write_other (x ∷ l) (suc i) zero t h = refl
write_other (x ∷ l) (suc i) (suc j) t h = write_other l i j t (λ e. h (ap suc e))

-- The session of the pass has counted up to the counter of the pass.
abbrev pub Covered : List Session → Pass → Type 0
Covered heap q = (s : Session) × (get_elem? heap q.ref ≡ some s) × (q.counter ≤ s.last_counter)

-- Newest first: each pass has a counter above those of all the earlier passes of its session.
abbrev pub Increasing : List Pass → Type 0
Increasing [] = Unit {0}
Increasing (q ∷ ps) = All (λ (p : Pass). p.ref ≡ q.ref → p.counter < q.counter) ps × Increasing ps

pub decide_grows :
    (live : Bool) (res : VerifyResult) (last : ℕ) → last ≤ (decide live res last).counter
unfolding decide
decide_grows live res last = ground arith

pub decide_passes :
    (res : VerifyResult) (last : ℕ)
    → (decide true res last).passed ≡ true
    → last < (decide true res last).counter
unfolding decide
decide_passes res last h = ground arith

recorded_grows :
    (sv : Server) (b : Bundle) (res : VerifyResult) (live : Bool) (s : Session)
    → s.last_counter ≤ (recorded sv b res live (decide live res s.last_counter) s).last_counter
unfolding recorded
recorded_grows sv b res true s = decide_grows true res s.last_counter
recorded_grows sv b res false s = omega arith

Covered-append :
    (xs ys : List Session) (ps : List Pass) → All (Covered xs) ps → All (Covered (xs ++ ys)) ps
Covered-append xs ys [] h = tt
Covered-append xs ys (q ∷ ps) h =
    let (s, at, le) = h.0 in
    ((s, get_elem?-append xs ys q.ref s at, le), Covered-append xs ys ps h.1)

Covered-write :
    (l : List Session) (i : ℕ) (s t : Session) (ps : List Pass)
    → get_elem? l i ≡ some s
    → s.last_counter ≤ t.last_counter
    → All (Covered l) ps
    → All (Covered (write i t l)) ps
Covered-write l i s t [] at up h = tt
Covered-write l i s t (q ∷ ps) at up h =
    let (u, at_u, le) = h.0 in
    let rest = Covered-write l i s t ps at up h.1 in
    elim (ℕ_discrete i q.ref) [
      | yes e ↦
          let same : some s ≡ some u = sym at ∙ ap (get_elem? l) e ∙ at_u in
          let eq : s ≡ u = cc in
          ((t, ap (get_elem? (write i t l)) (sym e) ∙ write_same l i s t at, ground arith), rest)
      | no ne ↦ ((u, write_other l i q.ref t ne ∙ at_u, le), rest)
    ]

-- What the passes of a session's counter are, that the session has counted up to `n`.
below_new :
    (l : List Session) (i n : ℕ) (s : Session) (ps : List Pass)
    → get_elem? l i ≡ some s
    → s.last_counter < n
    → All (Covered l) ps
    → All (λ (p : Pass). p.ref ≡ i → p.counter < n) ps
below_new l i n s [] at lt h = tt
below_new l i n s (q ∷ ps) at lt h =
    let (u, at_u, le) = h.0 in
    (
      (λ e.
          let same : some s ≡ some u = sym at ∙ ap (get_elem? l) (sym e) ∙ at_u in
          let eq : s ≡ u = cc in ground arith),
      below_new l i n s ps at lt h.1,
    )

abbrev pub Ordered : World → Type 0
Ordered w = All (Covered w.server.heap) w.passes × Increasing w.passes

settled :
    (live : Bool) (sv : Server) (b : Bundle) (res : VerifyResult) (s : Session) (l : List Session)
    (ref : ℕ) (ps : List Pass)
    → get_elem? l ref ≡ some s
    → All (Covered l) ps
    → Increasing ps
    → let d = decide live res s.last_counter in
      let qs = passes_of live ref (some d) ps in
      All (Covered (write ref (recorded sv b res live d s) l)) qs × Increasing qs
unfolding passes_of decide
settled false sv b res s l ref ps at cov inc =
    (Covered-write l ref s _ ps at (recorded_grows sv b res false s) cov, inc)
settled true sv b res s l ref ps at cov inc =
    let t = recorded sv b res true (decide true res s.last_counter) s in
    let old = Covered-write l ref s t ps at (recorded_grows sv b res true s) cov in
    elim (Bool-cases (decide true res s.last_counter).passed) [
      | inl e ↦
          let up = decide_passes res s.last_counter e in
          let new = below_new l ref (decide true res s.last_counter).counter s ps at up cov in
          rw e (((t, write_same l ref s t at, unfold recorded in omega arith), old), (new, inc))
      | inr e ↦ rw e (old, inc)
    ]

commit_Ordered :
    (sv : Server) (sid : Bytes) (ref : ℕ) (b : Bundle) (res : VerifyResult) (o : Option Session)
    (ps : List Pass)
    → get_elem? sv.heap ref ≡ o
    → All (Covered sv.heap) ps
    → Increasing ps
    → let r = commit_session sv sid ref b res o in
      let qs = passes_of (is_some (lookup sid sv.sessions)) ref r.1 ps in
      All (Covered r.0.heap) qs × Increasing qs
unfolding commit_session
commit_Ordered sv sid ref b res none ps at cov inc = unfold passes_of in (cov, inc)
commit_Ordered sv sid ref b res (some s) ps at cov inc =
    settled (is_some (lookup sid sv.sessions)) sv b res s sv.heap ref ps at cov inc

challenge-Covered :
    (sid nonce : Bytes) (now : ℕ) (sv : Server) (ps : List Pass)
    → All (Covered sv.heap) ps
    → All (Covered (handle_challenge sid nonce now sv).0.heap) ps
unfolding handle_challenge add_session gc_locked
challenge-Covered sid nonce now sv ps cov =
    elim (Bool-cases (leb 10000 (length (gc_locked now sv).sessions))) [
      | inl e ↦ rw e cov
      | inr e ↦ rw e (Covered-append sv.heap (new_session nonce now ∷ []) ps cov)
    ]

-- One step of any request keeps the order.
Step-Ordered : (c : Crypto) {w v : World} → Step c w v → Ordered w → Ordered v
unfolding committed commit
Step-Ordered c {w} (challenge sid nonce now) h =
    (challenge-Covered sid nonce now w.server w.passes h.0, h.1)
Step-Ordered c (find sid ref b at) h = h
Step-Ordered c (check sid ref b before after s e at) h = h
Step-Ordered c {w} (finish sid ref b res before after e) h =
    commit_Ordered w.server sid ref b res (get_elem? w.server.heap ref) w.passes refl h.0 h.1

reachable-Ordered :
    (c : Crypto) (ttl : ℕ) (pin_x pin_y : Option Bytes) {w : World}
    → Reachable c ttl pin_x pin_y w
    → Ordered w
reachable-Ordered c ttl pin_x pin_y start = (tt, tt)
reachable-Ordered c ttl pin_x pin_y (next r s) =
    Step-Ordered c s (reachable-Ordered c ttl pin_x pin_y r)

-- However the locked sections of the requests interleave, each pass that a live session answers has
-- a counter above those of all the earlier passes of that session.
pub Reachable-Increasing :
    (c : Crypto) (ttl : ℕ) (pin_x pin_y : Option Bytes) {w : World}
    → Reachable c ttl pin_x pin_y w
    → Increasing w.passes
Reachable-Increasing c ttl pin_x pin_y r = (reachable-Ordered c ttl pin_x pin_y r).1
