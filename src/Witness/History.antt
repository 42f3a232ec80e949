-- ===== src/Witness/History.antt =====
-- src/verifier/cmd/he-witness/main.go: the checkpoints that a witness cosigns in a run of polls,
-- whatever the log answers and whether or not signing succeeds.
pub mod Refine
use open_opticon.Common.{
  ℕ, zero, suc, ◌≡◌, ◌≢◌, ◌≤◌, ◌<◌, ◌⊎◌, refl, sym, subst, ◌∙◌, arith, inl, inr, Bool, true, false,
  not, ◌&&◌, Bool-cases, Option, none, some, Option-cases, List, [], ◌∷◌, length, ◌==◌, All,
}
use open_opticon.Common.Bytes.{Bytes, IsByte}
use open_opticon.Common.Results.{Error, Result, ok, err, root_not_32_bytes, Result-cases, >>=-eq-ok}
use open_opticon.Hex.{hex_decode, hex_encode, hex_decode-hex_encode}
use open_opticon.Crypto.{Crypto}
use open_opticon.Merkle.{Digest}
use open_opticon.Checkpoint.{
  Text, Checkpoint, checkpoint_size, checkpoint_root, parse_lines, parse_checkpoint, split_lines,
  trim_right,
}
use open_opticon.Witness.{
  WitnessState, Config, LogWorld, Acceptance, PollResult, refused, accepted, first_sight, unchanged,
  extension, root_of, hex_root, advance, sign_note, cosigned, accept, poll,
}
use open_opticon.Witness.Outcome.{
  IsFromLog, Outcome, failed, turned_away, kept, started, extended, poll-Outcome,
}
use open_opticon.Checkpoint.Parsed.{DecodesBytes, parse_lines-root}

-- The cosigned bodies, the last one first.
unfoldable pub noted : Result PollResult → List Bytes → List Bytes
noted (err e) h = h
noted (ok (refused why)) h = h
noted (ok (accepted reason body cosig)) h = body ∷ h

-- The states that polls lead to from `first`, with the bodies that were cosigned on the way.
pub data History (c : Crypto) (t : Text) (cfg : Config) (first : WitnessState)
    : WitnessState → List Bytes → Type 0 where
  begun : History c t cfg first first []
  polled :
      (w : LogWorld) {st : WitnessState} {h : List Bytes}
      → History c t cfg first st h
      → History c t cfg first (poll c t cfg w st).1 (noted (poll c t cfg w st).0 h)

-- `h` lists the property of every earlier element and the later one.
abbrev pub Descending : (Bytes → Bytes → Type 0) → List Bytes → Type 0
Descending R [] = Unit {0}
Descending R (b ∷ h) = All (R b) h × Descending R h

-- Whatever the two bodies state, `late` is not smaller, and of one size they state one root.
abbrev pub Supersedes : Text → Bytes → Bytes → Type 0
Supersedes t late early =
    (p q : Checkpoint)
    → parse_checkpoint t late ≡ ok p
    → parse_checkpoint t early ≡ ok q
    → (q.size ≤ p.size) × (q.size ≡ p.size → q.root ≡ p.root)

-- The body is a checkpoint of the log that the view of the witness does not contradict.
pub record IsBelow (c : Crypto) (t : Text) (cfg : Config) (st : WitnessState) (body : Bytes)
    : Type 0 where
  pub cp : Checkpoint
  pub view : Digest
  pub from : IsFromLog c t cfg body cp
  pub viewed : hex_root st.root ≡ ok view
  pub not_larger : cp.size ≤ st.size
  pub same_root : cp.size ≡ st.size → cp.root ≡ view

module _ (c : Crypto) (t : Text) (bytes : DecodesBytes t) (cfg : Config) where
  -- The state holds the root it was advanced to.
  pub hex_root-advance :
      (body : Bytes) (cp : Checkpoint)
      → IsFromLog c t cfg body cp
      → hex_root (advance cfg cp).root ≡ ok cp.root
  unfolding parse_checkpoint hex_root root_of advance
  hex_root-advance body cp from =
      let (b, l) = parse_lines-root t bytes (split_lines (trim_right body)) cp from.parsed in
      let y : (length cp.root == 32) ≡ true = ground arith in
      rw (hex_decode-hex_encode cp.root b, y) refl

  -- A note of an accepted body, and of a body whose signing failed.
  pub All-note :
      (P : Bytes → Type 0) (w : LogWorld) (reason : Acceptance) (body : Bytes) (h : List Bytes)
      → P body
      → All P h
      → All P (noted (ok (accept c cfg w reason body)) h)
  unfolding noted accept cosigned
  All-note P w reason body h p ps = elim (Result-cases (sign_note c w.sign body)) [
    | inl (sig, e) ↦ rw e (p, ps)
    | inr (e, n) ↦ rw n ps
  ]

  Descending-note :
      (R : Bytes → Bytes → Type 0) (w : LogWorld) (reason : Acceptance) (body : Bytes)
      (h : List Bytes)
      → All (R body) h
      → Descending R h
      → Descending R (noted (ok (accept c cfg w reason body)) h)
  unfolding noted accept cosigned
  Descending-note R w reason body h p ps = elim (Result-cases (sign_note c w.sign body)) [
    | inl (sig, e) ↦ rw e (p, ps)
    | inr (e, n) ↦ rw n ps
  ]

  -- The body is the view itself.
  at_view :
      (st : WitnessState) (body : Bytes) (cp : Checkpoint)
      → IsFromLog c t cfg body cp
      → hex_root st.root ≡ ok cp.root
      → cp.size ≡ st.size
      → IsBelow c t cfg st body
  at_view st body cp from r s = record {
    cp = cp;
    view = cp.root;
    from = from;
    viewed = r;
    not_larger = omega arith;
    same_root = λ e. refl;
  }

  -- What is below a view comes before a body that states the view.
  Supersedes-below :
      (st : WitnessState) (late early : Bytes)
      → (p : Checkpoint) → parse_checkpoint t late ≡ ok p
      → hex_root st.root ≡ ok p.root
      → p.size ≡ st.size
      → IsBelow c t cfg st early
      → Supersedes t late early
  Supersedes-below st late early p0 ep r s b p q hp hq =
      let same_p : p0 ≡ p = ground (arith, ep, hp) in
      let same_q : b.cp ≡ q = ground (arith, b.from.parsed, hq) in
      let same_r : b.view ≡ p0.root = ground (arith, b.viewed, r) in
      let o = b.not_larger in
      let f = b.same_root in rw (← same_p, ← same_q) (omega arith, λ e. f (e ∙ s) ∙ same_r)

  -- What is below a view is below every larger one.
  IsBelow-advance :
      (st : WitnessState) (body : Bytes) (cp : Checkpoint)
      → IsFromLog c t cfg body cp
      → st.size < cp.size
      → (early : Bytes) → IsBelow c t cfg st early
      → IsBelow c t cfg (advance cfg cp) early
  unfolding advance
  IsBelow-advance st body cp from lt early b =
      let o = b.not_larger in
      record {
        cp = b.cp;
        view = cp.root;
        from = b.from;
        viewed = hex_root-advance body cp from;
        not_larger = omega arith;
        same_root = λ e. absurd (omega arith);
      }

  -- With no view nothing has been cosigned.
  pub unseen :
      (st : WitnessState) (h : List Bytes) → st.root ≡ [] → All (IsBelow c t cfg st) h → h ≡ []
  unfolding hex_root root_of hex_decode
  unseen st [] e a = refl
  unseen st (b ∷ h) e (below, a) =
      let v = below.viewed in let v' : err root_not_32_bytes ≡ ok below.view = rw e at v in cc

  abbrev Kept : WitnessState → List Bytes → Type 0
  Kept st h = All (IsBelow c t cfg st) h × Descending (Supersedes t) h

  All-map :
      (P Q : Bytes → Type 0) → ((b : Bytes) → P b → Q b) → (h : List Bytes) → All P h → All Q h
  All-map P Q f [] a = tt
  All-map P Q f (b ∷ h) (p, a) = (f b p, All-map P Q f h a)

  -- A body that states the view is cosigned after what is below the view.
  Kept-note :
      (w : LogWorld) (reason : Acceptance) (st : WitnessState) (h : List Bytes) (body : Bytes)
      (cp : Checkpoint)
      → IsFromLog c t cfg body cp
      → hex_root st.root ≡ ok cp.root
      → cp.size ≡ st.size
      → Kept st h
      → Kept st (noted (ok (accept c cfg w reason body)) h)
  Kept-note w reason st h body cp from r s (a, d) = (
    All-note (IsBelow c t cfg st) w reason body h (at_view st body cp from r s) a,
    Descending-note (Supersedes t) w reason body h
        (All-map (IsBelow c t cfg st) (Supersedes t body)
          (λ b. Supersedes-below st body b cp from.parsed r s) h a)
        d,
  )

  Kept-step :
      (w : LogWorld) {st st' : WitnessState} {r : Result PollResult} (h : List Bytes)
      → Outcome c t cfg w st r st'
      → Kept st h
      → Kept st' (noted r h)
  unfolding noted advance
  Kept-step w h (failed e) k = k
  Kept-step w h (turned_away why) k = k
  Kept-step w {st} h (kept body cp from r s) k = Kept-note w unchanged st h body cp from r s k
  Kept-step w {st} h (started body cp from e) k =
      let none_yet = unseen st h e k.0 in
      rw none_yet (
        Kept-note w first_sight (advance cfg cp) [] body cp from (hex_root-advance body cp from)
          refl (tt, tt))
  Kept-step w {st} h (extended body cp old proof from r lt ds v) k =
      Kept-note w extension (advance cfg cp) h body cp from (hex_root-advance body cp from) refl (
        All-map (IsBelow c t cfg st) (IsBelow c t cfg (advance cfg cp))
            (IsBelow-advance st body cp from lt) h k.0,
        k.1,
      )

  History-Kept : {first st : WitnessState} {h : List Bytes} → History c t cfg first st h → Kept st h
  History-Kept begun = (tt, tt)
  History-Kept (polled w {st} {h} run) =
      Kept-step w h (poll-Outcome c t cfg w st) (History-Kept run)

  -- In every run of polls, every body that the witness cosigned is a checkpoint of the watched origin
  -- under the log's pinned key, not larger than the present view and with its root if it has its size;
  -- base64 decodes to bytes.
  pub cosigns-IsBelow :
      {first st : WitnessState} {h : List Bytes}
      → History c t cfg first st h
      → All (IsBelow c t cfg st) h
  cosigns-IsBelow run = (History-Kept run).0

  -- In every run of polls, whatever the log answers, the checkpoints that the witness cosigns never
  -- shrink, and two of one size state one root; base64 decodes to bytes.
  pub never_cosigns_fork :
      {first st : WitnessState} {h : List Bytes}
      → History c t cfg first st h
      → Descending (Supersedes t) h
  never_cosigns_fork run = (History-Kept run).1
