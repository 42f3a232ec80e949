-- ===== src/Witness/History/Refine.antt =====
-- src/verifier/cmd/he-witness/main.go: the log behind the checkpoints that a witness has cosigned.
use open_opticon.Common.{
  ℕ, ◌≡◌, ◌≤◌, ◌⊎◌, refl, sym, ap, ◌∙◌, arith, true, inl, inr, List, [], ◌∷◌, length, take,
  take_all, take-take, length-take, All,
}
use open_opticon.Common.Bytes.{Bytes}
use open_opticon.Common.Results.{Result, ok}
use open_opticon.Crypto.{Crypto}
use open_opticon.Merkle.{Digest, mth}
use open_opticon.Merkle.Sound.{IsDigest, Collision}
use open_opticon.Consistency.{verify_consistency}
use open_opticon.Consistency.Sound.{verify_consistency_sound}
use open_opticon.Checkpoint.{Text, Checkpoint, parse_checkpoint}
use open_opticon.Witness.{
  WitnessState, Config, LogWorld, Acceptance, PollResult, accept, first_sight, unchanged, extension,
  hex_root, advance,
}
use open_opticon.Witness.Outcome.{
  hex_root-IsDigest, IsFromLog, Outcome, failed, turned_away, kept, started, extended, poll-Outcome,
}
use open_opticon.Checkpoint.Parsed.{DecodesBytes}
use open_opticon.Witness.History.{
  History, begun, polled, noted, IsBelow, All-note, hex_root-advance, unseen, cosigns-IsBelow,
}

-- The body states the size and the root of a prefix of the log.
pub record IsPrefixOf (c : Crypto) (t : Text) (leaves : List Bytes) (body : Bytes) : Type 0 where
  pub cp : Checkpoint
  pub parsed : parse_checkpoint t body ≡ ok cp
  pub size : cp.size ≤ length leaves
  pub root : cp.root ≡ mth c (take cp.size leaves)

-- The view of the witness is the log.
pub record IsView (c : Crypto) (leaves : List Bytes) (st : WitnessState) : Type 0 where
  pub root : hex_root st.root ≡ ok (mth c leaves)
  pub size : st.size ≡ length leaves

module _ (c : Crypto) (sha256_length : (b : Bytes) → length (c.sha256 b) ≡ 32) (t : Text)
    (bytes : DecodesBytes t) (cfg : Config) where
  abbrev Prefixes : List Bytes → List Bytes → Type 0
  Prefixes leaves h = All (IsPrefixOf c t leaves) h

  whole_log :
      (leaves : List Bytes) (st : WitnessState) (body : Bytes) (cp : Checkpoint)
      → IsFromLog c t cfg body cp
      → hex_root st.root ≡ ok cp.root
      → cp.size ≡ st.size
      → IsView c leaves st
      → IsPrefixOf c t leaves body
  whole_log leaves st body cp from r s v =
      let vs = v.size in
      let same : cp.root ≡ mth c leaves = ground (arith, r, v.root) in
      record {
        cp = cp;
        parsed = from.parsed;
        size = omega arith;
        root = same ∙ ap (mth c) (sym (take_all cp.size leaves (omega arith)));
      }

  prefix_of_prefix :
      (leaves : List Bytes) (m : ℕ) (h : List Bytes)
      → m ≤ length leaves
      → Prefixes (take m leaves) h
      → Prefixes leaves h
  prefix_of_prefix leaves m [] le a = tt
  prefix_of_prefix leaves m (b ∷ h) le (p, a) =
      let sz = p.size in
      let l = length-take m leaves in
      let small : p.cp.size ≤ m = omega arith in
      (
        record {
          cp = p.cp;
          parsed = p.parsed;
          size = omega arith;
          root = p.root ∙ ap (mth c) (take-take p.cp.size m leaves small);
        },
        prefix_of_prefix leaves m h le a,
      )

  -- A body that states the view, cosigned after prefixes of the log.
  with_view :
      (w : LogWorld) (reason : Acceptance) (leaves : List Bytes) (h : List Bytes) (body : Bytes)
      → IsPrefixOf c t leaves body
      → Prefixes leaves h ⊎ Collision c
      → Prefixes leaves (noted (ok (accept c cfg w reason body)) h) ⊎ Collision c
  with_view w reason leaves h body p (inl a) =
      inl (All-note c t bytes cfg (IsPrefixOf c t leaves) w reason body h p a)
  with_view w reason leaves h body p (inr x) = inr x

  -- What is a prefix of the old view is one of the new view, which a proof ties to it.
  through_proof :
      (leaves : List Bytes) (st : WitnessState) (h : List Bytes) (cp : Checkpoint) (old : Digest)
      (proof : List Digest)
      → hex_root st.root ≡ ok old
      → All IsDigest proof
      → verify_consistency c st.size cp.size proof old cp.root ≡ true
      → cp.size ≡ length leaves
      → cp.root ≡ mth c leaves
      → ((shorter : List Bytes) → IsView c shorter st → Prefixes shorter h ⊎ Collision c)
      → Prefixes leaves h ⊎ Collision c
  through_proof leaves st h cp old proof r ds good es er ih =
      let good' : verify_consistency c st.size (length leaves) proof old (mth c leaves) ≡ true =
        rw (es, er) at good in
      let (le, shown) =
        verify_consistency_sound c sha256_length leaves st.size proof old
          (hex_root-IsDigest st.root old r).1 ds good' in
      elim shown [
        | inr x ↦ inr x
        | inl e ↦
            let l = length-take st.size leaves in
            let v : IsView c (take st.size leaves) st = record {
              root = rw (← e) r;
              size = omega arith;
            } in
            elim (ih (take st.size leaves) v) [
              | inr x ↦ inr x
              | inl a ↦ inl (prefix_of_prefix leaves st.size h le a)
            ]
      ]

  -- A step of a run whose earlier part shows prefixes of every log that its view is.
  step_refines :
      (w : LogWorld) {st st' : WitnessState} {r : Result PollResult} (h : List Bytes)
      → Outcome c t cfg w st r st'
      → All (IsBelow c t cfg st) h
      → ((old : List Bytes) → IsView c old st → Prefixes old h ⊎ Collision c)
      → (leaves : List Bytes) → IsView c leaves st'
      → Prefixes leaves (noted r h) ⊎ Collision c
  unfolding noted advance
  step_refines w h (failed e) below ih leaves v = ih leaves v
  step_refines w h (turned_away why) below ih leaves v = ih leaves v
  step_refines w {st} h (kept body cp from r s) below ih leaves v =
      with_view w unchanged leaves h body (whole_log leaves st body cp from r s v) (ih leaves v)
  step_refines w {st} h (started body cp from e) below ih leaves v =
      let p =
        whole_log leaves (advance cfg cp) body cp from (hex_root-advance c t bytes cfg body cp from)
          refl v in
      let none_yet = unseen c t bytes cfg st h e below in
      rw none_yet (with_view w first_sight leaves [] body p (inl tt))
  step_refines w {st} h (extended body cp old proof from r lt ds good) below ih leaves v =
      let now = hex_root-advance c t bytes cfg body cp from in
      let p = whole_log leaves (advance cfg cp) body cp from now refl v in
      let same : cp.root ≡ mth c leaves = ground (arith, now, v.root) in
      with_view w extension leaves h body p
        (through_proof leaves st h cp old proof r ds good v.size same ih)

  -- When the view of the witness is the root of a log, every checkpoint that it cosigned before is the
  -- size and the root of a prefix of that log, or there is a collision of SHA-256; SHA-256 gives 32
  -- bytes and base64 decodes to bytes.
  pub cosigned_prefixes :
      {first st : WitnessState} {h : List Bytes}
      → History c t cfg first st h
      → (leaves : List Bytes) → IsView c leaves st
      → All (IsPrefixOf c t leaves) h ⊎ Collision c
  cosigned_prefixes begun leaves v = inl tt
  cosigned_prefixes (polled w {st} {h} run) leaves v =
      step_refines w h (poll-Outcome c t cfg w st) (cosigns-IsBelow c t bytes cfg run)
        (λ old e. cosigned_prefixes run old e) leaves v
