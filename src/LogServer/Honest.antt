-- ===== src/LogServer/Honest.antt =====
-- src/verifier/cmd/he-logd/main.go with cmd/he-witness/main.go: a witness that polls an honest log.
use open_opticon.Common.{
  ℕ, ◌≤◌, ◌<◌, ◌^◌, ◌≡◌, ◌≢◌, ◌⊎◌, refl, sym, ap, subst, ◌∙◌, arith, inl, inr, true, false,
  Bool-cases, some, List, [], map, length, take, take_all, ltb, ◌==◌, All,
}
use open_opticon.Common.Bytes.{Bytes, IsByte, bytes_eq, bytes_eq_refl}
use open_opticon.Common.Results.{Result, ok}
use open_opticon.Hex.{hex_decode, hex_encode, hex_decode-hex_encode}
use open_opticon.Crypto.{Crypto}
use open_opticon.Merkle.{Digest, mth, consistency_proof}
use open_opticon.Consistency.Complete.{verify_consistency-consistency_proof}
use open_opticon.Checkpoint.{
  Text, Format, Checkpoint, Cosignature, checkpoint_body, parse_checkpoint, verify_checkpoint_sig,
}
use open_opticon.Checkpoint.Lines.{IsLine}
use open_opticon.Checkpoint.RoundTrip.{IsInverse, IsPrintable, parse_checkpoint-checkpoint_body}
use open_opticon.Witness.{
  PollDecision, move_to, keep, Config, LogWorld, WitnessState, PollResult, accepted, Acceptance,
  first_sight, unchanged, extension, hex_root, sign_note, advance, accept, cosigned, decide_poll,
  decide_against, decide_extension, carry_out, poll, poll_fetched, poll_signed, poll_parsed,
}
use open_opticon.Witness.History.Refine.{IsView}
use open_opticon.LogServer.{
  current, checkpoint_answer, handle_checkpoint, consistency_answer, handle_consistency,
  fetched_checkpoint, fetched_consistency, served,
}
use open_opticon.LogServer.Digests.{
  Is32-mth, consistency_proof-some, decode_proof-map, hex_root-hex_encode,
}

-- The honest log: what its server needs to be able to sign and print.
pub record CanServe (c : Crypto) (t : Text) (f : Format) (cfg : Config) (leaves : List Bytes)
    (log_sign witness_sign : Bytes → Result (ℕ × ℕ)) : Type 0 where
  pub inverse : IsInverse t f
  pub origin : IsLine cfg.origin
  pub size : length leaves < 2 ^ 63
  pub not_empty : 1 ≤ length leaves
  pub sig : Bytes
  pub signed : sign_note c log_sign (checkpoint_body f (current c cfg.origin leaves)) ≡ ok sig
  pub sig_bytes : All IsByte sig
  pub verified :
      verify_checkpoint_sig c
        (checkpoint_body f (current c cfg.origin leaves))
        sig
        cfg.log_x
        cfg.log_y
      ≡ true
  pub cosig : Bytes
  pub cosigns :
      sign_note c witness_sign (checkpoint_body f (current c cfg.origin leaves)) ≡ ok cosig

-- The witness has seen nothing, or a prefix of the log.
pub record SawPrefix (c : Crypto) (leaves : List Bytes) (st : WitnessState) : Type 0 where
  pub size : st.size ≤ length leaves
  pub view : (st.root ≡ []) ⊎ (hex_root st.root ≡ ok (mth c (take st.size leaves)))

-- What is read of the file for the proof, if the witness asks for one, is what was read for the
-- checkpoint.
abbrev pub NotAppended : List Bytes → Result (List Bytes) → WitnessState → Type 0
NotAppended leaves later st = st.root ≢ [] → st.size < length leaves → later ≡ ok leaves

-- The poll accepts, and the state it leaves is the log.
abbrev pub Accepts : Crypto → List Bytes → Bytes → Result PollResult × WitnessState → Type 0
Accepts c leaves body p =
    (reason : Acceptance) × (cosig : Cosignature) × (p.0 ≡ ok (accepted reason body cosig))
    × IsView c leaves p.1

abbrev own_cosig : Config → Bytes → Cosignature
own_cosig cfg sig = record { witness = cfg.name; pub_x = cfg.pub_x; pub_y = cfg.pub_y; sig = sig }

accept_signed :
    (c : Crypto) (cfg : Config) (w : LogWorld) (reason : Acceptance) (body cosig : Bytes)
    → sign_note c w.sign body ≡ ok cosig
    → accept c cfg w reason body ≡ accepted reason body (own_cosig cfg cosig)
unfolding accept cosigned
accept_signed c cfg w reason body cosig e = rw e refl

poll_fetched_is :
    (c : Crypto) (t : Text) (cfg : Config) (w : LogWorld) (st : WitnessState) (body sig : Bytes)
    (cp : Checkpoint)
    → hex_decode (hex_encode sig) ≡ ok sig
    → verify_checkpoint_sig c body sig cfg.log_x cfg.log_y ≡ true
    → parse_checkpoint t body ≡ ok cp
    → poll_fetched c t cfg w st (ok (record { body = body; sig = hex_encode sig }))
      ≡ carry_out c cfg w st body cp (decide_poll c cfg w st cp)
unfolding poll_fetched poll_signed poll_parsed
poll_fetched_is c t cfg w st body sig cp d v p = rw (d, v, p) refl

module _ (c : Crypto)
    (sha256_Is32 : (b : Bytes) → All IsByte (c.sha256 b) × (length (c.sha256 b) ≡ 32)) (t : Text)
    (f : Format) (cfg : Config) (leaves : List Bytes)
    (log_sign witness_sign : Bytes → Result (ℕ × ℕ))
    (can : CanServe c t f cfg leaves log_sign witness_sign) (later : Result (List Bytes)) where
  abbrev Now : Checkpoint
  Now = current c cfg.origin leaves

  abbrev Body : Bytes
  Body = checkpoint_body f Now

  abbrev World : LogWorld
  World = served c f cfg.origin log_sign (ok leaves) later witness_sign

  served_checkpoint : World.checkpoint ≡ ok (record { body = Body; sig = hex_encode (can.sig) })
  unfolding served handle_checkpoint checkpoint_answer fetched_checkpoint
  served_checkpoint = rw (can.signed) refl

  served_consistency :
      (n : ℕ) (proof : List Digest)
      → later ≡ ok leaves
      → n ≤ length leaves
      → consistency_proof c leaves n ≡ some proof
      → World.consistency n ≡ ok (map hex_encode proof)
  unfolding served handle_consistency consistency_answer fetched_consistency
  served_consistency n proof still le h =
      let t : ltb (length leaves) n ≡ false = ground arith in rw (still, t, h) refl

  served_sign : sign_note c World.sign Body ≡ ok (can.cosig)
  unfolding served
  served_sign = can.cosigns

  IsView-advance : IsView c leaves (advance cfg Now)
  unfolding advance current
  IsView-advance = record {
    root = hex_root-hex_encode c sha256_Is32 (mth c leaves) (Is32-mth c sha256_Is32 leaves);
    size = refl;
  }

  printable : IsPrintable Now
  unfolding current
  printable = record {
    origin = can.origin;
    size = can.size;
    root_bytes = (Is32-mth c sha256_Is32 leaves).0;
    root_length = (Is32-mth c sha256_Is32 leaves).1;
  }

  polled_is :
      (st : WitnessState)
      → poll c t cfg World st ≡ carry_out c cfg World st Body Now (decide_poll c cfg World st Now)
  unfolding poll
  polled_is st =
      ap (poll_fetched c t cfg World st) served_checkpoint
      ∙ poll_fetched_is c t cfg World st Body (can.sig) Now
          (hex_decode-hex_encode (can.sig) (can.sig_bytes)) (can.verified)
          (parse_checkpoint-checkpoint_body t f (can.inverse) Now printable)

  Accepts-move :
      (st : WitnessState) (reason : Acceptance) (d : Result PollDecision)
      → d ≡ ok (move_to reason)
      → Accepts c leaves Body (carry_out c cfg World st Body Now d)
  unfolding carry_out
  Accepts-move st reason d e = rw e (
    reason,
    own_cosig cfg (can.cosig),
    ap ok (accept_signed c cfg World reason Body (can.cosig) served_sign),
    IsView-advance,
  )

  Accepts-keep :
      (st : WitnessState) (d : Result PollDecision)
      → d ≡ ok keep
      → IsView c leaves st
      → Accepts c leaves Body (carry_out c cfg World st Body Now d)
  unfolding carry_out
  Accepts-keep st d e v = rw e (
    unchanged,
    own_cosig cfg (can.cosig),
    ap ok (accept_signed c cfg World unchanged Body (can.cosig) served_sign),
    v,
  )

  decide_extends :
      (st : WitnessState)
      → later ≡ ok leaves
      → st.size ≤ length leaves
      → decide_extension c World st Now (mth c (take st.size leaves)) ≡ ok (move_to extension)
  unfolding decide_extension current
  decide_extends st still le =
      let (proof, given, ds) = consistency_proof-some c sha256_Is32 leaves st.size le in
      let served_is = served_consistency st.size proof still le given in
      let v = verify_consistency-consistency_proof c leaves st.size proof (can.not_empty) given in
      rw (served_is, decode_proof-map c sha256_Is32 proof ds, v) refl

  Accepts-against :
      (st : WitnessState)
      → (st.size < length leaves → later ≡ ok leaves)
      → st.size ≤ length leaves
      → hex_root st.root ≡ ok (mth c (take st.size leaves))
      → Accepts c leaves Body (
          carry_out c cfg World st Body Now
            (decide_against c World st Now (mth c (take st.size leaves))))
  unfolding decide_against current
  Accepts-against st still le r =
      let t : ltb (length leaves) st.size ≡ false = ground arith in
      elim (Bool-cases (length leaves == st.size)) [
        | inl same ↦
            let whole : mth c (take st.size leaves) ≡ mth c leaves =
              ap (mth c) (take_all st.size leaves (ground arith)) in
            let e : bytes_eq (mth c leaves) (mth c (take st.size leaves)) ≡ true =
              rw whole (bytes_eq_refl (mth c leaves)) in
            Accepts-keep st (decide_against c World st Now (mth c (take st.size leaves)))
              (rw (t, same, e) refl) (record { root = r ∙ ap ok whole; size = ground arith })
        | inr less ↦
            Accepts-move st extension (decide_against c World st Now (mth c (take st.size leaves)))
              (rw (t, less) (decide_extends st (still (ground arith)) le))
      ]

  Accepts-decided :
      (st : WitnessState)
      → SawPrefix c leaves st
      → NotAppended leaves later st
      → Accepts c leaves Body (carry_out c cfg World st Body Now (decide_poll c cfg World st Now))
  unfolding decide_poll
  Accepts-decided st saw still =
      let o : bytes_eq Now.origin cfg.origin ≡ true = unfold current in bytes_eq_refl cfg.origin in
      elim (Bool-cases (length st.root == 0)) [
        | inl none_yet ↦
            Accepts-move st first_sight (decide_poll c cfg World st Now) (rw (o, none_yet) refl)
        | inr seen ↦ elim saw.view [
          | inl e ↦ absurd (let z : (length st.root == 0) ≡ true = rw e refl in ground arith)
          | inr r ↦
              let root : st.root ≢ [] = λ e. let z = ap length e in ground arith in
              rw (o, seen, r) (Accepts-against st (still root) saw.size r)
        ]
      ]

  -- A witness that has seen nothing, or a prefix of a log, cosigns the checkpoint that the server of
  -- the log serves, and its view becomes the log, provided that nothing is appended between the two
  -- requests of the poll, where it makes the second; the log is not empty and its size an int, the
  -- two signatures are made and the log's verifies under the pinned key, SHA-256 gives 32 bytes, and
  -- number and base64 functions are inverse.
  pub honest_log_is_accepted :
      (st : WitnessState)
      → SawPrefix c leaves st
      → NotAppended leaves later st
      → Accepts c leaves Body (poll c t cfg World st)
  honest_log_is_accepted st saw still =
      subst (Accepts c leaves Body) (sym (polled_is st)) (Accepts-decided st saw still)
