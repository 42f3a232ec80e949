-- ===== src/Witness/Outcome.antt =====
-- src/verifier/cmd/he-witness/main.go: everything that a poll can do.
use open_opticon.Common.{
  ◌≡◌, ◌<◌, refl, arith, inl, inr, true, Bool-cases, List, [], ◌∷◌, length, ltb, ◌==◌, All,
}
use open_opticon.Common.Bytes.{Bytes, bytes_eq, bytes_eq_iff}
use open_opticon.Common.Results.{
  Error, Result, ok, err, wrap, Result-cases, >>=-eq-ok, wrap-eq-ok, fetch_consistency,
  unparsed_checkpoint, bad_sig_hex, fetch_checkpoint, bad_consistency_proof,
}
use open_opticon.Hex.{hex_decode}
use open_opticon.Crypto.{Crypto}
use open_opticon.Merkle.{Digest}
use open_opticon.Merkle.Sound.{IsDigest}
use open_opticon.Checkpoint.{Text, Checkpoint, parse_checkpoint, verify_checkpoint_sig}
use open_opticon.Consistency.{verify_consistency}
use open_opticon.Witness.{
  WitnessState, CheckpointResp, Config, LogWorld, Refusal, first_sight, unchanged, extension,
  PollResult, refused, origin_mismatch, log_signature, root_of, hex_root, decode_proof, advance,
  accept, PollDecision, refuse, keep, move_to, decide_extension, decide_against, decide_poll,
  carry_out, poll_parsed, poll_signed, poll_fetched, poll,
}

-- The body is a checkpoint of the watched log, signed under its pinned key.
pub record IsFromLog (c : Crypto) (t : Text) (cfg : Config) (body : Bytes) (cp : Checkpoint)
    : Type 0 where
  pub sig : Bytes
  pub signature : verify_checkpoint_sig c body sig cfg.log_x cfg.log_y ≡ true
  pub parsed : parse_checkpoint t body ≡ ok cp
  pub watched : cp.origin ≡ cfg.origin

-- The result of a poll and the state it leaves: nothing changed, or the view is the one that was
-- cosigned, or it is the first, or the proof shows that it extends the view there was.
pub data Outcome (c : Crypto) (t : Text) (cfg : Config) (w : LogWorld) (st : WitnessState)
    : Result PollResult → WitnessState → Type 0 where
  failed : (e : Error) → Outcome c t cfg w st (err e) st
  turned_away : (why : Refusal) → Outcome c t cfg w st (ok (refused why)) st
  kept :
      (body : Bytes) (cp : Checkpoint)
      → IsFromLog c t cfg body cp
      → hex_root st.root ≡ ok cp.root
      → cp.size ≡ st.size
      → Outcome c t cfg w st (ok (accept c cfg w unchanged body)) st
  started :
      (body : Bytes) (cp : Checkpoint)
      → IsFromLog c t cfg body cp
      → st.root ≡ []
      → Outcome c t cfg w st (ok (accept c cfg w first_sight body)) (advance cfg cp)
  extended :
      (body : Bytes) (cp : Checkpoint) (old : Digest) (proof : List Digest)
      → IsFromLog c t cfg body cp
      → hex_root st.root ≡ ok old
      → st.size < cp.size
      → All IsDigest proof
      → verify_consistency c st.size cp.size proof old cp.root ≡ true
      → Outcome c t cfg w st (ok (accept c cfg w extension body)) (advance cfg cp)

pub hex_root-IsDigest :
    (h : Bytes) (r : Digest) → hex_root h ≡ ok r → (hex_decode h ≡ ok r) × IsDigest r
unfolding hex_root root_of
hex_root-IsDigest h r e = elim (Result-cases (hex_decode h)) [
  | inr (x, n) ↦ let e' : root_of (err x) ≡ ok r = rw n at e in cc
  | inl (b, d) ↦
      let e' = rw d at e in
      elim (Bool-cases (length b == 32)) [
        | inr n ↦ let e'' = rw n at e' in cc
        | inl y ↦
            let e'' = rw y at e' in
            let same : b ≡ r = ground arith in
            let l : length b ≡ 32 = ground arith in rw (← same) (d, l)
      ]
]

decode_proof-IsDigest :
    (hexes : List Bytes) (proof : List Digest) → decode_proof hexes ≡ ok proof → All IsDigest proof
unfolding decode_proof
decode_proof-IsDigest [] proof h = let e : [] ≡ proof = ground arith in rw (← e) tt
decode_proof-IsDigest (x ∷ hexes) proof h =
    let (r, er, h1) = >>=-eq-ok (hex_root x) _ h in
    let (rest, es, h2) = >>=-eq-ok (decode_proof hexes) _ h1 in
    let e : r ∷ rest ≡ proof = ground arith in
    rw (← e) ((hex_root-IsDigest x r er).1, decode_proof-IsDigest hexes rest es)

empty : (b : Bytes) → (length b == 0) ≡ true → b ≡ []
empty [] h = refl
empty (x ∷ b) h = absurd (ground arith)

module _ (c : Crypto) (t : Text) (cfg : Config) (w : LogWorld) (st : WitnessState) where
  abbrev Ends : Result PollResult × WitnessState → Type 0
  Ends p = Outcome c t cfg w st p.0 p.1

  module _ (cp : Checkpoint) where
    -- What a decision has established.
    abbrev Justified : Result PollDecision → Type 0
    Justified (err e) = Unit {0}
    Justified (ok (refuse why)) = Unit {0}
    Justified (ok keep) = (hex_root st.root ≡ ok cp.root) × (cp.size ≡ st.size)
    Justified (ok (move_to first_sight)) = st.root ≡ []
    Justified (ok (move_to unchanged)) = ⊥
    Justified (ok (move_to extension)) =
        (old : Digest) × (proof : List Digest) × (hex_root st.root ≡ ok old)
        × (st.size < cp.size)
        × All IsDigest proof
        × (verify_consistency c st.size cp.size proof old cp.root ≡ true)

    Justified-decide_extension :
        (old : Digest)
        → hex_root st.root ≡ ok old
        → st.size < cp.size
        → Justified (decide_extension c w st cp old)
    unfolding decide_extension
    Justified-decide_extension old r lt =
        elim (Result-cases (wrap fetch_consistency (w.consistency st.size))) [
          | inr (e, n) ↦ rw n tt
          | inl (hexes, eh) ↦
              elim (Result-cases (wrap bad_consistency_proof (decode_proof hexes))) [
                | inr (e, n) ↦ rw (eh, n) tt
                | inl (proof, ep) ↦
                    elim (Bool-cases (verify_consistency c st.size cp.size proof old cp.root)) [
                      | inr n ↦ rw (eh, ep, n) tt
                      | inl y ↦
                          rw (eh, ep, y)
                            (
                              old,
                              proof,
                              r,
                              lt,
                              decode_proof-IsDigest hexes proof
                                  (wrap-eq-ok bad_consistency_proof (decode_proof hexes) ep),
                              y,
                            )
                    ]
              ]
        ]

    Justified-decide_against :
        (old : Digest) → hex_root st.root ≡ ok old → Justified (decide_against c w st cp old)
    unfolding decide_against
    Justified-decide_against old r = elim (Bool-cases (ltb cp.size st.size)) [
      | inl y ↦ rw y tt
      | inr n ↦ elim (Bool-cases (cp.size == st.size)) [
        | inr d ↦ rw (n, d) (Justified-decide_extension old r (ground arith))
        | inl s ↦ elim (Bool-cases (bytes_eq cp.root old)) [
          | inr f ↦ rw (n, s, f) tt
          | inl e ↦ rw (n, s, e) (let q = (bytes_eq_iff cp.root old).0 e in rw q r, ground arith)
        ]
      ]
    ]

    Justified-decide_poll : Justified (decide_poll c cfg w st cp)
    unfolding decide_poll
    Justified-decide_poll = elim (Bool-cases (bytes_eq cp.origin cfg.origin)) [
      | inr n ↦ rw n tt
      | inl o ↦ elim (Bool-cases (length st.root == 0)) [
        | inl y ↦ rw (o, y) (empty st.root y)
        | inr n ↦ elim (Result-cases (hex_root st.root)) [
          | inr (e, bad) ↦ rw (o, n, bad) tt
          | inl (old, r) ↦ rw (o, n, r) (Justified-decide_against old r)
        ]
      ]
    ]

    Ends-carry_out :
        (body : Bytes)
        → IsFromLog c t cfg body cp
        → (d : Result PollDecision) → Justified d
        → Ends (carry_out c cfg w st body cp d)
    unfolding carry_out
    Ends-carry_out body from (err e) j = failed e
    Ends-carry_out body from (ok (refuse why)) j = turned_away why
    Ends-carry_out body from (ok keep) j = kept body cp from j.0 j.1
    Ends-carry_out body from (ok (move_to first_sight)) j = started body cp from j
    Ends-carry_out body from (ok (move_to unchanged)) j = absurd j
    Ends-carry_out body from (ok (move_to extension)) (old, proof, r, lt, ds, v) =
        extended body cp old proof from r lt ds v

  Ends-poll_parsed :
      (body sig : Bytes)
      → verify_checkpoint_sig c body sig cfg.log_x cfg.log_y ≡ true
      → Ends (poll_parsed c cfg w st body (parse_checkpoint t body))
  unfolding poll_parsed decide_poll carry_out
  Ends-poll_parsed body sig s = elim (Result-cases (parse_checkpoint t body)) [
    | inr (e, n) ↦ rw n (failed (unparsed_checkpoint e))
    | inl (cp, p) ↦ elim (Bool-cases (bytes_eq cp.origin cfg.origin)) [
      | inr n ↦ rw (p, n) (turned_away origin_mismatch)
      | inl o ↦
          let from : IsFromLog c t cfg body cp = record {
            sig = sig;
            signature = s;
            parsed = p;
            watched = (bytes_eq_iff cp.origin cfg.origin).0 o;
          } in
          rw p (Ends-carry_out cp body from (decide_poll c cfg w st cp) (Justified-decide_poll cp))
    ]
  ]

  Ends-poll_signed : (body sig : Bytes) → Ends (poll_signed c t cfg w st body (ok sig))
  unfolding poll_signed
  Ends-poll_signed body sig =
      elim (Bool-cases (verify_checkpoint_sig c body sig cfg.log_x cfg.log_y)) [
        | inr n ↦ rw n (turned_away log_signature)
        | inl s ↦ rw s (Ends-poll_parsed body sig s)
      ]

  Ends-poll_fetched : (r : Result CheckpointResp) → Ends (poll_fetched c t cfg w st r)
  unfolding poll_fetched poll_signed
  Ends-poll_fetched (err e) = failed (fetch_checkpoint e)
  Ends-poll_fetched (ok cp) = elim (Result-cases (hex_decode cp.sig)) [
    | inr (e, n) ↦ rw n (failed (bad_sig_hex e))
    | inl (sig, d) ↦ rw d (Ends-poll_signed cp.body sig)
  ]

  -- Every poll ends in one of the five ways of `Outcome`: in particular, an error and a refusal leave
  -- the state as it is unless signing failed, and a state that changes is the first view or a view
  -- that a proof has tied to the one before.
  pub poll-Outcome : Outcome c t cfg w st (poll c t cfg w st).0 (poll c t cfg w st).1
  unfolding poll
  poll-Outcome = Ends-poll_fetched w.checkpoint
