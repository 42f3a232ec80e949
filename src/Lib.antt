-- ===== src/Lib.antt =====
-- open-opticon verifies signed verdicts of a sensor ("bound outputs"). A device signs a small CBOR
-- payload; the verifier checks the signature and a sequence of gates (key pin, low s, version, fresh
-- nonce, rising counter, hash chain). The same payload may travel in a COSE_Sign1 envelope; several
-- verdicts may be combined into a quorum or a co-attestation; entries of a transparency log are shown
-- by Merkle proofs; a web server issues challenges and answers attests. This library models the Go
-- package src/verifier, the challenge server of src/verifier/cmd/he-challenge and the witness daemon of
-- src/verifier/cmd/he-witness, which polls the log, cosigns its checkpoints and exchanges proofs that the
-- log equivocated with its peers.
--
-- Files and what they model:
--   Common.antt   lists, bytes, bits and results ((value, error) pairs) that the others share.
--   Hex.antt      encoding/hex, as the package uses it.
--   Cbor.antt     `cborReader` of src/verifier/bound.go, `skipValue` of cose.go and `readTstr` of
--     eat.go. The reader's position is the list of bytes left. Cbor/Head.antt has the shortest
--     encoding of a head, Cbor/Canonical.antt and Cbor/Values.antt the converse of reading it;
--     Cbor/Skips.antt is about what is left behind a skipped item.
--   Payload.antt  `DecodePayload` and `Predicate` of bound.go. Payload/Encode.antt is the map that the
--     device encodes (`he_payload_encode`, src/common/he_payload.c); Payload/Complete.antt and
--     Payload/Accepted.antt compare the two, over Canonical, Unique and Entries.
--   Crypto.antt   `verifySig`, `lowS` and `NormalizeLowS`. SHA-256, the curve test and ECDSA are fields
--     of the record `Crypto`, a parameter of all that uses them; the length 32 of a digest is a
--     hypothesis where it matters.
--   Bundle.antt   `VerifyBundle` and `gatesAfterSig`. A nil slice is `none`; a reason is a constructor
--     in place of a string. Bundle/Gates.antt and Bundle/Accept.antt say what is accepted,
--     Bundle/Stream.antt what follows for a stream of payloads.
--   Cose.antt     cose.go and cose_encode.go; the ECDSA signature that `SignCOSESign1` makes is an
--     argument of the encoder. Cose/Message.antt describes the messages and the
--     Sig_structure without the parser, Cose/Parsed.antt relates the two.
--   Quorum.antt   `quorumCore` and `coAttestCore` of quorum.go. An input is a record with its `verify`
--     function; `sort.Strings` is a parameter; maps are association lists.
--   Merkle.antt   the Merkle log of transparency.go. Merkle/Climbs.antt describes inclusion by
--     recursion on the tree; Merkle/Decides.antt, over Run and Edge, relates the loop of
--     `VerifyInclusion` to it; Merkle/Paths.antt and Merkle/Sound.antt are about proofs and
--     roots, Merkle/Commits.antt about the leaves that a root stands for.
--   Session.antt  the sessions of src/verifier/cmd/he-challenge/main.go. Pointers to sessions are
--     indices into a heap, so that a handler keeps its session when the map loses it.
--     Session/Steps.antt makes each locked section one step, between which others may come;
--     Session/Replay.antt and Session/Bounds.antt are about all interleavings.
--   Checkpoint.antt  `ParseCheckpoint`, `CheckLoggedEndorsement`, `VerifyCheckpointWitnesses` and
--     `VerifyEquivocation` of transparency.go, and `CheckpointBody`. strconv.Atoi and base64 are fields
--     of the records `Text` and `Format`. Checkpoint/Lines.antt is about lines of text.
--   Token.antt    `VerifyPSAToken` and `parsePSAClaims` of eat.go.
--   Receipt.antt  `VerifyReceipt`, `ParseReceipt` and `ReceiptBody` of receipt.go. The decimal numbers of
--     strconv and fmt are fields of the record `Decimal`.
--   Consistency.antt  `VerifyConsistency` of transparency.go; Consistency/Nodes.antt and
--     Consistency/Levels.antt describe the nodes of two logs level by level, and
--     Consistency/Sound.antt follows the loop with them; Consistency/Ascent.antt and
--     Consistency/Descent.antt compare it with `subproof`, over Consistency/Unrolled.antt, for
--     Consistency/Complete.antt.
--   Disclosure.antt  `DiscloseWindow` and `VerifyWindowDisclosure` of threshold.go.
--   Witness.antt  `poll` of cmd/he-witness/main.go as a function from the state of the witness and what
--     the world answers (`LogWorld`) to the result and the state it leaves, and `loadState`.
--     Witness/Outcome.antt lists what a poll can do; Witness/History.antt is about runs of polls, and
--     Witness/History/Refine.antt relates them to the log.
--   LogServer.antt  the two handlers of cmd/he-logd/main.go; LogServer/Honest.antt, over
--     LogServer/Digests.antt, puts a witness in front of them. The file is read for each request, so
--     that the two requests of a poll may find two logs.
--   Mesh.antt     `crossCheck` and the loop of `checkPeers`. Mesh/Daemon.antt has the state of the
--     daemon and its actions, each with the proofs that it pushes; Mesh/Handlers.antt the HTTP
--     handlers; Mesh/Steps.antt the interleavings of ticks and posted proofs, over Mesh/Frame.antt;
--     Mesh/Atomic.antt is about a post that comes while the peers are asked;
--     Mesh/Held.antt, Mesh/Invariant.antt, Mesh/Divergence.antt, Mesh/Evidence.antt and
--     Mesh/Adopt.antt are about the proofs, and Mesh/Flood.antt and Mesh/Spread.antt about a network
--     of daemons. Mesh/Commands.antt has the flags and the commands `compare`, `verify-equivocation`
--     and `fetch-proof`; Mesh/Specs.antt and Mesh/Peers.antt are about the peers that the flags pin.
--   Endorsement.antt  `EndorsementBody`, `ParseEndorsement` and `VerifyCOSEEndorsement` of transparency.go.
--   Tests.antt    the examples, with small functions in place of the cryptography.
--
-- Bounds and fuel: `mth`, `path` and `subproof` recurse on slices; their fuel is the number of leaves,
-- and each part of a split is shorter. `doubled` takes n rounds for n leaves, since k doubles. `strip`
-- and `strip_odd` take `fn` rounds, since it halves. `skipValue` has 64 levels, which is the source's own bound, and
-- then answers the source's error. Integers of the payload are below 2^64 where the source has uint64,
-- with the shift of `readN` reduced modulo 2^64.
--
-- Not modelled: JSON, HTTP, files, printing and pages; Shamir sharing and sealing; the log tool
-- and the other command lines of src/verifier; the C code of the device, the contracts and the proofs.
pub mod Common
pub mod Cbor
pub mod Hex
pub mod Payload
pub mod Crypto
pub mod Bundle
pub mod Merkle
pub mod Session
pub mod Cose
pub mod Quorum
pub mod Checkpoint
pub mod Token
pub mod Receipt
pub mod Disclosure
pub mod Consistency
pub mod Witness
pub mod LogServer
pub mod Mesh
pub mod Endorsement
pub mod Tests
