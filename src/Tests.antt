-- ===== src/Tests.antt =====
-- Tests of the development on concrete inputs, with SHA-256 and P-256 stood in for by small
-- functions.
pub mod Samples
pub mod Formats
pub mod Trees
pub mod Checkpoints
pub mod Tokens
pub mod Receipts
pub mod Windows
pub mod Polls
pub mod Servers
pub mod Daemons
pub mod Verdicts
