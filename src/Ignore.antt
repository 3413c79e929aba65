-- ===== src/Ignore.antt =====
-- packages/core/src/ignore.ts: the specification of what bypasses the WAF, the rules it compiles
-- to, and the matcher that decides a request. The children hold the single tests and the proofs.
-- `Verdict` is the source's `boolean | 'skip-body'`: `inspect` is `false` and `skip` is `true`.
pub mod Glob
pub mod Globs
pub mod Verdict
pub mod Order
pub mod Extension
pub mod Suffixes
pub mod Header
pub mod Matcher
pub mod Rules
pub mod Tests
