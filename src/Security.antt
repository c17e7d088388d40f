-- ===== src/Security.antt =====
-- The security module, crates/core/src/security.rs, with the manifests of crates/core/src/plugin.rs
-- that it verifies. A text is its UTF-8 bytes or, where the code walks its characters, its code
-- points. SHA-256, HMAC and serde are the parameter `Crypto`; the clock's time is an argument. A
-- method is a step on the module's state, and `audit` three, which callers interleave.
pub mod Policy
pub mod Detail
pub mod Audit
pub mod Chain
pub mod Interleaved
pub mod Reload
pub mod Restart
mod Sample
mod Restarts
mod Races
pub mod Tamper
pub mod Stamps
pub mod Compare
pub mod Decisions
pub mod Examples
