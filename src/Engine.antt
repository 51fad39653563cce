-- ===== src/Engine.antt =====
-- core/engine.py: `HITLEngine`, and what holds of its methods.
pub mod Defs
pub mod Resolve
pub mod Resolution
pub mod Authority
pub mod Race
pub mod Written
pub mod Decided
pub mod Final
pub mod Steps
pub mod Listener
pub mod Presence
pub mod Answered
pub mod Tasks
pub mod Alone
pub mod Schedule
pub mod Secured
pub mod Promises
pub mod Promised
pub mod Resolving
pub mod Concurrent
pub mod Kept
pub mod Publish
pub mod Fresh
pub mod Reads
pub mod Create
pub mod Request
pub mod Growth
pub mod Retry
pub mod Wait
pub mod Waiting
