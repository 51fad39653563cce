-- ===== src/Hooks.antt =====
-- plugins/hooks/: what the hub does at a transition.
pub mod Defs
pub mod Conflicts
pub mod Reasons
pub mod Keeping
pub mod Expiry
pub mod Deadline
