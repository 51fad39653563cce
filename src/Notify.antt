-- ===== src/Notify.antt =====
-- core/channels.py, core/notify_repository.py and core/notify_engine.py: notifications that wait for
-- no answer.
pub mod Store
pub mod Channels
pub mod Defs
pub mod Quiet
pub mod Attempts
pub mod Admission
pub mod Sending
pub mod Acks
pub mod History
pub mod Paging
pub mod Keeping
pub mod Untouched
pub mod Shown
