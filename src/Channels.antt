-- ===== src/Channels.antt =====
-- plugins/channels/: the adapters that deliver a notification by a post to another service.
pub mod Defs
pub mod Delivery
pub mod Keeping
