-- ===== src/Lifecycle.antt =====
-- core/lifecycle.py and core/dispatcher.py: the plugins that are told of an event. An exception of
-- one is logged and the next runs.
pub mod Defs
pub mod Isolation
