-- ===== src/Models.antt =====
-- models/: the pydantic models.
pub mod Hitl
pub mod Notify
pub mod Event
pub mod Time
