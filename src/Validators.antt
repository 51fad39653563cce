-- ===== src/Validators.antt =====
-- core/validator.py: the interface of a validator and the registry that chooses one.
pub mod Defs
pub mod Plugins
pub mod Choice
pub mod Accepted
pub mod Requirements
pub mod Checks
