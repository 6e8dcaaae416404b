-- ===== src/Dispatch.antt =====
-- crates/fr-pyiface/src/app.rs: `FastAPI._dispatch`, stage by stage.
pub mod Tests
pub mod Fast
pub mod Respond
pub mod Docs
pub mod Handle
pub mod Whole
pub mod Select
pub mod Request
pub mod Arguments
