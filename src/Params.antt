-- ===== src/Params.antt =====
-- crates/fr-pyiface/src/app.rs: the parameters of a handler that do not come from the body.

pub mod Errors
pub mod Typed
pub mod Parse
pub mod Cast
pub mod PathCast
pub mod Validate
pub mod Extract
pub mod Tests
