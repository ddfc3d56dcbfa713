-- ===== src/App/Preview.antt =====
-- crates/app/src/preview: rendering any template against fixtures, in debug builds.
pub mod Stories
pub mod Discovery
pub mod Order
pub mod Stems
pub mod Fixtures
pub mod Routes
