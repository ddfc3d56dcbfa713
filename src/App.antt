-- ===== src/App.antt =====
-- crates/app/src: the HTTP layer over the other crates.
pub mod Http
pub mod Error
pub mod Config
pub mod World
pub mod Cache
pub mod State
pub mod Render
pub mod Routes
pub mod Middleware
pub mod StaticFiles
pub mod Preview
pub mod Changes
pub mod Router
pub mod Templates
pub mod Start
