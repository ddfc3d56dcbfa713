-- ===== src/Tests.antt =====
-- Concrete inputs, and the theorems at them.
mod Fixtures
mod TodoRepo
mod Accounts
mod Limits
mod Cached
mod Sites
mod Settings
mod Serving
mod Races
