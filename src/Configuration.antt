-- ===== src/Configuration.antt =====
-- apps/backend/src/runtime-config.ts: what the backend reads from its environment.
pub mod Environment
pub mod Sections
pub mod Loading
pub mod Bounds
pub mod Crawling
pub mod Safety
mod Tests
