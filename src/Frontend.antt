-- ===== src/Frontend.antt =====
-- apps/frontend/src: the state that the browser keeps.
pub mod Values
pub mod Layout
pub mod Panels
pub mod Storage
pub mod Routes
pub mod RoundTrip
pub mod Candles
pub mod Merging
mod Tests
