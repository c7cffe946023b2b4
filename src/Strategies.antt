-- ===== src/Strategies.antt =====
-- modules/strategy: the definitions of strategies and of composites, and the signals that composites
-- combine.
pub mod Records
pub mod Parameters
pub mod Service
pub mod CompositeStore
pub mod Composites
pub mod Signals
pub mod Overlays
pub mod Artifacts
pub mod Generation
pub mod Bounds
pub mod Families
pub mod Library
pub mod Versions
pub mod Shown
pub mod Pinning
mod Tests
mod DrawingTests
