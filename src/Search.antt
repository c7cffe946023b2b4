-- ===== src/Search.antt =====
-- modules/search: search runs, their rules and the loop that fills their slots.
pub mod Types
pub mod Rules
pub mod Ports
pub mod Submission
pub mod Loop
pub mod Service
pub mod Accounting
pub mod Limits
pub mod Refreshing
pub mod Filling
pub mod Turns
pub mod Lifecycle
pub mod Evolution
pub mod Steps
pub mod Reachability
pub mod Memory
pub mod Fingerprints
pub mod Satisfiable
pub mod Listing
mod Tests
