-- ===== src/Sentiment.antt =====
-- modules/sentiment: results on news, and the sealed snapshots that are made of them.
pub mod Rules
pub mod Windows
pub mod Repositories
pub mod Service
pub mod Causality
pub mod Results
mod Tests
