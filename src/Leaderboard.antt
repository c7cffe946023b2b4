-- ===== src/Leaderboard.antt =====
-- modules/leaderboard: ranking, the in-memory repositories and the service.
pub mod Ranking
pub mod Store
pub mod Service
pub mod Queries
pub mod Ranks
pub mod Boards
pub mod Admission
pub mod Submissions
pub mod Answers
pub mod RunRanking
mod Tests
