-- ===== src/Auth.antt =====
-- modules/auth: users that register and log in.
pub mod Rules
pub mod Service
pub mod Accounts
mod Tests
