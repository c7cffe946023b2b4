-- ===== src/Backtesting.antt =====
-- modules/backtesting: the decimal arithmetic and the simulator of the domain layer.
pub mod Decimal
pub mod Trading
pub mod Positions
pub mod Numbers
pub mod Inputs
pub mod Simulator
pub mod Run
pub mod Settlement
pub mod Ledger
