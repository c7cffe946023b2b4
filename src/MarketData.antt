-- ===== src/MarketData.antt =====
-- modules/market-data: the rules on ranges of candles.
pub mod Rules
pub mod Missing
pub mod Ranges
pub mod Manager
pub mod Reconnects
mod Tests
