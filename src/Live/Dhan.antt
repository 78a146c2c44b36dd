-- ===== src/Live/Dhan.antt =====
-- The Dhan feed, live/dhan/.
pub mod MarketSession
pub mod Wire
pub mod CandleBuilder
