-- ===== src/Feed.antt =====
-- The price feed (src/feed/).
pub mod Candle
pub mod Buffer
pub mod Store
pub mod Streaming
