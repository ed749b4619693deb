-- ===== src/Feed/Candle.antt =====
-- The 1-minute candle (src/feed/price_buffer.py). A timestamp counts milliseconds from a fixed
-- origin.
use igthon.Prelude.{ℕ}
use igthon.Num.{Float, Arith}

pub record Candle : Type 0 where
  pub timestamp : ℕ
  pub bid_open : Float
  pub bid_close : Float
  pub bid_high : Float
  pub bid_low : Float
  pub offer_open : Float
  pub offer_close : Float
  pub offer_high : Float
  pub offer_low : Float
  pub volume : ℕ

module _ (a : Arith) where
  open a use {add, sub, div, lit}

  unfoldable pub mid_close : Candle → Float
  mid_close c = div (add c.bid_close c.offer_close) (lit 2 1)

  unfoldable pub spread : Candle → Float
  spread c = sub c.offer_close c.bid_close
