-- ===== src/Stops/Tests.antt =====
-- The stop policies at concrete candles, in whole numbers.
use igthon.Prelude.{ℕ, ◌≡◌, refl, none, some, [], ◌∷◌, arith}
use igthon.Prelude.Int.{pos, ◌+ℤ◌, ◌*ℤ◌}
use igthon.Num.Whole.{whole, whole-Ieee}
use igthon.Feed.Candle.{Candle}
use igthon.Feed.Buffer.{EpicBuffer}
use igthon.Stops.{
  weighted_support, weigh, sort_lows, insert_low, quantile_of, walk_weights, clamp01,
}
use igthon.Stops.Policies.{StopDistance, stop_hourlow, initial_stop}
use igthon.Stops.Registry.{default_hourlow}
use igthon.Stops.Protective.{IsProtective, initial_stop-IsProtective}

abbrev candle : ℕ → ℕ → Candle
candle time price = record {
  timestamp = time;
  bid_open = pos price;
  bid_close = pos price;
  bid_high = pos price;
  bid_low = pos price;
  offer_open = pos price;
  offer_close = pos price;
  offer_high = pos price;
  offer_low = pos price;
  volume = 1;
}

abbrev buffer : EpicBuffer
buffer = record { epic = "E"; max_candles = 10; candles = candle 1 104 ∷ candle 2 107 ∷ [] }

abbrev policy : StopDistance
policy = stop_hourlow (default_hourlow whole)

-- With equal weights the whole of the weight is reached at the highest price.
weighted_support-lows :
    weighted_support whole (pos 5 ∷ pos 3 ∷ pos 9 ∷ []) (pos 1) (pos 0) ≡ some (pos 9)
unfolding weighted_support weigh sort_lows insert_low quantile_of walk_weights clamp01 ◌+ℤ◌ ◌*ℤ◌
weighted_support-lows = refl

initial_stop-IsProtective_example :
    IsProtective whole
      (pos 107)
      "BUY"
      buffer
      (initial_stop whole policy (pos 107) "BUY" buffer none)
initial_stop-IsProtective_example =
    initial_stop-IsProtective whole whole-Ieee policy (pos 107) "BUY" buffer none (omega arith, tt)
