-- ===== src/Stops.antt =====
-- Where the stop of a new position is placed (src/stops): the measures that the policies share.
pub mod Policies
pub mod Registry
pub mod Protective
mod Tests
use igthon.Prelude.{
  ℕ, ◌-◌, String, Bool, true, false, Option, none, some, List, [], ◌∷◌, map, length, str_eq, ltb,
  if◌then◌else◌,
}
use igthon.Prelude.Ring.{keep_last}
use igthon.Num.{Float, Arith, zero_float, ◌<f◌, ◌≤f◌, neg, larger, smaller}
use igthon.Indicators.{largest, smallest, band_noise, efficiency_ratio, linear_regression}
use igthon.Feed.Candle.{Candle, mid_close, spread}
use igthon.Feed.Buffer.{EpicBuffer, last}

-- The extreme of a window on the side that the stop is triggered on.
unfoldable pub window_extreme : List Candle → String → Option Float
window_extreme candles direction =
    if str_eq direction "SELL"
    then largest (map (λ (c : Candle). c.offer_high) candles)
    else smallest (map (λ (c : Candle). c.bid_low) candles)

-- A price with its weight, and the stable sort by price.
abbrev pub Pairs : Type 0
Pairs = List (Float × Float)

unfoldable pub insert_low : Float × Float → Pairs → Pairs
insert_low p [] = p ∷ []
insert_low p (q ∷ qs) = if q.0 <f p.0 then q ∷ insert_low p qs else p ∷ q ∷ qs

unfoldable pub sort_lows : Pairs → Pairs
unfolding insert_low
sort_lows [] = []
sort_lows (p ∷ ps) = insert_low p (sort_lows ps)

-- The shape of a path.
pub data Shape : Type 0 where
  clean_trend noisy_trend chop : Shape

module _ (a : Arith) where
  open a use {add, sub, mul, div, lit, half_pow, sum}

  unfoldable pub clamp01 : Float → Float
  clamp01 value = larger zero_float (smaller (lit 1 1) value)

  -- The newest price weighs one, the older ones half as much for each half-life.
  unfoldable pub weigh : Float → List Float → Pairs
  weigh half_life [] = []
  weigh half_life (x ∷ xs) =
      (x, if zero_float <f half_life then half_pow (div (lit (length xs) 1) half_life) else lit 1 1)
      ∷ weigh half_life xs

  -- The first price at which the weights reach the target, or the last one.
  unfoldable pub walk_weights : Float → Float → Float → Pairs → Float
  walk_weights target cumulative low [] = low
  walk_weights target cumulative low ((x, w) ∷ ps) =
      let next = add cumulative w in
      let rest = walk_weights target next x ps in if target ≤f next then x else rest

  unfoldable pub quantile_of : Float → Pairs → Option Float
  unfolding clamp01 walk_weights
  quantile_of percentile [] = none
  quantile_of percentile (p ∷ ps) =
      let total = sum (map (λ (q : Float × Float). q.1) (p ∷ ps)) in
      some (walk_weights (mul (clamp01 percentile) total) zero_float p.0 (p ∷ ps))

  -- `none` is the `ValueError` for an empty list.
  unfoldable pub weighted_support : List Float → Float → Float → Option Float
  unfolding weigh sort_lows quantile_of
  weighted_support lows percentile half_life =
      quantile_of percentile (sort_lows (weigh half_life lows))

  unfoldable pub weighted_resistance : List Float → Float → Float → Option Float
  unfolding weighted_support
  weighted_resistance highs percentile half_life =
      elim (weighted_support (map neg highs) percentile half_life) [
        | none ↦ none
        | some level ↦ some (neg level)
      ]

  unfoldable pub noise_floor_distance : List Candle → Float → Float → Float
  unfolding mid_close efficiency_ratio band_noise
  noise_floor_distance candles trend_k chop_k =
      let mids = map (mid_close a) candles in
      let chopping = sub (lit 1 1) (efficiency_ratio a mids (length mids - 1)) in
      if ltb (length mids) 3
      then zero_float
      else mul (add trend_k (mul (sub chop_k trend_k) chopping)) (band_noise a mids)

  unfoldable pub directional_speed : List Float → Float → Float → Float
  unfolding linear_regression
  directional_speed values atr_value sign =
      if atr_value ≤f zero_float
      then zero_float
      else if ltb (length values) 2
      then zero_float
      else div (mul sign (mul (linear_regression a values).slope (lit (length values - 1) 1)))
          atr_value

  unfoldable pub residual_sigma : List Float → Float
  unfolding band_noise
  residual_sigma values = band_noise a values

  unfoldable pub classify_shape : List Candle → Float → Float → Shape
  unfolding mid_close efficiency_ratio linear_regression
  classify_shape candles min_efficiency min_r_squared =
      let mids = map (mid_close a) candles in
      if ltb (length mids) 3
      then chop
      else if efficiency_ratio a mids (length mids - 1) <f min_efficiency
      then chop
      else if (linear_regression a mids).r_squared <f min_r_squared
      then noisy_trend
      else clean_trend

  -- `last.spread if last else 0.0`
  unfoldable pub spread_of : EpicBuffer → Float
  unfolding last spread
  spread_of buf = elim (last buf) [ none ↦ zero_float | some c ↦ spread a c ]

  -- The price on the side that the stop is triggered on.
  unfoldable pub reference_of : Float → String → EpicBuffer → Float
  unfolding last
  reference_of entry_level direction buf =
      if str_eq direction "SELL"
      then (elim (last buf) [ none ↦ entry_level | some c ↦ c.offer_close ])
      else entry_level

  -- The distance over its floor and under its cap; the floor wins.
  unfoldable pub bounded : Float → Float → Float → Float → Float
  bounded distance min_distance max_k atr_value =
      let floored = larger distance min_distance in
      if zero_float <f max_k
      then smaller floored (larger (mul max_k atr_value) min_distance)
      else floored
