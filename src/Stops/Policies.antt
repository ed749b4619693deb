-- ===== src/Stops/Policies.antt =====
-- The stop-distance policies and their registry (src/stops).
use igthon.Prelude.{
  ℕ, ◌-◌, max, min, String, Option, none, some, List, map, length, str_eq, ◌==◌, if◌then◌else◌,
}
use igthon.Prelude.Ring.{keep_last}
use igthon.Num.{Float, Arith, zero_float, ◌<f◌, larger}
use igthon.Indicators.{atr, efficiency_ratio}
use igthon.Feed.Candle.{Candle, mid_close}
use igthon.Feed.Buffer.{EpicBuffer}
use igthon.Exit.Zones.{sign_for}
use igthon.Stops.{
  Shape, clean_trend, noisy_trend, chop, window_extreme, clamp01, weighted_support,
  weighted_resistance, noise_floor_distance, directional_speed, residual_sigma, classify_shape,
  spread_of, reference_of, bounded,
}

pub record StopAtr : Type 0 where
  pub atr_period : ℕ
  pub stop_atr_k : Float

-- The lookbacks of the policies are at least one, so that a slice of the last ones is keep_last.
pub record StopSupport : Type 0 where
  pub atr_period : ℕ
  pub stop_lookback : ℕ
  pub stop_buffer_atr_k : Float
  pub support_percentile : Float
  pub support_recency_half_life : Float
  pub min_stop_atr_k : Float
  pub min_stop_spread_k : Float
  pub max_stop_atr_k : Float
  pub stop_atr_k : Float

pub record StopRegression : Type 0 where
  pub atr_period : ℕ
  pub lookback : ℕ
  pub sigma_k : Float
  pub chop_beta : Float
  pub min_stop_atr_k : Float
  pub min_stop_spread_k : Float
  pub stop_atr_k : Float

pub record StopLinearSpeed : Type 0 where
  pub atr_period : ℕ
  pub speed_lookback : ℕ
  pub slow_speed : Float
  pub fast_speed : Float
  pub noise_atr_k : Float
  pub structure_lookback : ℕ
  pub structure_percentile : Float
  pub structure_recency_half_life : Float
  pub structure_buffer_atr_k : Float
  pub slow_min_atr_k : Float
  pub min_stop_atr_k : Float
  pub min_stop_spread_k : Float
  pub max_stop_atr_k : Float

pub record StopHourLow : Type 0 where
  pub atr_period : ℕ
  pub lookback : ℕ
  pub buffer_atr_k : Float
  pub noise_lookback : ℕ
  pub noise_trend_k : Float
  pub noise_chop_k : Float
  pub min_stop_atr_k : Float
  pub min_stop_spread_k : Float
  pub max_stop_atr_k : Float

pub record StopShape : Type 0 where
  pub atr_period : ℕ
  pub hour_lookback : ℕ
  pub long_lookback : ℕ
  pub shape_period : ℕ
  pub min_efficiency : Float
  pub min_r_squared : Float
  pub buffer_atr_k : Float
  pub noise_lookback : ℕ
  pub noise_trend_k : Float
  pub noise_chop_k : Float
  pub min_stop_atr_k : Float
  pub min_stop_spread_k : Float
  pub max_stop_atr_k : Float

pub data StopDistance : Type 0 where
  stop_atr : StopAtr → StopDistance
  stop_support : StopSupport → StopDistance
  stop_regression : StopRegression → StopDistance
  stop_linearspeed : StopLinearSpeed → StopDistance
  stop_hourlow : StopHourLow → StopDistance
  stop_shape : StopShape → StopDistance

-- `a or b`, on counts.
abbrev pub or_count : ℕ → ℕ → ℕ
or_count m n = if m == 0 then n else m

module _ (a : Arith) where
  open a use {add, sub, mul, lit}

  -- The flat distance, which some policies keep for a short.
  unfoldable pub flat_stop : Float → Float → String → EpicBuffer → Float → Float
  unfolding reference_of
  flat_stop k entry_level direction buf atr_value =
      if str_eq direction "SELL"
      then add (reference_of a entry_level direction buf) (mul k atr_value)
      else sub entry_level (mul k atr_value)

  -- `reference - sign * distance`
  unfoldable pub stop_at : Float → String → EpicBuffer → Float → Float
  unfolding reference_of sign_for
  stop_at entry_level direction buf distance =
      sub (reference_of a entry_level direction buf) (mul (sign_for a direction) distance)

  unfoldable pub support_distance : StopSupport → Float → EpicBuffer → Float → Float
  unfolding weighted_support bounded keep_last spread_of
  support_distance p entry_level buf atr_value =
      let lows = map (λ (c : Candle). c.bid_low) (keep_last p.stop_lookback buf.candles) in
      let support : Float =
        elim (weighted_support a lows p.support_percentile p.support_recency_half_life) [
          | none ↦ entry_level
          | some level ↦ level
        ] in
      let raw_stop = sub support (mul p.stop_buffer_atr_k atr_value) in
      bounded a (sub entry_level raw_stop)
        (larger (mul p.min_stop_atr_k atr_value) (mul p.min_stop_spread_k (spread_of a buf)))
        p.max_stop_atr_k atr_value

  unfoldable pub regression_distance : StopRegression → EpicBuffer → Float → Float
  unfolding residual_sigma efficiency_ratio keep_last spread_of
  regression_distance p buf atr_value =
      let closes = map (λ (c : Candle). c.bid_close) (keep_last p.lookback buf.candles) in
      let er = efficiency_ratio a closes (min p.lookback (max (length closes - 1) 1)) in
      larger
        (mul (mul p.sigma_k (residual_sigma a closes))
          (add (lit 1 1) (mul p.chop_beta (sub (lit 1 1) er))))
        (larger (mul p.min_stop_spread_k (spread_of a buf)) (mul p.min_stop_atr_k atr_value))

  -- The level of the last hour's structure, and the distance to just beyond it.
  unfoldable pub raw_structure : StopLinearSpeed → EpicBuffer → Float → String → Float → Float
  unfolding weighted_support weighted_resistance keep_last
  raw_structure p buf reference direction atr_value =
      let window = keep_last p.structure_lookback buf.candles in
      let cushion = mul p.structure_buffer_atr_k atr_value in
      let fallback = mul p.slow_min_atr_k atr_value in
      if str_eq direction "SELL"
      then (elim (weighted_resistance a (map (λ (c : Candle). c.offer_high) window)
          p.structure_percentile p.structure_recency_half_life) [
            | none ↦ fallback
            | some level ↦ sub (add level cushion) reference
          ])
      else elim (weighted_support a (map (λ (c : Candle). c.bid_low) window) p.structure_percentile
          p.structure_recency_half_life) [
            | none ↦ fallback
            | some level ↦ sub reference (sub level cushion)
          ]

  unfoldable pub structure_distance : StopLinearSpeed → EpicBuffer → Float → String → Float → Float
  unfolding raw_structure
  structure_distance p buf reference direction atr_value =
      larger (raw_structure p buf reference direction atr_value) (mul p.slow_min_atr_k atr_value)

  unfoldable pub blend_of : StopLinearSpeed → EpicBuffer → String → Float → Float
  unfolding clamp01 directional_speed mid_close sign_for keep_last
  blend_of p buf direction atr_value =
      let speed =
        directional_speed a (map (mid_close a) (keep_last p.speed_lookback buf.candles)) atr_value
          (sign_for a direction) in
      let span = sub p.fast_speed p.slow_speed in
      if zero_float <f span then clamp01 a (a.div (sub speed p.slow_speed) span) else zero_float

  unfoldable pub blended_distance : StopLinearSpeed → Float → String → EpicBuffer → Float → Float
  unfolding blend_of structure_distance reference_of
  blended_distance p entry_level direction buf atr_value =
      let blend = blend_of p buf direction atr_value in
      let structure =
        structure_distance p buf (reference_of a entry_level direction buf) direction atr_value in
      add (mul blend (mul p.noise_atr_k atr_value)) (mul (sub (lit 1 1) blend) structure)

  unfoldable pub linearspeed_distance :
      StopLinearSpeed → Float → String → EpicBuffer → Float → Float
  unfolding blended_distance bounded spread_of
  linearspeed_distance p entry_level direction buf atr_value =
      bounded a (blended_distance p entry_level direction buf atr_value)
        (larger (mul p.min_stop_spread_k (spread_of a buf)) (mul p.min_stop_atr_k atr_value))
        p.max_stop_atr_k atr_value

  -- The distance to just beyond a level, on the side of the stop.
  unfoldable pub level_distance : Float → Float → Option Float → Float → String → EpicBuffer → Float
  unfolding sign_for reference_of
  level_distance buffer_k atr_value none entry_level direction buf = zero_float
  level_distance buffer_k atr_value (some level) entry_level direction buf =
      add (mul (sign_for a direction) (sub (reference_of a entry_level direction buf) level))
        (mul buffer_k atr_value)

  unfoldable pub noise_floor :
      List Candle → Float → Float → Float → Float → EpicBuffer → Float → Float
  unfolding noise_floor_distance spread_of
  noise_floor window trend_k chop_k atr_k spread_k buf atr_value =
      larger (larger (noise_floor_distance a window trend_k chop_k) (mul atr_k atr_value))
        (mul spread_k (spread_of a buf))

  unfoldable pub hourlow_distance : StopHourLow → Float → String → EpicBuffer → Float → Float
  unfolding window_extreme level_distance noise_floor bounded keep_last
  hourlow_distance p entry_level direction buf atr_value =
      let extreme = window_extreme (keep_last p.lookback buf.candles) direction in
      bounded a (level_distance p.buffer_atr_k atr_value extreme entry_level direction buf)
        (noise_floor (keep_last (or_count p.noise_lookback p.lookback) buf.candles) p.noise_trend_k
          p.noise_chop_k p.min_stop_atr_k p.min_stop_spread_k buf atr_value)
        p.max_stop_atr_k atr_value

  unfoldable pub candidate_level :
      StopShape → Shape → List Candle → String → Option Float → Option Float
  unfolding window_extreme keep_last
  candidate_level p chop candles direction (some extreme) = some extreme
  candidate_level p chop candles direction none =
      window_extreme (keep_last p.long_lookback candles) direction
  candidate_level p clean_trend candles direction day_extreme =
      window_extreme (keep_last p.hour_lookback candles) direction
  candidate_level p noisy_trend candles direction day_extreme =
      window_extreme (keep_last p.long_lookback candles) direction

  unfoldable pub shape_level : StopShape → String → EpicBuffer → Option Float → Option Float
  unfolding classify_shape candidate_level keep_last
  shape_level p direction buf day_extreme =
      candidate_level p
        (classify_shape a (keep_last p.shape_period buf.candles) p.min_efficiency p.min_r_squared)
        buf.candles direction day_extreme

  unfoldable pub shape_distance :
      StopShape → Float → String → EpicBuffer → Option Float → Float → Float
  unfolding shape_level level_distance noise_floor bounded keep_last
  shape_distance p entry_level direction buf day_extreme atr_value =
      bounded a
        (level_distance p.buffer_atr_k atr_value (shape_level p direction buf day_extreme)
          entry_level direction buf)
        (noise_floor (keep_last (or_count p.noise_lookback p.shape_period) buf.candles)
          p.noise_trend_k p.noise_chop_k p.min_stop_atr_k p.min_stop_spread_k buf atr_value)
        p.max_stop_atr_k atr_value

  unfoldable pub initial_stop : StopDistance → Float → String → EpicBuffer → Option Float → Float
  unfolding flat_stop stop_at atr support_distance regression_distance linearspeed_distance
      hourlow_distance shape_distance
  initial_stop (stop_atr p) entry_level direction buf day_extreme =
      flat_stop p.stop_atr_k entry_level direction buf (atr a buf.candles p.atr_period)
  initial_stop (stop_support p) entry_level direction buf day_extreme =
      let atr_value = atr a buf.candles p.atr_period in
      if str_eq direction "SELL"
      then flat_stop p.stop_atr_k entry_level direction buf atr_value
      else sub entry_level (support_distance p entry_level buf atr_value)
  initial_stop (stop_regression p) entry_level direction buf day_extreme =
      let atr_value = atr a buf.candles p.atr_period in
      if str_eq direction "SELL"
      then flat_stop p.stop_atr_k entry_level direction buf atr_value
      else sub entry_level (regression_distance p buf atr_value)
  initial_stop (stop_linearspeed p) entry_level direction buf day_extreme =
      stop_at entry_level direction buf
        (linearspeed_distance p entry_level direction buf (atr a buf.candles p.atr_period))
  initial_stop (stop_hourlow p) entry_level direction buf day_extreme =
      stop_at entry_level direction buf
        (hourlow_distance p entry_level direction buf (atr a buf.candles p.atr_period))
  initial_stop (stop_shape p) entry_level direction buf day_extreme =
      stop_at entry_level direction buf
        (shape_distance p entry_level direction buf day_extreme (atr a buf.candles p.atr_period))
