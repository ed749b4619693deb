-- ===== src/Stops/Registry.antt =====
-- The policies by name, with the constants of their classes (src/stops/__init__.py).
use igthon.Prelude.{String, Option, [], ◌∷◌}
use igthon.Prelude.Dicts.{Dict, lookup}
use igthon.Num.{Arith, zero_float}
use igthon.Stops.Policies.{
  StopAtr, StopSupport, StopRegression, StopLinearSpeed, StopHourLow, StopShape, StopDistance,
  stop_atr, stop_support, stop_regression, stop_linearspeed, stop_hourlow, stop_shape,
}

module _ (a : Arith) where
  open a use {lit}

  abbrev pub default_atr : StopAtr
  default_atr = record { atr_period = 14; stop_atr_k = lit 25 10 }

  abbrev pub default_support : StopSupport
  default_support = record {
    atr_period = 14;
    stop_lookback = 60;
    stop_buffer_atr_k = lit 5 10;
    support_percentile = lit 20 100;
    support_recency_half_life = lit 30 1;
    min_stop_atr_k = lit 25 10;
    min_stop_spread_k = lit 2 1;
    max_stop_atr_k = lit 4 1;
    stop_atr_k = lit 25 10;
  }

  abbrev pub default_regression : StopRegression
  default_regression = record {
    atr_period = 14;
    lookback = 60;
    sigma_k = lit 25 10;
    chop_beta = lit 1 1;
    min_stop_atr_k = lit 1 1;
    min_stop_spread_k = lit 2 1;
    stop_atr_k = lit 25 10;
  }

  abbrev pub default_linearspeed : StopLinearSpeed
  default_linearspeed = record {
    atr_period = 14;
    speed_lookback = 10;
    slow_speed = lit 5 10;
    fast_speed = lit 2 1;
    noise_atr_k = lit 1 1;
    structure_lookback = 60;
    structure_percentile = lit 20 100;
    structure_recency_half_life = lit 30 1;
    structure_buffer_atr_k = lit 5 10;
    slow_min_atr_k = lit 25 10;
    min_stop_atr_k = lit 75 100;
    min_stop_spread_k = lit 2 1;
    max_stop_atr_k = lit 4 1;
  }

  abbrev pub default_hourlow : StopHourLow
  default_hourlow = record {
    atr_period = 14;
    lookback = 60;
    buffer_atr_k = zero_float;
    noise_lookback = 0;
    noise_trend_k = lit 5 10;
    noise_chop_k = lit 2 1;
    min_stop_atr_k = lit 5 10;
    min_stop_spread_k = lit 2 1;
    max_stop_atr_k = zero_float;
  }

  abbrev pub default_shape : StopShape
  default_shape = record {
    atr_period = 14;
    hour_lookback = 60;
    long_lookback = 180;
    shape_period = 60;
    min_efficiency = lit 15 100;
    min_r_squared = lit 50 100;
    buffer_atr_k = lit 3 10;
    noise_lookback = 0;
    noise_trend_k = lit 5 10;
    noise_chop_k = lit 2 1;
    min_stop_atr_k = lit 5 10;
    min_stop_spread_k = lit 2 1;
    max_stop_atr_k = zero_float;
  }

  abbrev pub stop_distances : Dict StopDistance
  stop_distances =
      ("stop_atr", stop_atr default_atr)
      ∷ ("stop_support", stop_support default_support)
      ∷ ("stop_regression", stop_regression default_regression)
      ∷ ("stop_linearspeed", stop_linearspeed default_linearspeed)
      ∷ ("stop_hourlow", stop_hourlow default_hourlow)
      ∷ ("stop_shape", stop_shape default_shape)
      ∷ []

  -- An unknown name is a `ValueError`.
  unfoldable pub get_stop_distance : String → Option StopDistance
  unfolding lookup
  get_stop_distance name = lookup name stop_distances
