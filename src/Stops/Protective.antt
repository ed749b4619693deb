-- ===== src/Stops/Protective.antt =====
-- The stop of a new position is on its losing side (src/stops).
use mathlib.Core.Path.{subst}
use igthon.Prelude.{
  ℕ, ◌≡◌, refl, sym, ◌⊎◌, inl, inr, String, true, false, Option, List, [], ◌∷◌, str_eq,
  if◌then◌else◌, Bool-cases, All, arith,
}
use igthon.Prelude.Int.{◌≤ℤ◌}
use igthon.Num.{Float, Arith, Ieee, zero_float, neg, larger}
use igthon.Indicators.{atr}
use igthon.Indicators.Bounds.{volatility_nonneg}
use igthon.Feed.Candle.{Candle}
use igthon.Feed.Buffer.{EpicBuffer}
use igthon.Exit.Zones.{sign_for}
use igthon.Stops.{reference_of, spread_of, bounded, noise_floor_distance, window_extreme}
use igthon.Prelude.Ring.{keep_last}
use igthon.Stops.Policies.{
  StopDistance, StopSupport, StopRegression, StopLinearSpeed, StopHourLow, StopShape, stop_atr,
  stop_support, stop_regression, stop_linearspeed, stop_hourlow, stop_shape, flat_stop, stop_at,
  support_distance, regression_distance, linearspeed_distance, hourlow_distance, shape_distance,
  noise_floor, initial_stop, blended_distance, level_distance, shape_level, or_count,
}

-- The factors of the volatility in the floors of a policy.
abbrev pub floor_factors : StopDistance → List Float
floor_factors (stop_atr p) = p.stop_atr_k ∷ []
floor_factors (stop_support p) = p.stop_atr_k ∷ p.min_stop_atr_k ∷ []
floor_factors (stop_regression p) = p.stop_atr_k ∷ p.min_stop_atr_k ∷ []
floor_factors (stop_linearspeed p) = p.min_stop_atr_k ∷ []
floor_factors (stop_hourlow p) = p.min_stop_atr_k ∷ []
floor_factors (stop_shape p) = p.min_stop_atr_k ∷ []

larger_left : (x y : Float) → zero_float ≤ℤ x → zero_float ≤ℤ larger x y
larger_left x y h = ground arith

larger_right : (x y : Float) → zero_float ≤ℤ y → zero_float ≤ℤ larger x y
larger_right x y h = ground arith

module _ (a : Arith) where
  -- A stop is not above the price that triggers it for a long position, nor below it for a short one.
  abbrev pub IsProtective : Float → String → EpicBuffer → Float → Type 0
  IsProtective entry_level direction buf stop =
      ((str_eq direction "SELL" ≡ false) × (stop ≤ℤ entry_level))
      ⊎ ((str_eq direction "SELL" ≡ true) × (reference_of a entry_level direction buf ≤ℤ stop))

  -- A distance over a floor is not negative if the floor is not.
  bounded_nonneg : (d floor k v : Float) → zero_float ≤ℤ floor → zero_float ≤ℤ bounded a d floor k v
  unfolding bounded
  bounded_nonneg d floor k v h = ground arith

  noise_floor_nonneg :
      (window : List Candle) (trend_k chop_k k spread_k : Float) (buf : EpicBuffer) (v : Float)
      → zero_float ≤ℤ a.mul k v
      → zero_float ≤ℤ noise_floor a window trend_k chop_k k spread_k buf v
  unfolding noise_floor
  noise_floor_nonneg window trend_k chop_k k spread_k buf v h =
      larger_left (larger (noise_floor_distance a window trend_k chop_k) (a.mul k v))
        (a.mul spread_k (spread_of a buf))
        (larger_right (noise_floor_distance a window trend_k chop_k) (a.mul k v) h)

  -- Every distance is over a floor that holds a factor of the volatility.
  support_distance_nonneg :
      (p : StopSupport) (entry_level : Float) (buf : EpicBuffer) (v : Float)
      → zero_float ≤ℤ a.mul p.min_stop_atr_k v
      → zero_float ≤ℤ support_distance a p entry_level buf v
  unfolding support_distance bounded
  support_distance_nonneg p entry_level buf v h = ground arith

  regression_distance_nonneg :
      (p : StopRegression) (buf : EpicBuffer) (v : Float)
      → zero_float ≤ℤ a.mul p.min_stop_atr_k v
      → zero_float ≤ℤ regression_distance a p buf v
  unfolding regression_distance
  regression_distance_nonneg p buf v h = ground arith

  linearspeed_distance_nonneg :
      (p : StopLinearSpeed) (entry_level : Float) (direction : String) (buf : EpicBuffer)
      (v : Float)
      → zero_float ≤ℤ a.mul p.min_stop_atr_k v
      → zero_float ≤ℤ linearspeed_distance a p entry_level direction buf v
  unfolding linearspeed_distance
  linearspeed_distance_nonneg p entry_level direction buf v h =
      bounded_nonneg (blended_distance a p entry_level direction buf v)
        (larger (a.mul p.min_stop_spread_k (spread_of a buf)) (a.mul p.min_stop_atr_k v))
        p.max_stop_atr_k v
        (larger_right (a.mul p.min_stop_spread_k (spread_of a buf)) (a.mul p.min_stop_atr_k v) h)

  hourlow_distance_nonneg :
      (p : StopHourLow) (entry_level : Float) (direction : String) (buf : EpicBuffer) (v : Float)
      → zero_float ≤ℤ a.mul p.min_stop_atr_k v
      → zero_float ≤ℤ hourlow_distance a p entry_level direction buf v
  unfolding hourlow_distance
  hourlow_distance_nonneg p entry_level direction buf v h =
      let window = keep_last (or_count p.noise_lookback p.lookback) buf.candles in
      bounded_nonneg
        (level_distance a p.buffer_atr_k v
          (window_extreme (keep_last p.lookback buf.candles) direction) entry_level direction buf)
        (noise_floor a window p.noise_trend_k p.noise_chop_k p.min_stop_atr_k p.min_stop_spread_k
          buf v)
        p.max_stop_atr_k v
        (noise_floor_nonneg window p.noise_trend_k p.noise_chop_k p.min_stop_atr_k
          p.min_stop_spread_k buf v h)

  shape_distance_nonneg :
      (p : StopShape) (entry_level : Float) (direction : String) (buf : EpicBuffer)
      (day_extreme : Option Float) (v : Float)
      → zero_float ≤ℤ a.mul p.min_stop_atr_k v
      → zero_float ≤ℤ shape_distance a p entry_level direction buf day_extreme v
  unfolding shape_distance
  shape_distance_nonneg p entry_level direction buf day_extreme v h =
      let window = keep_last (or_count p.noise_lookback p.shape_period) buf.candles in
      bounded_nonneg
        (level_distance a p.buffer_atr_k v (shape_level a p direction buf day_extreme) entry_level
          direction buf)
        (noise_floor a window p.noise_trend_k p.noise_chop_k p.min_stop_atr_k p.min_stop_spread_k
          buf v)
        p.max_stop_atr_k v
        (noise_floor_nonneg window p.noise_trend_k p.noise_chop_k p.min_stop_atr_k
          p.min_stop_spread_k buf v h)

  module _ (laws : Ieee a) where
    below-IsProtective :
        (entry_level : Float) (direction : String) (buf : EpicBuffer) (d : Float)
        → str_eq direction "SELL" ≡ false
        → zero_float ≤ℤ d
        → IsProtective entry_level direction buf (a.sub entry_level d)
    below-IsProtective entry_level direction buf d long h = inl (long, laws.sub_le entry_level d h)

    flat_stop-IsProtective :
        (k entry_level : Float) (direction : String) (buf : EpicBuffer) (atr_value : Float)
        → zero_float ≤ℤ k
        → zero_float ≤ℤ atr_value
        → IsProtective entry_level direction buf (flat_stop a k entry_level direction buf atr_value)
    unfolding flat_stop
    flat_stop-IsProtective k entry_level direction buf atr_value hk h =
        let positive = laws.mul_nonneg k atr_value hk h in
        elim (Bool-cases (str_eq direction "SELL")) [
          | inl short ↦
              let reference = reference_of a entry_level direction buf in
              let stop : flat_stop a k entry_level direction buf atr_value
                  ≡ a.add reference (a.mul k atr_value) =
                rw (flat_stop, short) refl in
              inr (
                short,
                subst (λ (s : Float). reference ≤ℤ s) (sym stop)
                    (laws.le_add reference (a.mul k atr_value) positive),
              )
          | inr long ↦
              inl
                (long, rw (flat_stop, long) (laws.sub_le entry_level (a.mul k atr_value) positive))
        ]

    stop_at-IsProtective :
        (entry_level : Float) (direction : String) (buf : EpicBuffer) (d : Float)
        → zero_float ≤ℤ d
        → IsProtective entry_level direction buf (stop_at a entry_level direction buf d)
    unfolding stop_at sign_for reference_of
    stop_at-IsProtective entry_level direction buf d h =
        elim (Bool-cases (str_eq direction "SELL")) [
          | inl short ↦
              let reference = reference_of a entry_level direction buf in
              let stop : stop_at a entry_level direction buf d ≡ a.sub reference (neg d) =
                rw (stop_at, sign_for, short, laws.mul_minus_one d) refl in
              inr (
                short,
                subst (λ (s : Float). reference ≤ℤ s) (sym stop)
                    (laws.le_sub reference (neg d) (ground arith)),
              )
          | inr long ↦ inl (
            long,
            rw (stop_at, sign_for, reference_of, long, laws.mul_one d)
                (laws.sub_le entry_level d h),
          )
        ]

    warm : (period : ℕ) (buf : EpicBuffer) → zero_float ≤ℤ atr a buf.candles period
    warm period buf = (volatility_nonneg a laws buf.candles [] period 1 zero_float (omega arith)).0

    -- A policy that keeps the flat distance for a short.
    side_by_side :
        (direction : String) (entry_level : Float) (buf : EpicBuffer) (short_stop d : Float)
        → IsProtective entry_level direction buf short_stop
        → zero_float ≤ℤ d
        → IsProtective entry_level direction buf
            (if str_eq direction "SELL" then short_stop else a.sub entry_level d)
    side_by_side direction entry_level buf short_stop d flat h =
        elim (Bool-cases (str_eq direction "SELL")) [
          | inl short ↦
              let stop : (if str_eq direction "SELL" then short_stop else a.sub entry_level d)
                  ≡ short_stop =
                rw short refl in
              subst (λ (s : Float). IsProtective entry_level direction buf s) (sym stop) flat
          | inr long ↦
              let stop : (if str_eq direction "SELL" then short_stop else a.sub entry_level d)
                  ≡ a.sub entry_level d =
                rw long refl in
              subst (λ (s : Float). IsProtective entry_level direction buf s) (sym stop)
                (below-IsProtective entry_level direction buf d long h)
        ]

    -- Whatever the candles and the policy, the stop of a new position is on its losing side: not above
    -- the entry for a long position, not below the price that triggers it for a short one, if the
    -- factors of the volatility are not negative.
    pub initial_stop-IsProtective :
        (policy : StopDistance) (entry_level : Float) (direction : String) (buf : EpicBuffer)
        (day_extreme : Option Float)
        → All (λ k. zero_float ≤ℤ k) (floor_factors policy)
        → IsProtective entry_level direction buf
            (initial_stop a policy entry_level direction buf day_extreme)
    unfolding initial_stop
    initial_stop-IsProtective (stop_atr p) entry_level direction buf day_extreme h =
        flat_stop-IsProtective p.stop_atr_k entry_level direction buf
          (atr a buf.candles p.atr_period) h.0 (warm p.atr_period buf)
    initial_stop-IsProtective (stop_support p) entry_level direction buf day_extreme h =
        let v = atr a buf.candles p.atr_period in
        side_by_side direction entry_level buf
          (flat_stop a p.stop_atr_k entry_level direction buf v)
          (support_distance a p entry_level buf v)
          (flat_stop-IsProtective p.stop_atr_k entry_level direction buf v h.0
            (warm p.atr_period buf))
          (support_distance_nonneg p entry_level buf v
            (laws.mul_nonneg p.min_stop_atr_k v h.1.0 (warm p.atr_period buf)))
    initial_stop-IsProtective (stop_regression p) entry_level direction buf day_extreme h =
        let v = atr a buf.candles p.atr_period in
        side_by_side direction entry_level buf
          (flat_stop a p.stop_atr_k entry_level direction buf v) (regression_distance a p buf v)
          (flat_stop-IsProtective p.stop_atr_k entry_level direction buf v h.0
            (warm p.atr_period buf))
          (regression_distance_nonneg p buf v
            (laws.mul_nonneg p.min_stop_atr_k v h.1.0 (warm p.atr_period buf)))
    initial_stop-IsProtective (stop_linearspeed p) entry_level direction buf day_extreme h =
        let v = atr a buf.candles p.atr_period in
        stop_at-IsProtective entry_level direction buf
          (linearspeed_distance a p entry_level direction buf v)
          (linearspeed_distance_nonneg p entry_level direction buf v
            (laws.mul_nonneg p.min_stop_atr_k v h.0 (warm p.atr_period buf)))
    initial_stop-IsProtective (stop_hourlow p) entry_level direction buf day_extreme h =
        let v = atr a buf.candles p.atr_period in
        stop_at-IsProtective entry_level direction buf
          (hourlow_distance a p entry_level direction buf v)
          (hourlow_distance_nonneg p entry_level direction buf v
            (laws.mul_nonneg p.min_stop_atr_k v h.0 (warm p.atr_period buf)))
    initial_stop-IsProtective (stop_shape p) entry_level direction buf day_extreme h =
        let v = atr a buf.candles p.atr_period in
        stop_at-IsProtective entry_level direction buf
          (shape_distance a p entry_level direction buf day_extreme v)
          (shape_distance_nonneg p entry_level direction buf day_extreme v
            (laws.mul_nonneg p.min_stop_atr_k v h.0 (warm p.atr_period buf)))
