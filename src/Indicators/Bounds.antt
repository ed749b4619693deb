-- ===== src/Indicators/Bounds.antt =====
-- The volatility measures are never negative (src/core/indicators.py).
use igthon.Prelude.{ℕ, ◌+◌, List, [], ◌∷◌, map, length, arith, All}
use igthon.Prelude.Ring.{keep_last}
use igthon.Prelude.Int.{◌≤ℤ◌}
use igthon.Num.{Float, Arith, Ieee, zero_float, abs}
use igthon.Feed.Candle.{Candle}
use igthon.Indicators.{true_ranges, atr, down_moves, mean_of, noise_of, adverse_tick_noise}

abs_nonneg : (x : Float) → zero_float ≤ℤ abs x
abs_nonneg x = ground arith

module _ (a : Arith) (laws : Ieee a) where
  true_ranges_nonneg : (cs : List Candle) → All (λ x. zero_float ≤ℤ x) (true_ranges a cs)
  unfolding true_ranges
  true_ranges_nonneg [] = tt
  true_ranges_nonneg (prev ∷ []) = tt
  true_ranges_nonneg (prev ∷ current ∷ cs) = (
    ground (arith, abs_nonneg (a.sub current.bid_low prev.bid_close)),
    true_ranges_nonneg (current ∷ cs),
  )

  down_moves_nonneg : (xs : List Float) → All (λ x. zero_float ≤ℤ x) (down_moves a xs)
  unfolding down_moves
  down_moves_nonneg [] = tt
  down_moves_nonneg (prev ∷ []) = tt
  down_moves_nonneg (prev ∷ cur ∷ xs) = (ground arith, down_moves_nonneg (cur ∷ xs))

  squares_nonneg :
      (m : Float) (xs : List Float)
      → All (λ x. zero_float ≤ℤ x) (map (λ x. a.square (a.sub x m)) xs)
  squares_nonneg m [] = tt
  squares_nonneg m (x ∷ xs) = (laws.square_nonneg (a.sub x m), squares_nonneg m xs)

  mean_of_nonneg : (xs : List Float) → All (λ x. zero_float ≤ℤ x) xs → zero_float ≤ℤ mean_of a xs
  unfolding mean_of
  mean_of_nonneg xs h =
      laws.div_nonneg (a.sum xs) (a.lit (length xs) 1) (laws.sum_nonneg xs h)
        (laws.lit_nonneg (length xs) 1)

  noise_of_nonneg :
      (k : Float) (xs : List Float)
      → zero_float ≤ℤ k
      → All (λ x. zero_float ≤ℤ x) xs
      → zero_float ≤ℤ noise_of a k xs
  unfolding noise_of
  noise_of_nonneg k [] hk h = omega arith
  noise_of_nonneg k (d ∷ ds) hk h =
      let mean = mean_of a (d ∷ ds) in
      let deviations = map (λ x. a.square (a.sub x mean)) (d ∷ ds) in
      laws.add_nonneg mean (a.mul k (a.sqrt (mean_of a deviations))) (mean_of_nonneg (d ∷ ds) h) (
        laws.mul_nonneg k (a.sqrt (mean_of a deviations)) hk (
          laws.sqrt_nonneg (mean_of a deviations)
            (mean_of_nonneg deviations (squares_nonneg mean (d ∷ ds)))))

  -- The average true range and the adverse noise are never negative, whatever the prices and the
  -- window, if the factor of the deviation is not negative.
  pub volatility_nonneg :
      (cs : List Candle) (closes : List Float) (period window : ℕ) (k : Float)
      → zero_float ≤ℤ k
      → (zero_float ≤ℤ atr a cs period) × (zero_float ≤ℤ adverse_tick_noise a closes window k)
  unfolding atr adverse_tick_noise
  volatility_nonneg cs closes period window k hk = (
    ground (
      arith,
      laws.div_nonneg (a.sum (true_ranges a (keep_last (period + 1) cs))) (a.lit period 1)
          (laws.sum_nonneg (true_ranges a (keep_last (period + 1) cs))
            (true_ranges_nonneg (keep_last (period + 1) cs)))
          (laws.lit_nonneg period 1),
    ),
    ground (
      arith,
      noise_of_nonneg k (down_moves a (keep_last (window + 1) closes)) hk
          (down_moves_nonneg (keep_last (window + 1) closes)),
    ),
  )
