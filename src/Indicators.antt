-- ===== src/Indicators.antt =====
-- The indicators on prices and candles (src/core/indicators.py).
pub mod Bounds
mod Tests
use igthon.Prelude.{
  ℕ, ◌+◌, ◌-◌, ◌*◌, Bool, not, ◌&&◌, ◌||◌, Option, none, some, List, [], ◌∷◌, map, length, drop,
  last?, ltb, if◌then◌else◌,
}
use igthon.Prelude.Ring.{keep_last}
use igthon.Num.{Float, Arith, zero_float, ◌<f◌, ◌≤f◌, abs, larger, smaller}
use igthon.Feed.Candle.{Candle}

-- `max` and `min` of a list, which raise on an empty one.
abbrev pub largest : List Float → Option Float
largest [] = none
largest (x ∷ xs) = elim (largest xs) [ none ↦ some x | some y ↦ some (larger x y) ]

abbrev pub smallest : List Float → Option Float
smallest [] = none
smallest (x ∷ xs) = elim (smallest xs) [ none ↦ some x | some y ↦ some (smaller x y) ]

-- `x == y` on floats.
abbrev pub same_float : Float → Float → Bool
same_float x y = not (x <f y) && not (y <f x)

pub record RegressionResult : Type 0 where
  pub slope : Float
  pub intercept : Float
  pub r_squared : Float

-- A channel as `(position, high, low)`.
pub record Channel : Type 0 where
  pub position : Float
  pub high : Float
  pub low : Float

module _ (a : Arith) where
  open a use {add, sub, mul, div, lit, square, sqrt, sum}

  -- `i * v for i, v in enumerate(values)`, from a first index on.
  unfoldable pub weighted : ℕ → List Float → List Float
  weighted i [] = []
  weighted i (v ∷ vs) = mul (lit i 1) v ∷ weighted (i + 1) vs

  -- `v - (slope * i + intercept)`
  unfoldable pub residuals : Float → Float → ℕ → List Float → List Float
  residuals slope intercept i [] = []
  residuals slope intercept i (v ∷ vs) =
      sub v (add (mul slope (lit i 1)) intercept) ∷ residuals slope intercept (i + 1) vs

  unfoldable pub r_squared_of : Float → Float → List Float → Float
  unfolding residuals
  r_squared_of slope intercept values =
      let mean_y = div (sum values) (lit (length values) 1) in
      let ss_tot = sum (map (λ v. square (sub v mean_y)) values) in
      let ss_res = sum (map square (residuals slope intercept 0 values)) in
      if zero_float <f ss_tot then sub (lit 1 1) (div ss_res ss_tot) else zero_float

  unfoldable pub linear_regression : List Float → RegressionResult
  unfolding weighted r_squared_of
  linear_regression [] = record {
    slope = zero_float;
    intercept = zero_float;
    r_squared = zero_float;
  }
  linear_regression (first ∷ []) = record {
    slope = zero_float;
    intercept = zero_float;
    r_squared = zero_float;
  }
  linear_regression (first ∷ second ∷ rest) =
      let values = first ∷ second ∷ rest in
      let n = length values in
      let sum_x = lit (n * (n - 1)) 2 in
      let sum_x2 = lit (n * (n - 1) * (2 * n - 1)) 6 in
      let sum_y = sum values in
      let denominator = sub (mul (lit n 1) sum_x2) (mul sum_x sum_x) in
      if same_float denominator zero_float
      then record { slope = zero_float; intercept = first; r_squared = zero_float }
      else let slope =
          div (sub (mul (lit n 1) (sum (weighted 0 values))) (mul sum_x sum_y)) denominator in
        let intercept = div (sub sum_y (mul slope sum_x)) (lit n 1) in
        record {
          slope = slope;
          intercept = intercept;
          r_squared = r_squared_of slope intercept values;
        }

  unfoldable pub rate_of_change : List Float → ℕ → Float
  rate_of_change values period = elim (drop (length values - (period + 1)) values) [
    | [] ↦ zero_float
    | past ∷ _ ↦
        if ltb period (length values) && not (same_float past zero_float)
        then (elim (last? values) [
          | none ↦ zero_float
          | some now ↦ mul (div (sub now past) past) (lit 100 1)
        ])
        else zero_float
  ]

  unfoldable pub true_range : Candle → Candle → Float
  true_range prev current =
      larger
        (larger (sub current.bid_high current.bid_low) (abs (sub current.bid_high prev.bid_close)))
        (abs (sub current.bid_low prev.bid_close))

  -- Each candle with the one before it.
  unfoldable pub true_ranges : List Candle → List Float
  unfolding true_range
  true_ranges [] = []
  true_ranges (prev ∷ []) = []
  true_ranges (prev ∷ current ∷ cs) = true_range prev current ∷ true_ranges (current ∷ cs)

  unfoldable pub atr : List Candle → ℕ → Float
  unfolding true_ranges keep_last
  atr candles period =
      if ltb period 1 || ltb (length candles) (period + 1)
      then zero_float
      else div (sum (true_ranges (keep_last (period + 1) candles))) (lit period 1)

  unfoldable pub down_moves : List Float → List Float
  down_moves [] = []
  down_moves (prev ∷ []) = []
  down_moves (prev ∷ cur ∷ xs) = larger zero_float (sub prev cur) ∷ down_moves (cur ∷ xs)

  unfoldable pub mean_of : List Float → Float
  mean_of xs = div (sum xs) (lit (length xs) 1)

  -- The mean of the downward steps and a band of their deviation.
  unfoldable pub noise_of : Float → List Float → Float
  unfolding mean_of
  noise_of std_k [] = zero_float
  noise_of std_k (d ∷ ds) =
      let downs = d ∷ ds in
      let mean = mean_of downs in
      let variance = mean_of (map (λ x. square (sub x mean)) downs) in
      add mean (mul std_k (sqrt variance))

  unfoldable pub adverse_tick_noise : List Float → ℕ → Float → Float
  unfolding down_moves noise_of keep_last
  adverse_tick_noise bid_closes window std_k =
      if ltb window 1 || ltb (length bid_closes) 2
      then zero_float
      else noise_of std_k (down_moves (keep_last (window + 1) bid_closes))

  unfoldable pub band_noise : List Float → Float
  unfolding linear_regression residuals
  band_noise values =
      if ltb (length values) 3
      then zero_float
      else let reg = linear_regression values in
        sqrt (
          div (sum (map square (residuals reg.slope reg.intercept 0 values)))
            (lit (length values) 1))

  -- The result is `(pct, r_squared)`.
  unfoldable pub trend_pct : List Float → ℕ → Float × Float
  unfolding linear_regression keep_last
  trend_pct values period =
      if ltb period 2 || ltb (length values) 2
      then (zero_float, zero_float)
      else let window = keep_last period values in
        elim (last? window) [
          | none ↦ (zero_float, zero_float)
          | some price ↦
              if price ≤f zero_float
              then (zero_float, zero_float)
              else let reg = linear_regression window in
                (mul (div (mul reg.slope (lit (length window) 1)) price) (lit 100 1), reg.r_squared)
        ]

  -- The channel of a window that is not empty.
  unfoldable pub channel_of : Float → Float → Float → Channel
  channel_of close high low =
      let span = sub high low in
      if span ≤f zero_float
      then record { position = lit 1 2; high = high; low = low }
      else record { position = div (sub close low) span; high = high; low = low }

  unfoldable pub channel_position : List Candle → ℕ → Channel
  unfolding channel_of keep_last
  channel_position candles period =
      let window = keep_last period candles in
      let nothing : Channel = record { position = lit 1 2; high = zero_float; low = zero_float } in
      if ltb period 1 then nothing else elim (last? window) [
        | none ↦ nothing
        | some c ↦ elim (largest (map (λ (k : Candle). k.bid_high) window)) [
          | none ↦ nothing
          | some high ↦ elim (smallest (map (λ (k : Candle). k.bid_low) window)) [
            | none ↦ nothing
            | some low ↦ channel_of c.bid_close high low
          ]
        ]
      ]

  -- The absolute steps of a path.
  unfoldable pub abs_steps : List Float → List Float
  abs_steps [] = []
  abs_steps (x ∷ []) = []
  abs_steps (x ∷ y ∷ ys) = abs (sub y x) ∷ abs_steps (y ∷ ys)

  -- `abs(window[-1] - window[0])`
  unfoldable pub net_move : List Float → Float
  net_move [] = zero_float
  net_move (x ∷ xs) = elim (last? (x ∷ xs)) [ none ↦ zero_float | some y ↦ abs (sub y x) ]

  unfoldable pub efficiency_ratio : List Float → ℕ → Float
  unfolding abs_steps net_move
  efficiency_ratio values period =
      if ltb (length values) (period + 1) || ltb period 1
      then zero_float
      else let window = drop (length values - (period + 1)) values in
        let path = sum (abs_steps window) in
        if zero_float <f path then div (net_move window) path else zero_float
