-- ===== src/Execution/Gates/Curve.antt =====
-- Does the curve of a closed position look like a reversal (src/execution/gates.py)?
use igthon.Prelude.{
  ℕ, String, Bool, true, false, Option, none, some, List, [], ◌∷◌, map, length, ltb, if◌then◌else◌,
}
use igthon.Num.{Float, Arith, zero_float, ◌<f◌, ◌≤f◌, neg, abs, smaller}
use igthon.Indicators.{largest, efficiency_ratio}
use igthon.Execution.Gates.{sign_of}

-- The thresholds, which are arguments of `curve_supports_revert`.
pub record Thresholds : Type 0 where
  pub min_impulse_ratio : Float
  pub min_efficiency_k : Float
  pub max_efficiency_bar : Float
  pub max_favourable_ratio : Float
  pub min_break_ratio : Float
  pub min_curve_candles : ℕ

pub record Curve : Type 0 where
  pub direction : Option String
  pub level_open : Float
  pub original_stop : Float
  pub prices : List Float
  pub current_price : Float
  pub minutes_held : Float

pub data CurveVerdict : Type 0 where
  ok fast unknown_risk no_price value_error : CurveVerdict
  grazed : Float → CurveVerdict
  unknown_curve : ℕ → CurveVerdict
  no_impulse : Float → CurveVerdict
  chopped : Float → Float → CurveVerdict
  swung : Float → CurveVerdict

module _ (a : Arith) where
  open a use {sub, mul, div, lit, sqrt}

  abbrev pub default_thresholds : Thresholds
  default_thresholds = record {
    min_impulse_ratio = lit 2 10;
    min_efficiency_k = lit 12 10;
    max_efficiency_bar = lit 8 10;
    max_favourable_ratio = lit 1 1;
    min_break_ratio = lit 1 10;
    min_curve_candles = 2;
  }

  -- The steps of a path against the trade.
  unfoldable pub adverse_steps : Float → List Float → List Float
  adverse_steps sign [] = []
  adverse_steps sign (x ∷ []) = []
  adverse_steps sign (x ∷ y ∷ ys) = mul (neg sign) (sub y x) ∷ adverse_steps sign (y ∷ ys)

  unfoldable pub favourable_moves : Curve → List Float
  unfolding sign_of
  favourable_moves c = map (λ price. mul (sign_of a c.direction) (sub price c.level_open)) c.prices

  unfoldable pub risk_of : Curve → Float
  risk_of c = abs (sub c.level_open c.original_stop)

  unfoldable pub penetration_of : Curve → Float
  unfolding sign_of
  penetration_of c = mul (neg (sign_of a c.direction)) (sub c.current_price c.original_stop)

  unfoldable pub efficiency_of : Curve → Float
  unfolding efficiency_ratio
  efficiency_of c = efficiency_ratio a (c.level_open ∷ c.prices) (length c.prices)

  unfoldable pub bar_of : Thresholds → Curve → Float
  bar_of t c =
      smaller t.max_efficiency_bar (div t.min_efficiency_k (sqrt (lit (length c.prices) 1)))

  -- The tests of the shape, once there are candles enough.
  unfoldable pub shape_verdict : Thresholds → Curve → CurveVerdict
  unfolding sign_of adverse_steps favourable_moves risk_of efficiency_of bar_of
  shape_verdict t c =
      elim (largest (adverse_steps (sign_of a c.direction) (c.level_open ∷ c.prices))) [
        | none ↦ value_error
        | some impulse ↦
            if impulse <f mul t.min_impulse_ratio (risk_of c)
            then no_impulse impulse
            else if efficiency_of c <f bar_of t c
            then chopped (efficiency_of c) (bar_of t c)
            else elim (largest (favourable_moves c)) [
              | none ↦ value_error
              | some favourable ↦
                  if mul t.max_favourable_ratio (risk_of c) <f favourable
                  then swung favourable
                  else ok
            ]
      ]

  unfoldable pub curve_supports_revert : Thresholds → Curve → CurveVerdict
  unfolding risk_of penetration_of shape_verdict
  curve_supports_revert t c =
      if risk_of c ≤f zero_float
      then unknown_risk
      else if c.current_price ≤f zero_float
      then no_price
      else if penetration_of c <f mul t.min_break_ratio (risk_of c)
      then grazed (penetration_of c)
      else if ltb (length c.prices) t.min_curve_candles
      then (if c.minutes_held ≤f lit t.min_curve_candles 1
          then fast
          else unknown_curve (length c.prices))
      else shape_verdict t c

-- A curve supports a revert if it is `ok`, or too short to have a shape.
abbrev pub supports : CurveVerdict → Bool
supports ok = true
supports fast = true
supports _ = false
