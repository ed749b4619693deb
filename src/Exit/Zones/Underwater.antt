-- ===== src/Exit/Zones/Underwater.antt =====
-- The updaters short of break-even (src/exit/zones/underwater.py and src/exit/zones/timedlift.py).
use Prim.Native.Nat.{◌/◌}
use igthon.Prelude.{
  ℕ, ◌+◌, ◌-◌, ◌*◌, not, ◌&&◌, ◌||◌, Option, none, some, List, [], ◌∷◌, ltb, leb, length, last?,
  if◌then◌else◌,
}
use igthon.Num.{Float, Arith, zero_float, ◌<f◌, ◌≤f◌, neg, larger}
use igthon.Indicators.{linear_regression, efficiency_ratio}
use igthon.Feed.Candle.{Candle}
use igthon.Exit.Zones.{
  StopContext, ◌>>=◌, ◌>>◌, hold_if, sign, gain, beyond, offset, favourable_closes, adverse_noise,
  bar_adverse, less_gain,
}

pub record TrendCutParams : Type 0 where
  pub min_ticks : ℕ
  pub er_min : Float
  pub cut_fraction : Float

-- The period is a whole number of minutes.
pub record TimedLiftParams : Type 0 where
  pub period_minutes : ℕ
  pub noise_window : ℕ
  pub noise_std_k : Float
  pub cushion_noise_mult : Float
  pub cushion_atr_k : Float
  pub safety_noise_mult : Float
  pub safety_atr_k : Float
  pub safety_spread_k : Float
  pub min_advance_atr_k : Float

-- `[c for c in candles if start <= c.timestamp < end]`
unfoldable pub candles_within : ℕ → ℕ → List Candle → List Candle
candles_within start end [] = []
candles_within start end (c ∷ cs) =
    let rest = candles_within start end cs in
    if leb start c.timestamp && ltb c.timestamp end then c ∷ rest else rest

-- The window of a period of so many milliseconds, when it has gone by at least once.
unfoldable pub window_of : ℕ → ℕ → ℕ → List Candle → List Candle
unfolding candles_within
window_of period opened_at now candles =
    let completed = (now - opened_at) / period in
    let window_end = opened_at + completed * period in
    if ltb completed 1 then [] else candles_within (window_end - period) window_end candles

unfoldable pub review_window : ℕ → List Candle → List Candle
unfolding window_of
review_window minutes [] = []
review_window minutes (first ∷ []) = []
review_window minutes (first ∷ second ∷ rest) =
    if ltb minutes 1 then [] else elim (last? (second ∷ rest)) [
      | none ↦ []
      | some c ↦ window_of (minutes * 60000) first.timestamp c.timestamp (first ∷ second ∷ rest)
    ]

module _ (a : Arith) where
  open a use {sub, mul, lit}

  abbrev pub default_trendcut : TrendCutParams
  default_trendcut = record { min_ticks = 15; er_min = lit 5 10; cut_fraction = lit 5 10 }

  abbrev pub default_timedlift : TimedLiftParams
  default_timedlift = record {
    period_minutes = 10;
    noise_window = 20;
    noise_std_k = lit 2 1;
    cushion_noise_mult = lit 1 1;
    cushion_atr_k = lit 5 10;
    safety_noise_mult = lit 2 1;
    safety_atr_k = lit 1 1;
    safety_spread_k = lit 2 1;
    min_advance_atr_k = lit 25 100;
  }

  -- The level of the cut, with the initial risk.
  unfoldable pub cut_target : TrendCutParams → StopContext → Float → Float
  unfolding offset less_gain
  cut_target p ctx risk =
      less_gain a ctx (offset a ctx ctx.level_zero (neg (mul p.cut_fraction risk)))
        (offset a ctx ctx.current_price (neg ctx.spread))

  unfoldable pub trendcut : TrendCutParams → StopContext → Option Float
  unfolding gain beyond favourable_closes linear_regression efficiency_ratio cut_target
  trendcut p ctx = do
    let risk = neg (gain a ctx ctx.level_follower)
    hold_if (risk ≤f zero_float)
    let closes = favourable_closes a ctx
    hold_if (ltb (length closes) (p.min_ticks + 1))
    hold_if (zero_float ≤f (linear_regression a closes).slope)
    hold_if (efficiency_ratio a closes (length closes - 1) <f p.er_min)
    let target = cut_target p ctx risk
    hold_if (not (beyond a ctx target ctx.level_follower))
    some target

  -- `min(bar_adverse(c) for c in window, key=gain)`, from a first candle on.
  unfoldable pub support_of : StopContext → Float → List Candle → Float
  unfolding bar_adverse less_gain
  support_of ctx x [] = x
  support_of ctx x (c ∷ cs) = support_of ctx (less_gain a ctx x (bar_adverse a ctx c)) cs

  unfoldable pub support_level : StopContext → List Candle → Option Float
  unfolding bar_adverse support_of
  support_level ctx [] = none
  support_level ctx (c ∷ cs) = some (support_of ctx (bar_adverse a ctx c) cs)

  unfoldable pub cushion_of : TimedLiftParams → StopContext → Float → Float
  cushion_of p ctx noise =
      larger (larger (mul p.cushion_noise_mult noise) (mul p.cushion_atr_k ctx.atr_value))
        ctx.spread

  unfoldable pub safety_of : TimedLiftParams → StopContext → Float → Float
  safety_of p ctx noise =
      larger
        (larger (larger (mul p.safety_noise_mult noise) (mul p.safety_atr_k ctx.atr_value))
          (mul p.safety_spread_k ctx.spread))
        ctx.min_stop_distance

  unfoldable pub timedlift : TimedLiftParams → StopContext → Option Float
  unfolding sign gain offset review_window adverse_noise support_level cushion_of safety_of
  timedlift p ctx = do
    hold_if ((ctx.level_follower ≤f zero_float) || (zero_float ≤f gain a ctx ctx.level_follower))
    support ← support_level ctx (review_window p.period_minutes ctx.buf.candles)
    let noise = adverse_noise a ctx p.noise_window p.noise_std_k
    let candidate = offset a ctx support (neg (cushion_of p ctx noise))
    hold_if (zero_float ≤f gain a ctx candidate)
    hold_if (
        mul (sign a ctx) (sub candidate ctx.level_follower)
        ≤f mul p.min_advance_atr_k ctx.atr_value)
    hold_if (mul (sign a ctx) (sub ctx.current_price candidate) <f safety_of p ctx noise)
    some candidate
