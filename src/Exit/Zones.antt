-- ===== src/Exit/Zones.antt =====
-- The zones of the price axis and what the stop updaters read (src/exit/zones/base.py).
pub mod Order
pub mod Tighten
pub mod Lock
pub mod Underwater
pub mod Band
pub mod Profit
pub mod Group
use igthon.Prelude.{
  ℕ, String, Bool, true, false, not, ◌&&◌, Option, none, some, List, [], ◌∷◌, map, str_eq, ltb,
  if◌then◌else◌,
}
use igthon.Num.{Float, Arith, zero_float, ◌<f◌, neg}
use igthon.Indicators.{largest, smallest, adverse_tick_noise}
use igthon.Feed.Candle.{Candle}
use igthon.Feed.Buffer.{EpicBuffer, bid_closes, offer_closes}

pub data StopZone : Type 0 where
  underwater breakeven_band secure profit : StopZone

pub record StopContext : Type 0 where
  pub current_price : Float
  pub level_open : Float
  pub level_zero : Float
  pub level_margin : Float
  pub level_follower : Float
  pub atr_value : Float
  pub spread : Float
  pub euro_per_point : Float
  pub buf : EpicBuffer
  pub direction : String
  pub min_stop_distance : Float
  pub group_tighten : Option Float

-- An updater's answer is built from guards that hold the stop.
infixl 5 ◌>>=◌ ◌>>◌
abbrev pub ◌>>=◌ {ℓ κ} : {A : Type ℓ} {B : Type κ} → Option A → (A → Option B) → Option B
none >>= f = none
some x >>= f = f x

abbrev pub ◌>>◌ {ℓ} : {B : Type ℓ} → Option (Unit {0}) → Option B → Option B
m >> k = m >>= λ _. k

-- `if test: return None`
abbrev pub hold_if : Bool → Option (Unit {0})
hold_if true = none
hold_if false = some tt

module _ (a : Arith) where
  open a use {add, sub, mul, lit}

  -- `+1` when profit is up, `-1` when it is down.
  unfoldable pub sign_for : String → Float
  sign_for direction = if str_eq direction "SELL" then neg (lit 1 1) else lit 1 1

  unfoldable pub classify_zone : Float → Float → Float → Float → Float → StopZone
  classify_zone current_price level_zero level_margin level_profit sign =
      if zero_float <f mul sign (sub current_price level_profit)
      then profit
      else if zero_float <f mul sign (sub current_price level_margin)
      then secure
      else if zero_float <f mul sign (sub current_price level_zero)
      then breakeven_band
      else underwater

  unfoldable pub sign : StopContext → Float
  unfolding sign_for
  sign ctx = sign_for ctx.direction

  unfoldable pub gain : StopContext → Float → Float
  gain ctx level = mul (sign ctx) (sub level ctx.level_zero)

  unfoldable pub beyond : StopContext → Float → Float → Bool
  beyond ctx level reference = zero_float <f mul (sign ctx) (sub level reference)

  unfoldable pub offset : StopContext → Float → Float → Float
  offset ctx reference distance = add reference (mul (sign ctx) distance)

  unfoldable pub favourable : StopContext → Float → Float
  favourable ctx level = mul (sign ctx) level

  unfoldable pub absolute : StopContext → Float → Float
  absolute ctx favourable_level = mul (sign ctx) favourable_level

  unfoldable pub closes : StopContext → List Float
  unfolding bid_closes offer_closes
  closes ctx = if sign ctx <f zero_float then offer_closes ctx.buf else bid_closes ctx.buf

  unfoldable pub favourable_closes : StopContext → List Float
  unfolding closes
  favourable_closes ctx = map (λ c. mul (sign ctx) c) (closes ctx)

  unfoldable pub adverse_noise : StopContext → ℕ → Float → Float
  unfolding favourable_closes adverse_tick_noise
  adverse_noise ctx window std_k = adverse_tick_noise a (favourable_closes ctx) window std_k

  unfoldable pub bar_close : StopContext → Candle → Float
  bar_close ctx c = if sign ctx <f zero_float then c.offer_close else c.bid_close

  unfoldable pub bar_open : StopContext → Candle → Float
  bar_open ctx c = if sign ctx <f zero_float then c.offer_open else c.bid_open

  unfoldable pub bar_adverse : StopContext → Candle → Float
  bar_adverse ctx c = if sign ctx <f zero_float then c.offer_high else c.bid_low

  -- `max(highs) - min(lows)`, and `0.0` of an empty buffer.
  unfoldable pub span_of : List Float → List Float → Float
  span_of highs lows = elim (largest highs) [
    | none ↦ zero_float
    | some high ↦ elim (smallest lows) [ none ↦ zero_float | some low ↦ sub high low ]
  ]

  unfoldable pub price_range : StopContext → Float
  unfolding span_of
  price_range ctx =
      if sign ctx <f zero_float
      then span_of (map (λ (c : Candle). c.offer_high) ctx.buf.candles)
          (map (λ (c : Candle). c.offer_low) ctx.buf.candles)
      else span_of (map (λ (c : Candle). c.bid_high) ctx.buf.candles)
          (map (λ (c : Candle). c.bid_low) ctx.buf.candles)

  -- `min(x, y, key=ctx.gain)` and `max(x, y, key=ctx.gain)`: the first wins a tie.
  unfoldable pub less_gain : StopContext → Float → Float → Float
  unfolding gain
  less_gain ctx x y = if gain ctx y <f gain ctx x then y else x

  unfoldable pub more_gain : StopContext → Float → Float → Float
  unfolding gain
  more_gain ctx x y = if gain ctx x <f gain ctx y then y else x

  -- The best of the candidates that are there.
  unfoldable pub best_of : StopContext → Option Float → Option Float → Option Float
  unfolding more_gain
  best_of ctx none y = y
  best_of ctx (some x) none = some x
  best_of ctx (some x) (some y) = some (more_gain ctx x y)

  -- `level_follower > 0 and not beyond(target, level_follower)`
  unfoldable pub loosens : StopContext → Float → Bool
  unfolding beyond
  loosens ctx target =
      (zero_float <f ctx.level_follower) && not (beyond ctx target ctx.level_follower)

  unfoldable pub tighten_only : StopContext → Float → Option Float
  unfolding loosens
  tighten_only ctx target = if loosens ctx target then none else some target
