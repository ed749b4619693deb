-- ===== src/Exit/Zones/Band.antt =====
-- The updaters between break-even and the margin, and between the margin and the profit trigger
-- (src/exit/zones/breakeven_band.py and src/exit/zones/secure.py).
use igthon.Prelude.{
  ℕ, ◌+◌, Bool, true, false, not, ◌&&◌, ◌||◌, Option, none, some, List, [], ◌∷◌, ltb, length,
  if◌then◌else◌,
}
use igthon.Prelude.Ring.{keep_last}
use igthon.Num.{Float, Arith, zero_float, ◌<f◌, ◌≤f◌, neg, larger}
use igthon.Feed.Buffer.{last}
use igthon.Exit.Zones.{
  StopContext, ◌>>=◌, ◌>>◌, hold_if, sign, gain, beyond, offset, favourable_closes, adverse_noise,
  bar_close, bar_open, price_range, less_gain, tighten_only,
}
use igthon.Exit.Zones.Lock.{BreakevenLockParams, breakeven_lock_level}

pub record BreakevenSafeParams : Type 0 where
  pub gain_target_eur : Float
  pub range_pct : Float
  pub confirm_ticks : ℕ

pub record LimitLooseParams : Type 0 where
  pub noise_window : ℕ
  pub noise_std_k : Float
  pub noise_mult : Float

-- `all(b > a for a, b in zip(recent, recent[1:]))`
unfoldable pub rising : List Float → Bool
rising [] = true
rising (x ∷ []) = true
rising (x ∷ y ∷ ys) = (x <f y) && rising (y ∷ ys)

unfoldable pub rising_streak : List Float → ℕ → Bool
unfolding rising keep_last
rising_streak closes streak =
    if ltb streak 1 || ltb (length closes) (streak + 1)
    then false
    else rising (keep_last (streak + 1) closes)

module _ (a : Arith) where
  open a use {add, sub, mul, div, lit}

  abbrev pub default_safe : BreakevenSafeParams
  default_safe = record { gain_target_eur = lit 10 1; range_pct = lit 3 100; confirm_ticks = 2 }

  abbrev pub default_limitloose : LimitLooseParams
  default_limitloose = record { noise_window = 20; noise_std_k = lit 2 1; noise_mult = lit 2 1 }

  unfoldable pub breakeven_lock : BreakevenLockParams → StopContext → Option Float
  unfolding breakeven_lock_level tighten_only
  breakeven_lock p ctx = do target ← breakeven_lock_level a ctx p; tighten_only a ctx target

  unfoldable pub last_bar_adverse : StopContext → Bool
  unfolding last sign bar_close bar_open
  last_bar_adverse ctx = elim (last ctx.buf) [
    | none ↦ false
    | some c ↦ mul (sign a ctx) (sub (bar_close a ctx c) (bar_open a ctx c)) <f zero_float
  ]

  -- The reference of a fixed gain in euros, and that of a share of the price range.
  unfoldable pub euro_reference : BreakevenSafeParams → StopContext → Option Float
  unfolding offset
  euro_reference p ctx =
      if zero_float <f ctx.euro_per_point
      then some (offset a ctx ctx.level_zero (div p.gain_target_eur ctx.euro_per_point))
      else none

  unfoldable pub range_reference : BreakevenSafeParams → StopContext → Option Float
  unfolding offset price_range
  range_reference p ctx =
      if zero_float <f price_range a ctx
      then some (offset a ctx ctx.level_zero (mul p.range_pct (price_range a ctx)))
      else none

  -- The candidate nearest break-even.
  unfoldable pub nearest : StopContext → Option Float → Option Float → Option Float
  unfolding less_gain
  nearest ctx none y = y
  nearest ctx (some x) none = some x
  nearest ctx (some x) (some y) = some (less_gain a ctx x y)

  unfoldable pub lock_level : BreakevenSafeParams → StopContext → Option Float
  unfolding euro_reference range_reference nearest
  lock_level p ctx = nearest ctx (euro_reference p ctx) (range_reference p ctx)

  unfoldable pub breakeven_safe : BreakevenSafeParams → StopContext → Option Float
  unfolding gain beyond favourable_closes rising_streak last_bar_adverse lock_level tighten_only
  breakeven_safe p ctx = do
    hold_if (zero_float <f gain a ctx ctx.level_follower)
    hold_if (not (rising_streak (favourable_closes a ctx) p.confirm_ticks))
    hold_if (last_bar_adverse ctx)
    target ← lock_level p ctx
    hold_if (not (beyond a ctx ctx.current_price target))
    tighten_only a ctx target

  unfoldable pub limitloose : LimitLooseParams → StopContext → Option Float
  unfolding offset adverse_noise tighten_only
  limitloose p ctx = do
    let cushion =
        larger (mul p.noise_mult (adverse_noise a ctx p.noise_window p.noise_std_k))
          ctx.min_stop_distance
    hold_if (cushion ≤f zero_float)
    tighten_only a ctx (offset a ctx ctx.current_price (neg cushion))

  unfoldable pub breakeven_half : Float → StopContext → Option Float
  unfolding gain beyond tighten_only
  breakeven_half support_fraction ctx = do
    hold_if (gain a ctx ctx.level_margin ≤f zero_float)
    let support = add ctx.level_zero (mul support_fraction (sub ctx.level_margin ctx.level_zero))
    hold_if (not (beyond a ctx ctx.current_price support))
    tighten_only a ctx support
