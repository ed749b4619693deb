-- ===== src/Exit/Zones/Lock.antt =====
-- The lock behind a swing low that has held past break-even (src/exit/zones/base.py).
use igthon.Prelude.{ℕ, ◌||◌, Option, List, ltb, length}
use igthon.Prelude.Ring.{keep_last}
use igthon.Num.{Float, Arith, ◌≤f◌, larger}
use igthon.Indicators.{smallest, adverse_tick_noise}
use igthon.Exit.Zones.{StopContext, ◌>>=◌, ◌>>◌, hold_if, favourable, absolute, favourable_closes}

pub record BreakevenLockParams : Type 0 where
  pub confirm_window : ℕ
  pub lock_fraction : Float
  pub noise_window : ℕ
  pub noise_std_k : Float
  pub noise_mult : Float

module _ (a : Arith) where
  open a use {add, sub, mul, lit}

  abbrev pub default_lock : BreakevenLockParams
  default_lock = record {
    confirm_window = 10;
    lock_fraction = lit 6 10;
    noise_window = 20;
    noise_std_k = lit 2 1;
    noise_mult = lit 2 1;
  }

  -- The least of the last closes; `none` when there are too few.
  unfoldable pub swing_low_of : BreakevenLockParams → List Float → Option Float
  unfolding keep_last
  swing_low_of params closes = do
    hold_if (ltb params.confirm_window 1 || ltb (length closes) params.confirm_window)
    smallest (keep_last params.confirm_window closes)

  unfoldable pub breakeven_lock_level : StopContext → BreakevenLockParams → Option Float
  unfolding favourable absolute favourable_closes swing_low_of adverse_tick_noise
  breakeven_lock_level ctx params = do
    let closes = favourable_closes a ctx
    let noise =
        mul params.noise_mult (adverse_tick_noise a closes params.noise_window params.noise_std_k)
    let zero_level = favourable a ctx ctx.level_zero
    swing_low ← swing_low_of params closes
    hold_if (sub swing_low noise ≤f zero_level)
    let target = add zero_level (mul params.lock_fraction (sub swing_low zero_level))
    let level = larger target (add zero_level ctx.spread)
    hold_if (favourable a ctx ctx.current_price ≤f level)
    Option.some (absolute a ctx level)
